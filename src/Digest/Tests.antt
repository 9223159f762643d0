-- ===== src/Digest/Tests.antt =====
-- Runs of the digest functions, and the theorems at concrete inputs.
use pcr_oracle.Common.{◌≡◌, ◌↔◌, refl, true, none, some, [], ◌∷◌, arith, replicate, All}
use pcr_oracle.Common.Bytes.{codes, octets_eq}
use pcr_oracle.Common.Outcome.{ok}
use pcr_oracle.Digest.{
  TpmEvdigest, digest_by_tpm_alg, digest_by_name, digest_compute, digest_equal, digest_is_zero,
  digest_is_invalid, value_of, algo_eq,
}
use pcr_oracle.Digest.Algo.{IsRegistered, digest_by_name-digest_by_tpm_alg}
use pcr_oracle.Digest.Values.{IsZero, IsOnes, special_values, digest_equal_iff}
use pcr_oracle.Digest.Compute.{digest_compute_lem}
use pcr_oracle.Digest.Sample.{first_bytes, first_bytes-IsStreaming, sha256, sha256-IsSupported}

by_name_runs : digest_by_name (codes "SHA256") ≡ some sha256
unfolding digest_by_name
by_name_runs = refl

unknown_number_runs : digest_by_tpm_alg 5 ≡ none
unfolding digest_by_tpm_alg
unknown_number_runs = refl

digest_by_name-digest_by_tpm_alg_example : IsRegistered 11 sha256
digest_by_name-digest_by_tpm_alg_example =
    digest_by_name-digest_by_tpm_alg 11 sha256 (unfold digest_by_tpm_alg in refl)

abbrev short_ones : TpmEvdigest
short_ones = record { algo = some sha256; size = 2; octets = 0xff ∷ 0xff ∷ replicate 62 0 }

invalid_runs : digest_is_invalid short_ones ≡ true
unfolding digest_is_invalid
invalid_runs = refl

special_values_example :
    ((digest_is_zero short_ones ≡ true) ↔ All IsZero (value_of short_ones))
    × ((digest_is_invalid short_ones ≡ true) ↔ All IsOnes (value_of short_ones))
special_values_example = special_values short_ones (omega arith, (omega arith, tt))

abbrev other_ones : TpmEvdigest
other_ones = record { algo = some sha256; size = 2; octets = 0xff ∷ 0xff ∷ replicate 62 7 }

equal_runs : digest_equal short_ones other_ones ≡ true
unfolding digest_equal octets_eq
equal_runs = refl

digest_equal_iff_example : (digest_equal short_ones other_ones ≡ true) ↔ (
    (algo_eq short_ones.algo other_ones.algo ≡ true)
    × (short_ones.size ≡ other_ones.size)
    × (value_of short_ones ≡ value_of other_ones))
digest_equal_iff_example = digest_equal_iff short_ones other_ones

digest_compute_lem_example :
    (md : TpmEvdigest) × (digest_compute first_bytes sha256 (1 ∷ 2 ∷ 3 ∷ []) ≡ ok (some md))
    × (md.algo ≡ some sha256)
    × (md.size ≡ 32)
    × (value_of md ≡ 1 ∷ 2 ∷ 3 ∷ replicate 29 0)
digest_compute_lem_example =
    digest_compute_lem first_bytes first_bytes-IsStreaming sha256 tt (1 ∷ 2 ∷ 3 ∷ [])
      sha256-IsSupported
