-- ===== src/Util/Digests.antt =====
-- `parse_digest` of src/util.c.
use pcr_oracle.Common.{
  ℕ, ◌+◌, ◌*◌, ◌≤◌, ◌≡◌, refl, true, Option, none, some, ◌++◌, ◌==◌, ==_iff, if◌then◌else◌, arith,
  length, drop, replicate, All, take-append,
}
use pcr_oracle.Common.Bytes.{Octets, CString, IsByte}
use pcr_oracle.Common.Outcome.{Outcome, ok, fatal}
use pcr_oracle.Digest.{TpmAlgoInfo, TpmEvdigest, digest_by_name, evp_max_md_size, value_of}
use pcr_oracle.Util.Hex.{
  parse_octet_string, print_hex_string_buffer, parse_octet_string-print_hex_string_buffer,
}

-- The digest if the size is right; `none` is NULL.
sized_digest : TpmAlgoInfo → ℕ × Octets → Option TpmEvdigest
sized_digest algo_info (size, octets) =
    if size == algo_info.digest_size
    then some (record { algo = some algo_info; size = size; octets = octets })
    else none

-- An unknown algorithm ends the process.
digest_for : Option TpmAlgoInfo → CString → Outcome (Option TpmEvdigest)
unfolding sized_digest
digest_for none string = fatal
digest_for (some algo_info) string = ok (
    sized_digest algo_info
      (parse_octet_string string (replicate evp_max_md_size 0) evp_max_md_size))

unfoldable pub parse_digest : CString → CString → Outcome (Option TpmEvdigest)
unfolding digest_for
parse_digest string algo = digest_for (digest_by_name algo) string

-- A value with the size of an algorithm known under the name, of at most 64 bytes, is printed where the
-- room for the text is enough, and read back to a digest of that algorithm with that value.
pub parse_digest-print_hex_string_buffer :
    (name : CString) (algo_info : TpmAlgoInfo) (octets : Octets) (size : ℕ)
    → digest_by_name name ≡ some algo_info
    → All IsByte octets
    → length octets ≡ algo_info.digest_size
    → length octets ≤ evp_max_md_size
    → 2 * length octets + 1 ≤ size
    → (s : CString) × (print_hex_string_buffer octets size ≡ ok s)
      × (md : TpmEvdigest) × (parse_digest s name ≡ ok (some md))
      × (md.algo ≡ some algo_info)
      × (value_of md ≡ octets)
unfolding parse_digest digest_for sized_digest
parse_digest-print_hex_string_buffer name algo_info octets size known bytes sized fits room =
    let zeros : Octets = replicate evp_max_md_size 0 in
    let (s, prints, reads) =
      parse_octet_string-print_hex_string_buffer octets zeros size evp_max_md_size bytes room fits
        (omega arith) in
    let right : (length octets == algo_info.digest_size) ≡ true = (==_iff _ _).1 sized in
    (
      s,
      prints,
      record {
        algo = some algo_info;
        size = length octets;
        octets = octets ++ drop (length octets) zeros;
      },
      rw (known, reads, right),
      refl,
      take-append octets (drop (length octets) zeros) (length octets) refl,
    )
