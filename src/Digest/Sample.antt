-- ===== src/Digest/Sample.antt =====
-- A function in the place of OpenSSL's hashes, for the tests: it keeps the first 32 bytes.
use pcr_oracle.Common.{
  append_assoc, append-nil, ℕ, refl, Option, none, some, [], ◌++◌, arith, take, replicate,
  length-take, length-append, length-replicate,
}
use pcr_oracle.Common.Bytes.{Octets, CString, codes}
use pcr_oracle.Digest.{TpmAlgoInfo, algo_entry}
use pcr_oracle.Digest.Openssl.{Evp, IsStreaming}
use pcr_oracle.Digest.Compute.{IsSupported}

abbrev found_by : Option CString → Option (Unit {0})
found_by none = none
found_by (some name) = some tt

abbrev pub first_bytes : Evp
first_bytes = record {
  Md = Unit {0};
  Ctx = Octets;
  get_digestbyname = found_by;
  md_size = λ m. 32;
  digest_init = λ m. [];
  digest_update = λ c a. c ++ a;
  digest_final = λ c. take 32 (c ++ replicate 32 0);
  digest = λ m a. take 32 (a ++ replicate 32 0);
}

pub first_bytes-IsStreaming : IsStreaming first_bytes
first_bytes-IsStreaming = record {
  update_twice = append_assoc;
  update_none = append-nil;
  one_range = λ m a. refl;
  final_size = λ m a. omega (
    arith,
    length-take {A = ℕ} 32 (a ++ replicate 32 0),
    length-append a (replicate 32 0),
    length-replicate {A = ℕ} 32 0,
  );
  size_limit = λ m. omega arith;
}

abbrev pub sha256 : TpmAlgoInfo
sha256 = algo_entry 11 (codes "sha256") 32

pub sha256-IsSupported : IsSupported first_bytes sha256 tt
sha256-IsSupported = record { found = refl; sized = refl }
