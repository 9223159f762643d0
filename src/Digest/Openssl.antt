-- ===== src/Digest/Openssl.antt =====
-- What src/digest.c uses of OpenSSL's EVP interface, as a parameter of the model.
use pcr_oracle.Common.{ℕ, ◌≤◌, ◌≡◌, Option, [], ◌++◌, length}
use pcr_oracle.Common.Bytes.{Octets, CString}

-- `get_digestbyname`, `md_size` and the three calls on a context are the functions of that name.
-- `digest` is EVP_Digest(), the hash of one range of bytes.
pub record Evp : Type 1 where
  pub Md : Type 0
  pub Ctx : Type 0
  pub get_digestbyname : Option CString → Option Md
  pub md_size : Md → ℕ
  pub digest_init : Md → Ctx
  pub digest_update : Ctx → Octets → Ctx
  pub digest_final : Ctx → Octets
  pub digest : Md → Octets → Octets

-- The documented behaviour that the program relies on: "EVP_DigestUpdate() can be called several times
-- on the same ctx to hash additional data", no bytes add nothing, the hash of one range is init, update and final, and the
-- result has EVP_MD_size() bytes, which are at most EVP_MAX_MD_SIZE.
pub record IsStreaming (evp : Evp) : Type 0 where
  pub update_twice :
      (c : evp.Ctx) (a b : Octets)
      → evp.digest_update (evp.digest_update c a) b ≡ evp.digest_update c (a ++ b)
  pub update_none : (c : evp.Ctx) → evp.digest_update c [] ≡ c
  pub one_range :
      (m : evp.Md) (a : Octets)
      → evp.digest_final (evp.digest_update (evp.digest_init m) a) ≡ evp.digest m a
  pub final_size : (m : evp.Md) (a : Octets) → length (evp.digest m a) ≡ evp.md_size m
  pub size_limit : (m : evp.Md) → evp.md_size m ≤ 64
