-- ===== src/Digest/Algo.antt =====
-- Looking an algorithm up by its TPM number and by its name.
use pcr_oracle.Common.{ℕ, ◌≡◌, ◌≤◌, refl, sym, some, arith, ◌⊎◌, inl, inr}
use mathlib.Core.Path.{subst}
use pcr_oracle.Common.Bytes.{codes, CString}
use pcr_oracle.Digest.{
  TpmAlgoInfo, digest_by_tpm_alg, digest_by_name, static_table, evp_max_md_size, algo_entry,
}

-- The four numbers that the program knows, and no other.
pub digest_by_tpm_alg_known :
    (id : ℕ) (a : TpmAlgoInfo)
    → digest_by_tpm_alg id ≡ some a
    → (id ≡ 4) ⊎ (id ≡ 11) ⊎ (id ≡ 12) ⊎ (id ≡ 13)
unfolding digest_by_tpm_alg
digest_by_tpm_alg_known id a h = ground arith

-- What the static table holds under a number.
pub record IsRegistered (id : ℕ) (a : TpmAlgoInfo) : Type 0 where
  pub number : a.tcg_id ≡ id
  pub slot : a.slot ≡ id
  pub table : a.table ≡ static_table
  pub least : 20 ≤ a.digest_size
  pub most : a.digest_size ≤ evp_max_md_size
  pub name : CString
  pub named : a.openssl_name ≡ some name
  pub found : digest_by_name name ≡ some a

registered :
    {id size : ℕ} {name : CString}
    → digest_by_name name ≡ some (algo_entry id name size)
    → 20 ≤ size
    → size ≤ 64
    → IsRegistered id (algo_entry id name size)
registered {name = name} h lo hi = record {
  number = refl;
  slot = refl;
  table = refl;
  least = lo;
  most = hi;
  name = name;
  named = refl;
  found = h;
}

IsRegistered-at :
    (id id' : ℕ) (x a : TpmAlgoInfo)
    → digest_by_tpm_alg id ≡ some x
    → IsRegistered id x
    → id' ≡ id
    → digest_by_tpm_alg id' ≡ some a
    → IsRegistered id' a
IsRegistered-at id id' x a hx r e h =
    let same : x ≡ a = cc in
    subst (λ t. IsRegistered id' t) same (subst (λ k. IsRegistered k x) (sym e) r)

-- An algorithm found by its TPM number has that number, the slot of that number in the static table, a
-- digest of 20 to 64 bytes, and a name by which the lookup by name finds the same entry.
pub digest_by_name-digest_by_tpm_alg :
    (id : ℕ) (a : TpmAlgoInfo) → digest_by_tpm_alg id ≡ some a → IsRegistered id a
unfolding digest_by_tpm_alg digest_by_name
digest_by_name-digest_by_tpm_alg id a h = elim (digest_by_tpm_alg_known id a h) [
  | inl e ↦
      IsRegistered-at 4 id (algo_entry 4 (codes "sha1") 20) a refl
        (registered refl (omega arith) (omega arith)) e h
  | inr (inl e) ↦
      IsRegistered-at 11 id (algo_entry 11 (codes "sha256") 32) a refl
        (registered refl (omega arith) (omega arith)) e h
  | inr (inr (inl e)) ↦
      IsRegistered-at 12 id (algo_entry 12 (codes "sha384") 48) a refl
        (registered refl (omega arith) (omega arith)) e h
  | inr (inr (inr e)) ↦
      IsRegistered-at 13 id (algo_entry 13 (codes "sha512") 64) a refl
        (registered refl (omega arith) (omega arith)) e h
]
