-- ===== src/Digest.antt =====
-- src/digest.c and src/digest.h: algorithms, digest values and digest contexts.
-- OpenSSL is not part of the repository: `Evp` is what digest.c calls of it.
pub mod Openssl
pub mod Algo
pub mod Values
pub mod Compute
pub mod Sample
mod Tests
use pcr_oracle.Common.{
  ℕ, zero, suc, ◌+◌, bit_and, bit_or, Bool, true, false, ◌&&◌, Option, none, some, List, [], ◌∷◌,
  ◌++◌, ltb, ◌==◌, if◌then◌else◌, length, take, drop, replicate,
}
use mathlib.Core.List.{foldl}
use pcr_oracle.Common.Bytes.{Octets, CString, codes, octets_eq, case_eq}
use pcr_oracle.Common.Outcome.{Outcome, ok, fatal, undefined, ◌>>=◌, ◌>>◌, fatal_if, defined_if}
use pcr_oracle.Digest.Openssl.{Evp}
use pcr_oracle.Buffer.{Buffer, buffer_read_pointer, buffer_available}

-- EVP_MAX_MD_SIZE of OpenSSL, the size of `tpm_evdigest.data`.
abbrev pub evp_max_md_size : ℕ
evp_max_md_size = 64

-- A `const tpm_algo_info_t *` is compared as a pointer: it is known by its table and its slot there.
-- `log_table` is `tcg2_info.algorithms` of the event log reader.
pub data AlgoTable : Type 0 where
  static_table log_table : AlgoTable

pub record TpmAlgoInfo : Type 0 where
  pub table : AlgoTable
  pub slot : ℕ
  pub tcg_id : ℕ
  pub openssl_name : Option CString
  pub digest_size : ℕ

abbrev pub same_table : AlgoTable → AlgoTable → Bool
same_table static_table static_table = true
same_table static_table log_table = false
same_table log_table static_table = false
same_table log_table log_table = true

-- `a == b` on two pointers, either of which may be NULL.
abbrev pub algo_eq : Option TpmAlgoInfo → Option TpmAlgoInfo → Bool
algo_eq none none = true
algo_eq none (some b) = false
algo_eq (some a) none = false
algo_eq (some a) (some b) = same_table a.table b.table && a.slot == b.slot

abbrev pub algo_entry : ℕ → CString → ℕ → TpmAlgoInfo
algo_entry id name size = record {
  table = static_table;
  slot = id;
  tcg_id = id;
  openssl_name = some name;
  digest_size = size;
}

-- A slot that no initializer names is zero.
abbrev pub empty_entry : AlgoTable → ℕ → TpmAlgoInfo
empty_entry t id = record { table = t; slot = id; tcg_id = 0; openssl_name = none; digest_size = 0 }

abbrev pub tpm2_alg_max : ℕ
tpm2_alg_max = 14

unfoldable pub tpm_algorithms : ℕ → TpmAlgoInfo
tpm_algorithms id =
    if id == 4
    then algo_entry 4 (codes "sha1") 20
    else if id == 11
    then algo_entry 11 (codes "sha256") 32
    else if id == 12
    then algo_entry 12 (codes "sha384") 48
    else if id == 13
    then algo_entry 13 (codes "sha512") 64
    else empty_entry static_table id

-- `__digest_by_tpm_alg`, over the table as a function of the slot.
unfoldable pub digest_by_tpm_alg_in : ℕ → (ℕ → TpmAlgoInfo) → ℕ → Option TpmAlgoInfo
digest_by_tpm_alg_in algo_id algorithms num_algorithms =
    if ltb algo_id num_algorithms
    then (if (algorithms algo_id).digest_size == 0 then none else some (algorithms algo_id))
    else none

unfoldable pub digest_by_tpm_alg : ℕ → Option TpmAlgoInfo
unfolding digest_by_tpm_alg_in tpm_algorithms
digest_by_tpm_alg algo_id = digest_by_tpm_alg_in algo_id tpm_algorithms tpm2_alg_max

abbrev name_matches : Option CString → CString → Bool
name_matches none name = false
name_matches (some n) name = case_eq n name

-- The loop over the table, from slot `i` on, with `n` slots to go.
digest_by_name_from : ℕ → ℕ → CString → Option TpmAlgoInfo
unfolding tpm_algorithms case_eq
digest_by_name_from zero i name = none
digest_by_name_from (suc n) i name =
    let rest = digest_by_name_from n (i + 1) name in
    if name_matches (tpm_algorithms i).openssl_name name then some (tpm_algorithms i) else rest

unfoldable pub digest_by_name : CString → Option TpmAlgoInfo
unfolding digest_by_name_from
digest_by_name name = digest_by_name_from tpm2_alg_max 0 name

-- `octets` are the 64 bytes of `data`, of which the first `size` count.
pub record TpmEvdigest : Type 0 where
  pub algo : Option TpmAlgoInfo
  pub size : ℕ
  pub octets : Octets

-- memset(md, 0, sizeof(*md))
abbrev pub zero_digest : TpmEvdigest
zero_digest = record { algo = none; size = 0; octets = replicate evp_max_md_size 0 }

-- The bytes that count.
abbrev pub value_of : TpmEvdigest → Octets
value_of md = take md.size md.octets

unfoldable pub digest_set : TpmAlgoInfo → Octets → Outcome TpmEvdigest
digest_set algo_info source = do
  fatal_if (ltb evp_max_md_size (length source))
  ok (record {
    algo = some algo_info;
    size = length source;
    octets = source ++ drop (length source) (replicate evp_max_md_size 0);
  })

unfoldable pub digest_equal : TpmEvdigest → TpmEvdigest → Bool
digest_equal a b =
    algo_eq a.algo b.algo
    && (a.size == b.size && octets_eq (take a.size a.octets) (take a.size b.octets))

-- `x |= md->data[i]` over the value, from `x = 0`.
unfoldable pub digest_is_zero : TpmEvdigest → Bool
digest_is_zero md = foldl bit_or 0 (value_of md) == 0

-- `x &= md->data[i]` over the value, from `x = 0xFF`.
unfoldable pub digest_is_invalid : TpmEvdigest → Bool
digest_is_invalid md = foldl bit_and 0xff (value_of md) == 0xff

module _ (evp : Evp) where
  open evp use {Md, Ctx, get_digestbyname, md_size, digest_init, digest_update, digest_final}

  pub record DigestCtx : Type 0 where
    pub mdctx : Option Ctx
    pub md : TpmEvdigest

module _ (evp : Evp) where
  open evp use {Md, Ctx, get_digestbyname, md_size, digest_init, digest_update, digest_final}

  -- The second argument is what EVP_get_digestbyname() found. The size is asserted.
  ctx_for : TpmAlgoInfo → Option Md → Outcome (Option (DigestCtx evp))
  ctx_for algo_info none = ok none
  ctx_for algo_info (some m) =
      if md_size m == algo_info.digest_size
      then ok (
          some (record {
            mdctx = some (digest_init m);
            md = record zero_digest { algo = some algo_info };
          }))
      else fatal

  unfoldable pub digest_ctx_new : TpmAlgoInfo → Outcome (Option (DigestCtx evp))
  unfolding ctx_for
  digest_ctx_new algo_info = ctx_for algo_info (get_digestbyname algo_info.openssl_name)

  unfoldable pub digest_ctx_update : DigestCtx evp → Octets → Outcome (DigestCtx evp)
  digest_ctx_update ctx source = elim ctx.mdctx [
    | none ↦ fatal
    | some c ↦ ok (record ctx { mdctx = some (digest_update c source) })
  ]

  -- EVP_DigestFinal_ex() stores the hash at the start of `md->data` and its length in `md->size`.
  store_hash : TpmEvdigest → Octets → TpmEvdigest
  store_hash md hash = record md {
    size = length hash;
    octets = hash ++ drop (length hash) md.octets;
  }

  -- The context afterwards, and the value: it is stored in `*result` where that is not NULL.
  unfoldable pub digest_ctx_final : DigestCtx evp → DigestCtx evp × TpmEvdigest
  unfolding store_hash
  digest_ctx_final ctx = elim ctx.mdctx [
    | none ↦ (ctx, ctx.md)
    | some c ↦ let md = store_hash ctx.md (digest_final c) in (record { mdctx = none; md = md }, md)
  ]

  -- Allocate, update once, finalize, free. The static `md` is the result.
  unfoldable pub digest_compute : TpmAlgoInfo → Octets → Outcome (Option TpmEvdigest)
  digest_compute algo_info source = do
    found ← digest_ctx_new algo_info
    elim found [
      | none ↦ ok none
      | some ctx ↦ do ctx' ← digest_ctx_update ctx source; ok (some (digest_ctx_final ctx').1)
    ]

  -- The bytes between the read and the write position; a NULL buffer has no digest.
  unfoldable pub digest_buffer : TpmAlgoInfo → Option Buffer → Outcome (Option TpmEvdigest)
  unfolding digest_compute
  digest_buffer algo_info none = ok none
  digest_buffer algo_info (some bp) =
      digest_compute algo_info (take (buffer_available bp) (buffer_read_pointer bp))
