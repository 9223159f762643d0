-- ===== src/Predictor/Extend.antt =====
-- `pcr_bank_extend_register` of src/oracle.c: the TPM's extend operation on a predicted register.
use pcr_oracle.Common.{
  ℕ, ◌<◌, ◌≡◌, refl, ◌∙◌, true, not, Option, none, some, ◌++◌, ltb, ◌==◌, if◌then◌else◌, arith,
  get_or-set,
}
use pcr_oracle.Common.Bytes.{Octets}
use pcr_oracle.Common.Outcome.{Outcome, ok, undefined, ◌>>=◌, ◌>>◌, defined_if, fatal_if}
use pcr_oracle.Digest.{
  TpmAlgoInfo, TpmEvdigest, DigestCtx, digest_ctx_new, digest_ctx_update, digest_ctx_final, algo_eq,
  value_of, zero_digest,
}
use pcr_oracle.Digest.Openssl.{Evp, IsStreaming}
use pcr_oracle.Digest.Compute.{
  IsSupported, digest_of, digest_ctx_new_lem, digest_ctx_two, value_of-digest_of,
  length-octets-digest_of,
}
use pcr_oracle.Pcr.{TpmPcrBank, pcr_bank_register_is_valid, pcr_bank_register_max, get_pcr, set_pcr}
use pcr_oracle.Pcr.Masks.{is_valid, pcr_bank_register_is_valid_lem}
use pcr_oracle.Pcr.Bank.{IsBank, set_pcr-IsBank}

module _ (evp : Evp) where
  -- `digest_ctx_new(pcr->algo)` where the result is used at once: a NULL pointer is undefined.
  usable : Option (DigestCtx evp) → Outcome (DigestCtx evp)
  usable none = undefined
  usable (some ctx) = ok ctx

  new_ctx : Option TpmAlgoInfo → Outcome (DigestCtx evp)
  unfolding usable
  new_ctx none = undefined
  new_ctx (some algo) = do found ← digest_ctx_new evp algo; usable found

  -- The hash of two ranges in one context.
  hash_two : Option TpmAlgoInfo → Octets → Octets → Outcome TpmEvdigest
  unfolding new_ctx
  hash_two algo first second = do
    dctx ← new_ctx algo
    dctx' ← digest_ctx_update evp dctx first
    dctx'' ← digest_ctx_update evp dctx' second
    ok (digest_ctx_final evp dctx'').1

  -- A register that is not valid gets an error message and stays as it is.
  unfoldable pub pcr_bank_extend_register : TpmPcrBank → ℕ → TpmEvdigest → Outcome TpmPcrBank
  unfolding hash_two
  pcr_bank_extend_register bank pcr_index d = do
    valid ← pcr_bank_register_is_valid bank pcr_index
    if not valid then ok bank else do
      defined_if (ltb pcr_index pcr_bank_register_max)
      fatal_if (not (algo_eq (get_pcr bank pcr_index).algo d.algo))
      pcr ← hash_two (get_pcr bank pcr_index).algo (value_of (get_pcr bank pcr_index)) (value_of d)
      ok (set_pcr bank pcr_index pcr)

module _ (evp : Evp) (laws : IsStreaming evp) where
  hash_two_lem :
      (a : TpmAlgoInfo) (m : evp.Md) (first second : Octets)
      → IsSupported evp a m
      → hash_two evp (some a) first second ≡ ok (digest_of evp a m (first ++ second))
  unfolding hash_two
  hash_two_lem a m first second s =
      rw (digest_ctx_new_lem evp a m s) (digest_ctx_two evp laws a m first second)

  -- The bank after an extend of register `i` by `d`.
  abbrev pub extended : (m : evp.Md) → TpmPcrBank → ℕ → TpmEvdigest → TpmPcrBank
  extended m bank i d =
      set_pcr bank i (digest_of evp bank.algo_info m (value_of (get_pcr bank i) ++ value_of d))

  -- Over OpenSSL's documented laws, on a valid register below 24 of a well-formed bank, whose algorithm
  -- OpenSSL supports, and with a digest of the same algorithm, the extend returns, and the register is replaced by the digest of the old value followed
  -- by the new digest.
  pub pcr_bank_extend_register_lem :
      (m : evp.Md) {bank : TpmPcrBank} (i : ℕ) (d : TpmEvdigest)
      → IsBank bank
      → IsSupported evp bank.algo_info m
      → i < pcr_bank_register_max
      → is_valid bank i ≡ true
      → algo_eq (some bank.algo_info) d.algo ≡ true
      → pcr_bank_extend_register evp bank i d ≡ ok (extended m bank i d)
  unfolding pcr_bank_extend_register
  pcr_bank_extend_register_lem m {bank} i d w s h v same =
      let small : ltb i 24 ≡ true = ground arith in
      rw (pcr_bank_register_is_valid_lem bank i (omega arith), v, small, w.algo i h, same)
        (rw (hash_two_lem bank.algo_info m (value_of (get_pcr bank i)) (value_of d) s))

  pub extended-IsBank :
      (m : evp.Md) {bank : TpmPcrBank} (i : ℕ) (d : TpmEvdigest)
      → IsBank bank
      → IsSupported evp bank.algo_info m
      → IsBank (extended m bank i d)
  extended-IsBank m {bank} i d w s =
      set_pcr-IsBank i _ w refl (laws.final_size m _ ∙ s.sized)
        (length-octets-digest_of evp laws bank.algo_info m _)

  -- The value of a register after an extend of register `i`.
  pub value-extended :
      (m : evp.Md) {bank : TpmPcrBank} (i j : ℕ) (d : TpmEvdigest)
      → IsBank bank
      → j < pcr_bank_register_max
      → value_of (get_pcr (extended m bank i d) j) ≡ (
          if i == j
          then evp.digest m (value_of (get_pcr bank i) ++ value_of d)
          else value_of (get_pcr bank j))
  value-extended m {bank} i j d w h =
      let v = digest_of evp bank.algo_info m (value_of (get_pcr bank i) ++ value_of d) in
      ground (
        arith,
        get_or-set bank.pcr i j v zero_digest (omega (arith, w.count)),
        value_of-digest_of evp laws bank.algo_info m (value_of (get_pcr bank i) ++ value_of d),
      )
