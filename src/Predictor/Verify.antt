-- ===== src/Predictor/Verify.antt =====
-- `pcr_bank_load_initial_values` and `predictor_verify` of src/oracle.c.
pub mod Agreement
use pcr_oracle.Common.{
  ℕ, zero, suc, ◌+◌, Bool, true, false, not, ◌||◌, Option, none, some, if◌then◌else◌,
}
use pcr_oracle.Common.Bytes.{CString, codes, octets_eq}
use pcr_oracle.Common.Outcome.{Outcome, ok, fatal, ◌>>=◌}
use pcr_oracle.Digest.{TpmAlgoInfo, TpmEvdigest, digest_is_zero, digest_equal}
use pcr_oracle.Pcr.{
  TpmPcrBank, pcr_bank_register_max, pcr_bank_initialize, pcr_bank_init_from_zero,
  pcr_bank_get_register, pcr_bank_register_is_valid, get_pcr,
}

-- `init_from_current` reads the TPM, `init_from_snapshot` a file.
unfoldable pub pcr_bank_load_initial_values :
    (init_from_current init_from_snapshot : TpmPcrBank → Outcome TpmPcrBank)
    → ℕ
    → TpmAlgoInfo
    → CString
    → Outcome TpmPcrBank
unfolding octets_eq
pcr_bank_load_initial_values init_from_current init_from_snapshot pcr_mask algo_info source =
    let bank = pcr_bank_initialize pcr_mask algo_info in
    if octets_eq source (codes "zero") || octets_eq source (codes "eventlog")
    then pcr_bank_init_from_zero bank
    else if octets_eq source (codes "current")
    then init_from_current bank
    else if octets_eq source (codes "snapshot")
    then init_from_snapshot bank
    else fatal

-- `md_actual`: the register's number, or `none` for NULL.
unfoldable pub actual_register : TpmPcrBank → ℕ → Outcome (Option ℕ)
actual_register actual pcr_index = do
  valid ← pcr_bank_register_is_valid actual pcr_index
  if not valid then ok none else pcr_bank_get_register actual pcr_index none

-- Whether a predicted value counts as a mismatch.
unfoldable pub is_mismatch : TpmEvdigest → TpmPcrBank → Option ℕ → Bool
is_mismatch md_predicted actual none = not (digest_is_zero md_predicted)
is_mismatch md_predicted actual (some r) = not (digest_equal md_predicted (get_pcr actual r))

-- One round of the loop.
unfoldable pub verify_register : TpmPcrBank → TpmPcrBank → ℕ → Outcome Bool
verify_register prediction actual pcr_index = do
  predicted ← pcr_bank_get_register prediction pcr_index none
  elim predicted [
    | none ↦ ok false
    | some r ↦ do
      found ← actual_register actual pcr_index
      ok (is_mismatch (get_pcr prediction r) actual found)
  ]

-- The loop from register `i` on, with `n` registers to go.
unfoldable pub verify_registers : ℕ → ℕ → TpmPcrBank → TpmPcrBank → ℕ → Outcome ℕ
verify_registers zero i prediction actual num_mismatches = ok num_mismatches
verify_registers (suc n) i prediction actual num_mismatches = do
  bad ← verify_register prediction actual i
  verify_registers n (i + 1) prediction actual (if bad then num_mismatches + 1 else num_mismatches)

-- `predictor_verify` behind the loading of `actual`.
unfoldable pub predictor_verify : TpmPcrBank → TpmPcrBank → Outcome ℕ
predictor_verify prediction actual = verify_registers pcr_bank_register_max 0 prediction actual 0
