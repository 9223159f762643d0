-- ===== src/Predictor/Compare.antt =====
-- `compare_events` and `predictor_compare` of src/oracle.c: the predicted digests against a second log.
pub mod Matches
pub mod Agreement
mod Tests
use pcr_oracle.Common.{
  ℕ, zero, suc, ◌+◌, Bool, true, false, not, ◌&&◌, Option, none, some, List, [], ◌∷◌, ◌==◌,
  if◌then◌else◌, take,
}
use pcr_oracle.Common.Bytes.{octets_eq}
use pcr_oracle.Common.Outcome.{Outcome, ok, undefined, ◌>>=◌}
use pcr_oracle.Digest.{TpmAlgoInfo, TpmEvdigest}
use pcr_oracle.Pcr.{TpmPcrBank, pcr_bank_register_max, pcr_bank_register_is_valid}
use pcr_oracle.EventLog.{TpmEvent, tpm_event_get_digest}
use pcr_oracle.Predictor.StopEvent.{StopEvent}
use pcr_oracle.Predictor.Prescan.{pre_scan_events}
use pcr_oracle.Predictor.Update.{StopAt, stops_at, required}

-- The test on an event that has a prediction: the sizes are the same and the bytes are not.
unfoldable pub are_different : TpmEvdigest → TpmEvdigest → Bool
are_different predicted actual = elim predicted.algo [
  | none ↦ false
  | some algo_info ↦
      predicted.size == actual.size
      && not (octets_eq (take actual.size predicted.octets) (take actual.size actual.octets))
]

module _ {Other : Type 0} where
  -- `while (ev_cmp)`: the list from the next event of the register on; `[]` is NULL.
  unfoldable pub from_register : ℕ → List (TpmEvent Other) → List (TpmEvent Other)
  from_register pcr_index [] = []
  from_register pcr_index (c ∷ cmp) =
      let rest = from_register pcr_index cmp in if c.pcr_index == pcr_index then c ∷ cmp else rest

  -- What is left of the second log, or `none` for the result `false`.
  unfoldable pub compare_with :
      TpmAlgoInfo
      → TpmEvent Other
      → List (TpmEvent Other)
      → Outcome (Option (List (TpmEvent Other)))
  compare_with algo_info ev [] = ok none
  compare_with algo_info ev (c ∷ cmp) = do
    cmp_digest ← required (tpm_event_get_digest c algo_info)
    ok (if are_different ev.predicted_digest cmp_digest then none else some (c ∷ cmp))

  unfoldable pub compare_event :
      TpmAlgoInfo
      → ℕ
      → TpmEvent Other
      → List (TpmEvent Other)
      → Outcome (Option (List (TpmEvent Other)))
  compare_event algo_info pcr_index ev cmp =
      if ev.pcr_index == pcr_index
      then compare_with algo_info ev (from_register pcr_index cmp)
      else ok (some cmp)

  -- The end of a round: the result, or `ev_cmp->next` and the next round.
  unfoldable pub end_round :
      Bool → (List (TpmEvent Other) → Outcome Bool) → Option (List (TpmEvent Other)) → Outcome Bool
  end_round stop next none = ok false
  end_round true next (some cmp) = ok true
  end_round false next (some []) = undefined
  end_round false next (some (c ∷ cmp)) = next cmp

  -- The loop from position `i` of the first log on.
  unfoldable pub compare_events :
      TpmAlgoInfo → StopAt → ℕ → List (TpmEvent Other) → ℕ → List (TpmEvent Other) → Outcome Bool
  compare_events algo_info stop pcr_index [] i cmp = ok true
  compare_events algo_info stop pcr_index (ev ∷ rest) i cmp =
      if stops_at stop i && not stop.after
      then ok true
      else compare_event algo_info pcr_index ev cmp
        >>= end_round (stops_at stop i)
            (λ cmp'. compare_events algo_info stop pcr_index rest (i + 1) cmp')

  -- One round of the loop over the registers: whether the register counts as a difference.
  unfoldable pub compare_register :
      TpmAlgoInfo
      → TpmPcrBank
      → StopAt
      → List (TpmEvent Other)
      → List (TpmEvent Other)
      → ℕ
      → Outcome Bool
  compare_register algo_info bank stop evs cmps pcr_index = do
    valid ← pcr_bank_register_is_valid bank pcr_index
    if not valid
        then ok false
        else do same ← compare_events algo_info stop pcr_index evs 0 cmps; ok (not same)

  -- The loop from register `i` on, with `n` registers to go.
  unfoldable pub compare_registers :
      TpmAlgoInfo
      → TpmPcrBank
      → StopAt
      → List (TpmEvent Other)
      → List (TpmEvent Other)
      → ℕ
      → ℕ
      → ℕ
      → Outcome ℕ
  compare_registers algo_info bank stop evs cmps zero i num_diff = ok num_diff
  compare_registers algo_info bank stop evs cmps (suc n) i num_diff = do
    bad ← compare_register algo_info bank stop evs cmps i
    compare_registers algo_info bank stop evs cmps n (i + 1)
        (if bad then num_diff + 1 else num_diff)

  -- Whether "Predicted event log matches." is printed, and the result.
  unfoldable pub predictor_compare :
      {ScanCtx : Type 0}
      → (TpmEvent Other → ScanCtx → Outcome (TpmEvent Other × ScanCtx))
      → StopEvent
      → TpmAlgoInfo
      → TpmPcrBank
      → List (TpmEvent Other)
      → List (TpmEvent Other)
      → ScanCtx
      → Outcome (Bool × ℕ)
  predictor_compare tpm_event_parse stop algo_info bank evs cmps ctx = do
    (scanned, position) ← pre_scan_events tpm_event_parse stop evs 0 ctx
    num_diff ←
        compare_registers algo_info bank (record { position = position; after = stop.after })
          scanned cmps pcr_bank_register_max 0 0
    ok (num_diff == 0, 0)
