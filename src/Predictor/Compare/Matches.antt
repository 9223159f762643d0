-- ===== src/Predictor/Compare/Matches.antt =====
-- What `compare_events` of src/oracle.c answers on two logs with the same registers in the same order.
use pcr_oracle.Common.{
  ℕ, ◌+◌, ◌≡◌, ◌∙◌, refl, ap, Bool, true, false, not, ◌&&◌, ◌||◌, Option, none, some, List, [], ◌∷◌,
  ◌==◌, if◌then◌else◌, arith, length, take, take_all, Bool-cases, inl, inr,
}
use pcr_oracle.Common.Outcome.{Outcome, ok}
use pcr_oracle.Digest.{TpmAlgoInfo, TpmEvdigest}
use pcr_oracle.EventLog.{TpmEvent, tpm_event_get_digest}
use pcr_oracle.Predictor.Update.{StopAt, stops_at}
use pcr_oracle.Predictor.Stopping.{before_stop, before_stop_here, before_stop_later}
use pcr_oracle.Predictor.Compare.{
  are_different, from_register, compare_with, compare_event, end_round, compare_events,
}

module _ {Other : Type 0} (algo_info : TpmAlgoInfo) where
  -- The second log has as many events at least, event by event of the same register, each with a digest.
  abbrev pub IsAligned : List (TpmEvent Other) → List (TpmEvent Other) → Type 0
  IsAligned [] cmps = Unit
  IsAligned (ev ∷ evs) [] = ⊥
  IsAligned (ev ∷ evs) (c ∷ cmps) =
      (c.pcr_index ≡ ev.pcr_index)
      × ((md : TpmEvdigest) × (tpm_event_get_digest c algo_info ≡ some md))
      × IsAligned evs cmps

  -- An event of another register, or a prediction that does not differ from the digest.
  abbrev pub is_match : ℕ → TpmEvent Other → TpmEvent Other → Bool
  is_match pcr_index ev c =
      not (ev.pcr_index == pcr_index) || (elim (tpm_event_get_digest c algo_info) [
        | none ↦ false
        | some md ↦ not (are_different ev.predicted_digest md)
      ])

  -- Every event matches the one at its position.
  abbrev pub all_match : ℕ → List (TpmEvent Other) → List (TpmEvent Other) → Bool
  all_match pcr_index [] cmps = true
  all_match pcr_index (ev ∷ evs) [] = true
  all_match pcr_index (ev ∷ evs) (c ∷ cmps) =
      is_match pcr_index ev c && all_match pcr_index evs cmps

  compare_event_lem :
      (pcr_index : ℕ) (ev c : TpmEvent Other) (cmps : List (TpmEvent Other)) (md : TpmEvdigest)
      → c.pcr_index ≡ ev.pcr_index
      → tpm_event_get_digest c algo_info ≡ some md
      → compare_event algo_info pcr_index ev (c ∷ cmps)
        ≡ ok (if is_match pcr_index ev c then some (c ∷ cmps) else none)
  unfolding compare_event compare_with from_register
  compare_event_lem pcr_index ev c cmps md same has =
      elim (Bool-cases (ev.pcr_index == pcr_index)) [
        | inl e ↦
            let here : (c.pcr_index == pcr_index) ≡ true = ap (λ n. n == pcr_index) same ∙ e in
            rw (e, here, has)
              (elim (Bool-cases (are_different ev.predicted_digest md)) [
                | inl d ↦ rw d refl
                | inr d ↦ rw d refl
              ])
        | inr e ↦ rw e refl
      ]

  -- The end of a round, by whether the pair matched.
  end_round_lem :
      (stop matched : Bool) (next : List (TpmEvent Other) → Outcome Bool) (c : TpmEvent Other)
      (cmps : List (TpmEvent Other)) (rest : Bool)
      → next cmps ≡ ok rest
      → end_round stop next (if matched then some (c ∷ cmps) else none)
        ≡ ok (matched && (stop || rest))
  unfolding end_round
  end_round_lem true true next c cmps rest h = refl
  end_round_lem false true next c cmps rest h = h
  end_round_lem true false next c cmps rest h = refl
  end_round_lem false false next c cmps rest h = refl

  pub compare_events_from :
      (position : Option ℕ) (after : Bool) (pcr_index : ℕ) (evs : List (TpmEvent Other)) (i : ℕ)
      (cmps : List (TpmEvent Other))
      → IsAligned evs cmps
      → compare_events algo_info
          (record { position = position; after = after })
          pcr_index
          evs
          i
          cmps
        ≡ ok (all_match pcr_index (take (before_stop position after i (length evs)) evs) cmps)
  unfolding compare_events
  compare_events_from position after pcr_index [] i cmps h =
      rw (take_all {A = TpmEvent Other} [] (before_stop position after i 0) (omega arith)) refl
  compare_events_from position after pcr_index (ev ∷ evs) i [] h = elim h [ ]
  compare_events_from position after pcr_index (ev ∷ evs) i (c ∷ cmps) (same, (md, has), hs) =
      let stop : StopAt = record { position = position; after = after } in
      let ih = compare_events_from position after pcr_index evs (i + 1) cmps hs in
      elim (Bool-cases (stops_at stop i)) [
        | inl e ↦
            rw (e, before_stop_here position after i (length evs) e)
              (elim (Bool-cases after) [
                | inr a ↦ rw a refl
                | inl a ↦
                    rw (a, compare_event_lem pcr_index ev c cmps md same has)
                      (end_round_lem true (is_match pcr_index ev c) _ c cmps _ ih)
              ])
        | inr e ↦
            rw
              (
                e,
                before_stop_later position after i (length evs) e,
                compare_event_lem pcr_index ev c cmps md same has,
              )
              (end_round_lem false (is_match pcr_index ev c) _ c cmps _ ih)
      ]
