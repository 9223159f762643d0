-- ===== src/Predictor/Compare/Agreement.antt =====
-- When `compare_events` of src/oracle.c finds two logs in agreement.
use pcr_oracle.Common.{
  ℕ, zero, suc, ◌≡◌, ◌≢◌, ◌↔◌, ◌⊎◌, refl, Bool, true, not, Option, none, some, List, [], ◌∷◌, ◌==◌,
  arith, length, take, Bool-cases, inl, inr, Option-cases,
}
use pcr_oracle.Common.Bytes.{octets_eq, octets_eq→eq, octets_eq_refl}
use pcr_oracle.Common.Outcome.{ok}
use pcr_oracle.Digest.{TpmAlgoInfo, TpmEvdigest}
use pcr_oracle.EventLog.{TpmEvent, tpm_event_get_digest}
use pcr_oracle.Predictor.Stopping.{before_stop}
use pcr_oracle.Predictor.Compare.{are_different, compare_events}
use pcr_oracle.Predictor.Compare.Matches.{IsAligned, is_match, all_match, compare_events_from}

-- There is no prediction, or it is of another size than the digest, or has the same bytes.
abbrev pub Agrees : TpmEvdigest → TpmEvdigest → Type 0
Agrees predicted actual =
    (predicted.algo ≡ none)
    ⊎ ((predicted.size ≢ actual.size)
        ⊎ (take actual.size predicted.octets ≡ take actual.size actual.octets))

are_different_lem :
    (predicted actual : TpmEvdigest)
    → (not (are_different predicted actual) ≡ true) ↔ Agrees predicted actual
unfolding are_different
are_different_lem predicted actual = elim (Option-cases predicted.algo) [
  | inl n ↦ (λ h. inl n, λ h. ground (arith, n))
  | inr (a, e) ↦
      let ps = take actual.size predicted.octets in
      let as' = take actual.size actual.octets in
      (
        λ h. elim (Bool-cases (octets_eq ps as')) [
          | inl same ↦ inr (inr (octets_eq→eq ps as' same))
          | inr other ↦ inr (inl (ground (arith, e, h, other)))
        ],
        λ h. elim h [
          | inl n ↦ ground (arith, n)
          | inr (inl other) ↦ ground (arith, e, other)
          | inr (inr same) ↦
              let equal : octets_eq ps as' ≡ true = rw (← same) (octets_eq_refl ps) in
              ground (arith, e, equal)
        ],
      )
]

module _ {Other : Type 0} (algo_info : TpmAlgoInfo) where
  -- An event of the register agrees with the digest that the other log has for it.
  abbrev pub EventAgrees : ℕ → TpmEvent Other → TpmEvent Other → Type 0
  EventAgrees pcr_index ev c =
      ev.pcr_index ≡ pcr_index
      → (md : TpmEvdigest) → tpm_event_get_digest c algo_info ≡ some md
      → Agrees ev.predicted_digest md

  -- Position by position.
  abbrev pub AllAgree : ℕ → List (TpmEvent Other) → List (TpmEvent Other) → Type 0
  AllAgree pcr_index [] cmps = Unit
  AllAgree pcr_index (ev ∷ evs) [] = Unit
  AllAgree pcr_index (ev ∷ evs) (c ∷ cmps) =
      EventAgrees pcr_index ev c × AllAgree pcr_index evs cmps

  is_match_lem :
      (pcr_index : ℕ) (ev c : TpmEvent Other) (md : TpmEvdigest)
      → tpm_event_get_digest c algo_info ≡ some md
      → (is_match algo_info pcr_index ev c ≡ true) ↔ EventAgrees pcr_index ev c
  is_match_lem pcr_index ev c md has =
      let (to, from) = are_different_lem ev.predicted_digest md in
      (
        λ h e md' has'.
            let same : md ≡ md' = cc in
            let match : not (are_different ev.predicted_digest md) ≡ true =
              ground (arith, has, h, e) in
            rw (← same) (to match),
        λ h. elim (Bool-cases (ev.pcr_index == pcr_index)) [
          | inl e ↦ let match = from (h (ground (arith, e)) md has) in ground (arith, has, match)
          | inr e ↦ ground (arith, e)
        ],
      )

  all_match_lem :
      (pcr_index n : ℕ) (evs cmps : List (TpmEvent Other))
      → IsAligned algo_info evs cmps
      → (all_match algo_info pcr_index (take n evs) cmps ≡ true)
        ↔ AllAgree pcr_index (take n evs) cmps
  all_match_lem pcr_index zero evs cmps h = (λ e. tt, λ e. refl)
  all_match_lem pcr_index (suc n) [] cmps h = (λ e. tt, λ e. refl)
  all_match_lem pcr_index (suc n) (ev ∷ evs) [] h = elim h [ ]
  all_match_lem pcr_index (suc n) (ev ∷ evs) (c ∷ cmps) (same, (md, has), hs) =
      let (to, from) = is_match_lem pcr_index ev c md has in
      let (all_to, all_from) = all_match_lem pcr_index n evs cmps hs in
      (
        λ e. (to (ground (arith, e)), all_to (ground (arith, e))),
        λ (a, as'). let head = from a in let tail = all_from as' in ground (arith, head, tail),
      )

  -- Where the second log has an event of the same register at each position of the first, with a digest
  -- for the algorithm, comparing returns, and answers true exactly if at each position up to the stop
  -- event, of which `after` says whether it counts, an event of the register has no prediction, or one
  -- of another size than the digest in the second log, or one with the same bytes.
  pub compare_events_lem :
      (position : Option ℕ) (after : Bool) (pcr_index : ℕ) (evs cmps : List (TpmEvent Other))
      → IsAligned algo_info evs cmps
      → (answer : Bool) × (compare_events algo_info
            (record { position = position; after = after })
            pcr_index
            evs
            0
            cmps
          ≡ ok answer)
        × ((answer ≡ true)
            ↔ AllAgree pcr_index (take (before_stop position after 0 (length evs)) evs) cmps)
  compare_events_lem position after pcr_index evs cmps h = (
    _,
    compare_events_from algo_info position after pcr_index evs 0 cmps h,
    all_match_lem pcr_index (before_stop position after 0 (length evs)) evs cmps h,
  )
