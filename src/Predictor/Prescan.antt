-- ===== src/Predictor/Prescan.antt =====
-- `predictor_pre_scan_eventlog` of src/oracle.c: gives each event its strategy, parses the events to
-- re-hash, and finds the stop event.
use pcr_oracle.Common.{
  ℕ, suc, ◌+◌, ◌≡◌, ◌≢◌, refl, ap, Bool, true, false, ◌||◌, Option, none, some, List, [], ◌∷◌, ◌==◌,
  if◌then◌else◌, arith, Bool-cases, ◌⊎◌, inl, inr, All, sym, ◌∙◌, length,
}
use pcr_oracle.Common.Outcome.{Outcome, ok, fatal, ◌>>=◌, >>=-eq-ok}
use pcr_oracle.EventLog.{TpmEvent, Strategy, parse_none, parse_rehash, copy, no_action}
use pcr_oracle.Predictor.Strategy.{predictor_get_event_strategy}
use pcr_oracle.Predictor.StopEvent.{StopEvent, check_stop_event, check_stop_event_cases}

-- The values of PCR 1 and PCR 3 are calculated from the event data only.
abbrev pub adjusted : ℕ → Strategy → Strategy
adjusted pcr_index parse_rehash = if pcr_index == 1 || pcr_index == 3 then copy else parse_rehash
adjusted pcr_index copy = copy
adjusted pcr_index no_action = no_action
adjusted pcr_index parse_none = parse_none

abbrev pub is_rehash : Strategy → Bool
is_rehash parse_rehash = true
is_rehash copy = false
is_rehash no_action = false
is_rehash parse_none = false

abbrev pub is_parsed : {Other : Type 0} → TpmEvent Other → Bool
is_parsed ev = elim ev.parsed [ none ↦ false | some p ↦ true ]

abbrev with_strategy : {Other : Type 0} → TpmEvent Other → TpmEvent Other
with_strategy ev = record ev {
  rehash_strategy = adjusted ev.pcr_index (predictor_get_event_strategy ev.event_type);
}

abbrev put_before :
    {Other : Type 0}
    → TpmEvent Other
    → List (TpmEvent Other) × Option ℕ
    → Outcome (List (TpmEvent Other) × Option ℕ)
put_before ev (evs, position) = ok (ev ∷ evs, position)

module _ {Other ScanCtx : Type 0}
    (tpm_event_parse : TpmEvent Other → ScanCtx → Outcome (TpmEvent Other × ScanCtx))
    (stop : StopEvent) where
  -- `if (!ev->__parsed) fatal(...)` behind the parse.
  parsed_or_fatal : TpmEvent Other × ScanCtx → Outcome (TpmEvent Other × ScanCtx)
  parsed_or_fatal (ev, ctx) = if is_parsed ev then ok (ev, ctx) else fatal

  -- The event to re-hash is parsed, and the process ends if it cannot be.
  parse_if_rehash : TpmEvent Other → ScanCtx → Outcome (TpmEvent Other × ScanCtx)
  unfolding parsed_or_fatal
  parse_if_rehash ev ctx =
      if is_rehash ev.rehash_strategy
      then tpm_event_parse ev ctx >>= parsed_or_fatal
      else ok (ev, ctx)

  -- One round of the loop: whether this is the stop event, and the event and the context afterwards.
  unfoldable pub scan_event : TpmEvent Other → ScanCtx → Outcome (Bool × TpmEvent Other × ScanCtx)
  unfolding parse_if_rehash
  scan_event ev ctx = do
    (ev', ctx') ← parse_if_rehash (with_strategy ev) ctx
    check_stop_event tpm_event_parse stop ev' ctx'

  -- The loop from position `i` on: the events, and the position of the stop event.
  unfoldable pub pre_scan_events :
      List (TpmEvent Other) → ℕ → ScanCtx → Outcome (List (TpmEvent Other) × Option ℕ)
  pre_scan_events [] i ctx = ok ([], none)
  pre_scan_events (ev ∷ rest) i ctx = do
    (found, ev', ctx') ← scan_event ev ctx
    (if found
        then ok (ev' ∷ rest, some i)
        else pre_scan_events rest (i + 1) ctx' >>= put_before ev')

module _ {Other ScanCtx : Type 0}
    (tpm_event_parse : TpmEvent Other → ScanCtx → Outcome (TpmEvent Other × ScanCtx)) where
  -- What the scan relies on of `tpm_event_parse`: it keeps the register and a parsed form, and changes
  -- the strategy to `copy` at most.
  pub record KeepsEvents : Type 0 where
    pub same_index :
        (ev : TpmEvent Other) (ctx : ScanCtx) {ev' : TpmEvent Other} {ctx' : ScanCtx}
        → tpm_event_parse ev ctx ≡ ok (ev', ctx')
        → ev'.pcr_index ≡ ev.pcr_index
    pub same_strategy :
        (ev : TpmEvent Other) (ctx : ScanCtx) {ev' : TpmEvent Other} {ctx' : ScanCtx}
        → tpm_event_parse ev ctx ≡ ok (ev', ctx')
        → (ev'.rehash_strategy ≡ ev.rehash_strategy) ⊎ (ev'.rehash_strategy ≡ copy)
    pub keeps_parsed :
        (ev : TpmEvent Other) (ctx : ScanCtx) {ev' : TpmEvent Other} {ctx' : ScanCtx}
        → tpm_event_parse ev ctx ≡ ok (ev', ctx')
        → is_parsed ev ≡ true
        → is_parsed ev' ≡ true

-- An event that is to be re-hashed is parsed, and stands in neither PCR 1 nor PCR 3.
pub record IsScanned {Other : Type 0} (ev : TpmEvent Other) : Type 0 where
  pub parsed : is_rehash ev.rehash_strategy ≡ true → is_parsed ev ≡ true
  pub no_config : is_rehash ev.rehash_strategy ≡ true → (ev.pcr_index ≢ 1) × (ev.pcr_index ≢ 3)

not_rehashed :
    {Other : Type 0} (ev : TpmEvent Other) → is_rehash ev.rehash_strategy ≡ false → IsScanned ev
not_rehashed ev h = record { parsed = λ e. cc; no_config = λ e. (cc, cc) }

All-map :
    {Other : Type 0} {P Q : TpmEvent Other → Type 0}
    → ((ev : TpmEvent Other) → P ev → Q ev)
    → (evs : List (TpmEvent Other)) → All P evs
    → All Q evs
All-map f [] h = tt
All-map f (ev ∷ evs) (h, hs) = (f ev h, All-map f evs hs)

adjusted_lem : (i : ℕ) (s : Strategy) → is_rehash (adjusted i s) ≡ true → (i ≢ 1) × (i ≢ 3)
adjusted_lem i parse_rehash h = ground arith
adjusted_lem i copy h = (cc, cc)
adjusted_lem i no_action h = (cc, cc)
adjusted_lem i parse_none h = (cc, cc)

module _ {Other ScanCtx : Type 0}
    (tpm_event_parse : TpmEvent Other → ScanCtx → Outcome (TpmEvent Other × ScanCtx))
    (stop : StopEvent) (keeps : KeepsEvents tpm_event_parse) where
  -- Another parse keeps a scanned event scanned.
  parse-IsScanned :
      (ev : TpmEvent Other) (ctx : ScanCtx) (ev' : TpmEvent Other) (ctx' : ScanCtx)
      → tpm_event_parse ev ctx ≡ ok (ev', ctx')
      → (is_rehash ev.rehash_strategy ≡ true → (ev.pcr_index ≢ 1) × (ev.pcr_index ≢ 3))
      → (is_rehash ev'.rehash_strategy ≡ true → is_parsed ev' ≡ true)
      → IsScanned ev'
  parse-IsScanned ev ctx ev' ctx' h config p = record {
    parsed = p;
    no_config = λ e. elim (keeps.same_strategy ev ctx h) [
      | inl same ↦ rw (keeps.same_index ev ctx h) (config (ap is_rehash (sym same) ∙ e))
      | inr copied ↦ cc
    ];
  }

  parsed_or_fatal-ok :
      (r : TpmEvent Other × ScanCtx) (ev' : TpmEvent Other) (ctx' : ScanCtx)
      → parsed_or_fatal tpm_event_parse stop r ≡ ok (ev', ctx')
      → (r ≡ (ev', ctx')) × (is_parsed ev' ≡ true)
  unfolding parsed_or_fatal
  parsed_or_fatal-ok (ev, ctx) ev' ctx' h = elim (Bool-cases (is_parsed ev)) [
    | inl e ↦
        let same : ◌≡◌ {A = Outcome (TpmEvent Other × ScanCtx)} (ok (ev, ctx)) (ok (ev', ctx')) =
          ground (arith, e, h) in
        let kept : ev ≡ ev' = cc in (cc, ap is_parsed (sym kept) ∙ e)
    | inr e ↦ ground (arith, e, h)
  ]

  parse_if_rehash-IsScanned :
      (ev : TpmEvent Other) (ctx : ScanCtx) (ev' : TpmEvent Other) (ctx' : ScanCtx)
      → parse_if_rehash tpm_event_parse stop (with_strategy ev) ctx ≡ ok (ev', ctx')
      → IsScanned ev'
  unfolding parse_if_rehash
  parse_if_rehash-IsScanned ev ctx ev' ctx' h =
      let ev0 = with_strategy ev in
      elim (Bool-cases (is_rehash ev0.rehash_strategy)) [
        | inl e ↦
            let (r, parses, then_ok) =
              >>=-eq-ok (tpm_event_parse ev0 ctx) (parsed_or_fatal tpm_event_parse stop)
                {b = (ev', ctx')} (ground (arith, e, h)) in
            let (same, p) = parsed_or_fatal-ok r ev' ctx' then_ok in
            parse-IsScanned ev0 ctx ev' ctx' (parses ∙ ap ok same)
              (adjusted_lem ev.pcr_index (predictor_get_event_strategy ev.event_type)) (λ q. p)
        | inr e ↦
            let same : ◌≡◌ {A = Outcome (TpmEvent Other × ScanCtx)} (ok (ev0, ctx))
                (ok (ev', ctx')) =
              ground (arith, e, h) in
            let kept : ev0 ≡ ev' = cc in rw (← kept) (not_rehashed ev0 e)
      ]

  check_stop_event-IsScanned :
      (ev : TpmEvent Other) (ctx : ScanCtx) (found : Bool) (ev' : TpmEvent Other) (ctx' : ScanCtx)
      → IsScanned ev
      → check_stop_event tpm_event_parse stop ev ctx ≡ ok (found, ev', ctx')
      → IsScanned ev'
  check_stop_event-IsScanned ev ctx found ev' ctx' v h =
      elim (check_stop_event_cases tpm_event_parse stop ev ctx found ev' ctx' h) [
        | inl same ↦ rw same v
        | inr parses ↦ parse-IsScanned ev ctx ev' ctx' parses v.no_config (λ e.
            elim (keeps.same_strategy ev ctx parses) [
              | inl same ↦ keeps.keeps_parsed ev ctx parses (v.parsed (ap is_rehash (sym same) ∙ e))
              | inr copied ↦ cc
            ])
      ]

  scan_event-IsScanned :
      (ev : TpmEvent Other) (ctx : ScanCtx) (found : Bool) (ev' : TpmEvent Other) (ctx' : ScanCtx)
      → scan_event tpm_event_parse stop ev ctx ≡ ok (found, ev', ctx')
      → IsScanned ev'
  unfolding scan_event
  scan_event-IsScanned ev ctx found ev' ctx' h =
      let ((ev1, ctx1), first, then_check) =
        >>=-eq-ok (parse_if_rehash tpm_event_parse stop (with_strategy ev) ctx) _ h in
      check_stop_event-IsScanned ev1 ctx1 found ev' ctx'
        (parse_if_rehash-IsScanned ev ctx ev1 ctx1 first) then_check

  -- With a parser that keeps the register and a parsed form and changes the strategy to `copy` at most,
  -- on a log in which no event is to be re-hashed yet, a pre-scan that returns leaves every event that
  -- is to be re-hashed parsed and in neither PCR 1 nor PCR 3, and the log as many events as before.
  pub pre_scan_events-IsScanned :
      (evs : List (TpmEvent Other)) (i : ℕ) (ctx : ScanCtx) (evs' : List (TpmEvent Other))
      (position : Option ℕ)
      → All (λ ev. is_rehash ev.rehash_strategy ≡ false) evs
      → pre_scan_events tpm_event_parse stop evs i ctx ≡ ok (evs', position)
      → All IsScanned evs' × (length evs' ≡ length evs)
  unfolding pre_scan_events
  pre_scan_events-IsScanned [] i ctx evs' position none_yet h =
      let e : [] ≡ evs' = cc in rw (← e) (tt, refl)
  pre_scan_events-IsScanned (ev ∷ rest) i ctx evs' position (n, ns) h =
      let ((found, ev1, ctx1), scans, then_on) =
        >>=-eq-ok (scan_event tpm_event_parse stop ev ctx) _ h in
      let v = scan_event-IsScanned ev ctx found ev1 ctx1 scans in
      elim (Bool-cases found) [
        | inl e ↦
            let all : ◌≡◌ {A = Outcome (List (TpmEvent Other) × Option ℕ)} (ok (ev1 ∷ rest, some i))
                (ok (evs', position)) =
              ground (arith, e, then_on) in
            let whole : ev1 ∷ rest ≡ evs' = cc in
            rw (← whole) ((v, All-map not_rehashed rest ns), refl)
        | inr e ↦
            let on : (pre_scan_events tpm_event_parse stop rest (i + 1) ctx1 >>= put_before ev1)
                ≡ ok (evs', position) =
              ground (arith, e, then_on) in
            let ((rest', position'), scans', then_done) =
              >>=-eq-ok (pre_scan_events tpm_event_parse stop rest (i + 1) ctx1) (put_before ev1)
                on in
            let (vs, same_length) =
              pre_scan_events-IsScanned rest (i + 1) ctx1 rest' position' ns scans' in
            let whole : ev1 ∷ rest' ≡ evs' = cc in rw (← whole) ((v, vs), ap suc same_length)
      ]
