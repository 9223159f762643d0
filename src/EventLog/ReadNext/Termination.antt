-- ===== src/EventLog/ReadNext/Termination.antt =====
-- How much of the log each round of the reader leaves.
use pcr_oracle.Common.{
  ℕ, zero, suc, ◌<◌, ◌≡◌, refl, ap, Option, none, some, [], ◌∷◌, ltb, arith, length, take, drop,
  length-drop, Bool-cases, inl, inr,
}
use pcr_oracle.Common.Bytes.{Octets}
use pcr_oracle.Common.Outcome.{
  Outcome, ok, fatal, undefined, ◌>>=◌, Holds, Holds->>=, Holds-fatal_if, Holds-any,
}
use pcr_oracle.EventLog.{TpmEvent}
use pcr_oracle.EventLog.Reader.{
  Tcg2Info, TpmEventLogReader, read_exactly, read_u32le, read_u32le_or_eof, read_body,
}
use pcr_oracle.EventLog.Reader.Consumption.{Left, read_body-Within}
use pcr_oracle.EventLog.ReadNext.{
  Pass, event, end_of_log, again, is_magic, is_spec_id, is_startup_locality, with_info,
  finish_record, read_record, after_record, prepend, load_events, Loaded, tpm_event_parse_tcg2_info,
}

-- Fewer than `n` bytes are left behind the round, and none at the end of the log.
no_bytes : (bs : Octets) → length bs ≡ 0 → bs ≡ []
no_bytes [] h = refl
no_bytes (b ∷ bs) h = absurd (omega (arith, h))

-- Events that are returned are those of the whole file.
abbrev pub AtEnd : {Other : Type 0} → Loaded Other → Type 0
AtEnd r = Holds (λ found. found.1.input ≡ []) r

abbrev Advances : {Other : Type 0} → ℕ → Pass Other → Type 0
Advances n (end_of_log log) = log.input ≡ []
Advances n (again log) = length log.input < n
Advances n (event ev log) = length log.input < n

-- What the first word of a record leaves.
abbrev Shorter : ℕ → Option ℕ × Octets → Type 0
Shorter n (none, rest) = n ≡ 0
Shorter n (some v, rest) = length rest < n

read_u32le-Shorter :
    (b : ℕ) (input : Octets) → Holds (λ r. length r.1 < suc (length input)) (read_u32le (b ∷ input))
unfolding read_u32le read_exactly
read_u32le-Shorter b input =
    Holds->>= (λ r. length r.1 < suc (length input)) (λ r. length r.1 < suc (length input))
      (read_exactly 4 (b ∷ input)) _
      (Holds-fatal_if (λ r. length r.1 < suc (length input)) (ltb (length (b ∷ input)) 4)
        (ok (take 4 (b ∷ input), drop 4 (b ∷ input))) (omega (arith, length-drop {A = ℕ} 3 input)))
      (λ r h. h)

read_u32le_or_eof-Shorter :
    (input : Octets) → Holds (Shorter (length input)) (read_u32le_or_eof input)
unfolding read_u32le_or_eof
read_u32le_or_eof-Shorter [] = refl
read_u32le_or_eof-Shorter (b ∷ input) =
    Holds->>= (λ r. length r.1 < suc (length input)) (Shorter (suc (length input)))
      (read_u32le (b ∷ input)) _ (read_u32le-Shorter b input) (λ r h. h)

module _ (tpm2_alg_last : ℕ) (Other : Type 0) where
  with_info-Advances :
      (n : ℕ) (log : TpmEventLogReader) (info : Option Tcg2Info)
      → length log.input < n
      → Holds (Advances {Other = Other} n) (with_info log info)
  unfolding with_info
  with_info-Advances n log none h = tt
  with_info-Advances n log (some info) h = h

  finish_record-Advances :
      (n : ℕ) (log : TpmEventLogReader) (ev : TpmEvent Other)
      → length log.input < n
      → Holds (Advances n) (finish_record tpm2_alg_last log ev)
  unfolding finish_record
  finish_record-Advances n log ev h = elim (Bool-cases (is_magic log ev)) [
    | inl m ↦ elim (Bool-cases (is_spec_id ev.event_data)) [
      | inl s ↦
          rw (m, s)
            (Holds->>= (λ o. Unit) (Advances n)
              (tpm_event_parse_tcg2_info tpm2_alg_last ev.event_data log.tcg2_info) (with_info log)
              (Holds-any (tpm_event_parse_tcg2_info tpm2_alg_last ev.event_data log.tcg2_info))
              (λ info u. with_info-Advances n log info h))
      | inr s ↦ elim (Bool-cases (is_startup_locality ev.event_data)) [
        | inl l ↦ rw (m, s, l) h
        | inr l ↦ rw (m, s, l) h
      ]
    ]
    | inr m ↦ rw m h
  ]

  read_record-Advances :
      (log : TpmEventLogReader)
      → Holds (Advances (length log.input)) (read_record tpm2_alg_last {Other = Other} log)
  unfolding read_record
  read_record-Advances log =
      Holds->>= (Shorter (length log.input)) (Advances (length log.input))
        (read_u32le_or_eof log.input) _ (read_u32le_or_eof-Shorter log.input) body
    where
      body :
          (r : Option ℕ × Octets)
          → Shorter (length log.input) r
          → Holds (Advances {Other = Other} (length log.input)) (elim r.0 [
            | none ↦ ok (end_of_log log)
            | some i ↦ read_body log i r.1 >>= λ (ev, rest).
                finish_record tpm2_alg_last (record log { input = rest }) ev
          ])
      body (none, rest) h = no_bytes log.input h
      body (some i, rest) h =
          Holds->>= (Left (length rest)) (Advances (length log.input)) (read_body log i rest) _
            (read_body-Within Other (length rest) log i rest (omega arith))
            (λ r p.
              finish_record-Advances (length log.input) (record log { input = r.1 }) r.0
                (omega arith))

  after_record-ends :
      (n : ℕ) (pass : Outcome (Pass Other)) (next : TpmEventLogReader → Option (Loaded Other))
      → Holds (Advances n) pass
      → ((log : TpmEventLogReader)
          → length log.input < n
          → (r : Loaded Other) × (next log ≡ some r) × AtEnd r)
      → (r : Loaded Other) × (after_record tpm2_alg_last pass next ≡ some r) × AtEnd r
  unfolding after_record prepend
  after_record-ends n (ok (end_of_log log)) next h k = (_, refl, h)
  after_record-ends n (ok (again log)) next h k = k log h
  after_record-ends n (ok (event ev log)) next h k =
      let (r, runs, at_end) = k log h in
      (
        _,
        ap (prepend tpm2_alg_last ev) runs,
        Holds->>= (λ found. found.1.input ≡ []) (λ found. found.1.input ≡ []) r _ at_end
            (λ found e. e),
      )
  after_record-ends n fatal next h k = (_, refl, tt)
  after_record-ends n undefined next h k = (_, refl, tt)

  -- The reader's loop ends on every log: more rounds than the log has bytes are enough for it to come
  -- to its end, which is events and the end of the file with no byte left, the end of the process by
  -- a fatal error, or an access past an array, to which C gives no meaning.
  pub load_events-ends :
      (rounds : ℕ) (log : TpmEventLogReader)
      → length log.input < rounds
      → (r : Loaded Other) × (load_events tpm2_alg_last rounds log ≡ some r) × AtEnd r
  unfolding load_events
  load_events-ends zero log h = elim h [ ]
  load_events-ends (suc rounds) log h =
      after_record-ends (length log.input) (read_record tpm2_alg_last log) _
        (read_record-Advances log) (λ log' shorter. load_events-ends rounds log' (omega arith))
