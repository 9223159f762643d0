-- ===== src/EventLog/ReadNext/Logs.antt =====
-- Whole logs: the reader on the bytes of a list of records.
use pcr_oracle.Common.{
  ℕ, zero, suc, ◌+◌, ◌%◌, ◌^◌, ◌<◌, ◌≡◌, refl, ap, true, false, some, List, [], ◌∷◌, ◌++◌, ◌==◌,
  arith, length, All, Bool-cases, inl, inr, map,
}
use pcr_oracle.Common.Bytes.{Octets}
use pcr_oracle.Common.Words.{le_octets, u32_mod}
use pcr_oracle.Common.Outcome.{ok}
use pcr_oracle.EventLog.{TpmEvent, event_no_action}
use pcr_oracle.EventLog.Reader.{TpmEventLogReader, read_u32le_or_eof, raw_event}
use pcr_oracle.EventLog.Reader.Records.{
  LogRecord, IsLogRecord, body_octets, stored_digest, read_u32le-le_octets, read_body-body_octets,
}
use pcr_oracle.EventLog.ReadNext.{
  event, end_of_log, is_magic, finish_record, read_record, counted, after_record, prepend,
  load_events,
}

unfoldable pub log_octets : List LogRecord → Octets
log_octets [] = []
log_octets (r ∷ rs) = le_octets 4 r.pcr_index ++ (body_octets r ++ log_octets rs)

abbrev pub event_of : {Other : Type 0} → ℕ → LogRecord → TpmEvent Other
event_of i r = raw_event i r.pcr_index r.event_type (map stored_digest r.digests) r.event_data

-- The events of the records, numbered from `i` on.
unfoldable pub events_of : {Other : Type 0} → ℕ → List LogRecord → List (TpmEvent Other)
events_of i [] = []
events_of i (r ∷ rs) = event_of i r ∷ events_of (i + 1) rs

-- The first record of a log is no EV_NO_ACTION event, which is where the magic events stand.
abbrev pub StartsPlain : List LogRecord → Type 0
StartsPlain [] = Unit
StartsPlain (r ∷ rs) = (r.event_type == event_no_action) ≡ false

read_u32le_or_eof-le_octets :
    (v : ℕ) (rest : Octets)
    → v < 2 ^ 32
    → read_u32le_or_eof (le_octets 4 v ++ rest) ≡ ok (some v, rest)
unfolding read_u32le_or_eof le_octets
read_u32le_or_eof-le_octets v rest h = rw (read_u32le-le_octets v rest h)

abbrev standing_at : TpmEventLogReader → Octets → TpmEventLogReader
standing_at log rest = record log { input = rest }

plain_lem :
    (Other : Type 0) (log : TpmEventLogReader) (r : LogRecord) (rs : List LogRecord)
    → ((log.event_count == 0) ≡ true → StartsPlain (r ∷ rs))
    → is_magic log (event_of {Other = Other} log.event_count r) ≡ false
plain_lem Other log r rs plain = elim (Bool-cases (log.event_count == 0)) [
  | inl e ↦ ground (arith, plain e)
  | inr e ↦ ground (arith, e)
]

module _ (tpm2_alg_last : ℕ) {Other : Type 0} where
  finish_record-plain :
      (log : TpmEventLogReader) (ev : TpmEvent Other)
      → is_magic log ev ≡ false
      → finish_record tpm2_alg_last log ev ≡ ok (event ev (counted log))
  unfolding finish_record
  finish_record-plain log ev h = rw h

  read_record-end :
      (log : TpmEventLogReader)
      → log.input ≡ []
      → read_record tpm2_alg_last {Other = Other} log ≡ ok (end_of_log log)
  unfolding read_record read_u32le_or_eof
  read_record-end log h = rw h (ap (λ i. ok (end_of_log (record log { input = i }))) h)

  read_record-record :
      (log : TpmEventLogReader) (r : LogRecord) (rs : List LogRecord)
      → log.input ≡ log_octets (r ∷ rs)
      → (log.tpm_version == 1) ≡ false
      → IsLogRecord r
      → ((log.event_count == 0) ≡ true → StartsPlain (r ∷ rs))
      → read_record tpm2_alg_last {Other = Other} log
        ≡ ok (event (event_of log.event_count r) (counted (standing_at log (log_octets rs))))
  unfolding read_record log_octets
  read_record-record log r rs input v h plain =
      let ev : TpmEvent Other = event_of log.event_count r in
      rw
        (
          input,
          read_u32le_or_eof-le_octets r.pcr_index (body_octets r ++ log_octets rs) h.index_word,
          read_body-body_octets {Other = Other} log r (log_octets rs) v h,
        )
        (finish_record-plain (standing_at log (log_octets rs)) ev (plain_lem Other log r rs plain))

  -- On records of a TPM 2 log, behind the header, with at most 32 digests of algorithms that the program
  -- knows and at most a mebibyte of data each, of which the first is no EV_NO_ACTION event if none came
  -- before, and with a count of events that stays below 2^32, the reader returns exactly the events of the records, in order and numbered on from those
  -- before, and stands at the end of the log; more rounds than there are records are enough.
  pub load_events-log_octets :
      (rounds : ℕ) (log : TpmEventLogReader) (rs : List LogRecord)
      → length rs < rounds
      → log.input ≡ log_octets rs
      → (log.tpm_version == 1) ≡ false
      → log.event_count + length rs < u32_mod
      → ((log.event_count == 0) ≡ true → StartsPlain rs)
      → All IsLogRecord rs
      → load_events tpm2_alg_last {Other = Other} rounds log
        ≡ some (
            ok (
              events_of log.event_count rs,
              record log { input = []; event_count = log.event_count + length rs },
            ))
  unfolding load_events events_of after_record prepend
  load_events-log_octets zero log rs enough input v count plain h = elim enough [ ]
  load_events-log_octets (suc rounds) log [] enough input v count plain h =
      let at_end : log.input ≡ [] = unfold log_octets in input in
      let whole : log.event_count + 0 ≡ log.event_count = omega arith in
      rw (read_record-end log at_end, whole)
        (ap (λ i. some (ok ([], record log { input = i }))) at_end)
  load_events-log_octets (suc rounds) log (r ∷ rs) enough input v count plain (hr, h) =
      let next : (log.event_count + 1) % u32_mod ≡ log.event_count + 1 = omega (arith, count) in
      let log' = record (standing_at log (log_octets rs)) { event_count = log.event_count + 1 } in
      rw
        (
          read_record-record log r rs input v hr plain,
          next,
          load_events-log_octets rounds log' rs (omega arith) refl v (omega (arith, count))
              (λ e. ground (arith, e)) h,
        )
        (let sum : log.event_count + 1 + length rs ≡ log.event_count + suc (length rs) =
            omega arith in
          rw sum refl)
