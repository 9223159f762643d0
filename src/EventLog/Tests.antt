-- ===== src/EventLog/Tests.antt =====
-- Runs of the reader, and the theorems at concrete inputs.
use pcr_oracle.Common.{ℕ, ◌+◌, ◌≡◌, ◌<◌, refl, some, List, [], ◌∷◌, ◌++◌, arith, map, replicate}
use pcr_oracle.Common.Bytes.{Octets, codes}
use pcr_oracle.Common.Outcome.{ok}
use pcr_oracle.Digest.{algo_entry, digest_by_tpm_alg}
use pcr_oracle.EventLog.{event_ipl, event_separator}
use pcr_oracle.EventLog.Reader.{TpmEventLogReader, event_log_open, raw_event, read_body}
use pcr_oracle.EventLog.Reader.Records.{
  LoggedDigest, LogRecord, IsLogRecord, body_octets, stored_digest, read_body-body_octets,
}
use pcr_oracle.EventLog.ReadNext.{Loaded, load_events}
use pcr_oracle.EventLog.ReadNext.Logs.{log_octets, events_of, load_events-log_octets}
use pcr_oracle.EventLog.ReadNext.Termination.{AtEnd, load_events-ends}

abbrev sha256_of : ℕ → LoggedDigest
sha256_of b = record {
  algo_id = 11;
  algo = algo_entry 11 (codes "sha256") 32;
  value = replicate 32 b;
}

abbrev a_record : ℕ → ℕ → LogRecord
a_record pcr_index event_type = record {
  pcr_index = pcr_index;
  event_type = event_type;
  digests = sha256_of 7 ∷ [];
  event_data = 1 ∷ 2 ∷ 3 ∷ [];
}

a_record-IsLogRecord :
    (pcr_index event_type : ℕ)
    → pcr_index < 0x100000000
    → event_type < 0x100000000
    → IsLogRecord (a_record pcr_index event_type)
a_record-IsLogRecord pcr_index event_type i t = record {
  index_word = i;
  type_word = t;
  few_digests = omega arith;
  digests_ok = (
    record {
      short = omega arith;
      known = unfold digest_by_tpm_alg in refl;
      sized = refl;
      bounded = omega arith;
    },
    tt,
  );
  small_data = omega arith;
}

abbrev two_records : List LogRecord
two_records = a_record 4 event_separator ∷ a_record 9 event_ipl ∷ []

-- Behind the header of a TPM 2 log.
abbrev behind_header : Octets → TpmEventLogReader
behind_header input = record (event_log_open []) { input = input; tpm_version = 2 }

read_body-body_octets_example :
    read_body {Other = Unit {0}}
      (behind_header [])
      4
      (body_octets (a_record 4 event_ipl) ++ (5 ∷ []))
    ≡ ok (
      raw_event
          (behind_header []).event_count
          4
          event_ipl
          (map stored_digest (sha256_of 7 ∷ []))
          (1 ∷ 2 ∷ 3 ∷ []),
      5 ∷ [],
    )
read_body-body_octets_example =
    read_body-body_octets (behind_header []) (a_record 4 event_ipl) (5 ∷ []) refl
      (a_record-IsLogRecord 4 event_ipl (omega arith) (omega arith))

load_events-log_octets_example :
    load_events 68 {Other = Unit {0}} 3 (behind_header (log_octets two_records))
    ≡ some (
        ok (
          events_of (behind_header []).event_count two_records,
          record (behind_header []) { event_count = (behind_header []).event_count + 2 },
        ))
unfolding event_log_open
load_events-log_octets_example =
    load_events-log_octets 68 3 (behind_header (log_octets two_records)) two_records (omega arith)
      refl refl (omega arith) (λ e. refl)
      (
        a_record-IsLogRecord 4 event_separator (omega arith) (omega arith),
        (a_record-IsLogRecord 9 event_ipl (omega arith) (omega arith), tt),
      )

load_events-ends_example :
    (r : Loaded (Unit {0})) × (load_events 68 4 (behind_header (1 ∷ 2 ∷ 3 ∷ [])) ≡ some r) × AtEnd r
load_events-ends_example =
    load_events-ends 68 (Unit {0}) 4 (behind_header (1 ∷ 2 ∷ 3 ∷ [])) (omega arith)
