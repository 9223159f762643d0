-- ===== src/Predictor/Compare/Tests.antt =====
-- A run of `compare_events`, and the theorem at a concrete input.
use pcr_oracle.Common.{
  Bool, ◌↔◌, ◌≡◌, refl, true, false, none, some, List, [], ◌∷◌, take, replicate, ℕ,
}
use pcr_oracle.Common.Bytes.{octets_eq}
use pcr_oracle.Common.Outcome.{ok}
use pcr_oracle.Digest.{TpmEvdigest}
use pcr_oracle.Digest.Sample.{sha256}
use pcr_oracle.EventLog.{TpmEvent, copy, event_ipl, tpm_event_get_digest, find_digest}
use pcr_oracle.Predictor.Compare.{
  compare_events, compare_event, compare_with, from_register, end_round, are_different,
}
use pcr_oracle.Predictor.Stopping.{before_stop}
use pcr_oracle.Predictor.Compare.Agreement.{AllAgree, compare_events_lem}

abbrev digest_with : ℕ → TpmEvdigest
digest_with b = record { algo = some sha256; size = 32; octets = replicate 64 b }

-- An event with one digest in the log and another one predicted.
abbrev predicted : ℕ → ℕ → ℕ → TpmEvent (Unit {0})
predicted pcr_index logged guess = record {
  event_index = 0;
  parsed = none;
  pcr_index = pcr_index;
  event_type = event_ipl;
  pcr_values = digest_with logged ∷ [];
  event_data = [];
  rehash_strategy = copy;
  predicted_digest = digest_with guess;
}

abbrev first_log : List (TpmEvent (Unit {0}))
first_log = predicted 8 1 2 ∷ predicted 9 1 5 ∷ predicted 8 1 7 ∷ []

abbrev second_log : List (TpmEvent (Unit {0}))
second_log = predicted 8 2 0 ∷ predicted 9 4 0 ∷ predicted 8 6 0 ∷ []

compare_runs :
    compare_events sha256 (record { position = some 1; after = true }) 9 first_log 0 second_log
    ≡ ok false
unfolding compare_events compare_event compare_with from_register end_round are_different octets_eq
    tpm_event_get_digest find_digest
compare_runs = refl

compare_events_lem_example :
    (answer : Bool) × (compare_events sha256
        (record { position = some 1; after = true })
        8
        first_log
        0
        second_log
      ≡ ok answer)
    × ((answer ≡ true)
        ↔ AllAgree sha256 8 (take (before_stop (some 1) true 0 3) first_log) second_log)
compare_events_lem_example = compare_events_lem sha256 (some 1) true 8 first_log second_log (
  refl,
  (digest_with 2, unfold tpm_event_get_digest find_digest in refl),
  (
    refl,
    (digest_with 4, unfold tpm_event_get_digest find_digest in refl),
    (refl, (digest_with 6, unfold tpm_event_get_digest find_digest in refl), tt),
  ),
)
