-- ===== src/Predictor/Tests.antt =====
-- Runs of the predictor, and the theorems at concrete inputs.
use pcr_oracle.Common.{
  ℕ, ◌+◌, ◌<◌, ◌≡◌, ◌↔◌, ◌⊎◌, inl, refl, Bool, true, false, none, some, List, [], ◌∷◌, ◌++◌, arith,
  replicate, All, length, ap, sym,
}
use pcr_oracle.Common.Bits.{test_bit}
use pcr_oracle.Common.Bytes.{octets_eq, CString, codes}
use pcr_oracle.Common.Outcome.{Outcome, ok}
use pcr_oracle.Digest.{digest_equal, TpmEvdigest, zero_digest}
use pcr_oracle.Digest.Sample.{first_bytes, first_bytes-IsStreaming, sha256, sha256-IsSupported}
use pcr_oracle.Pcr.{
  pcr_bank_get_register, pcr_bank_wants_pcr, pcr_bank_register_is_valid, mask_bit, TpmPcrBank,
  initial_register, pcr_bank_initialize,
}
use pcr_oracle.Pcr.Bank.{IsBank, pcr_bank_initialize-IsBank}
use pcr_oracle.EventLog.{
  TpmEvent, ParsedEvent, grub_file, Strategy, parse_none, parse_rehash, copy, tpm_event_get_digest,
  find_digest, efi_boot_services_application, event_ipl, efi_variable_driver_config,
}
use pcr_oracle.Predictor.Extend.{extended, pcr_bank_extend_register, pcr_bank_extend_register_lem}
use pcr_oracle.Predictor.StopEvent.{
  StopEvent, check_stop_event, stop_grub_file, stop_event_parse, file_matches, command_matches,
}
use pcr_oracle.Predictor.StopEvent.Matching.{
  NoLetter, stop_event_parse_lem, file_matches_iff, command_matches_iff,
}
use pcr_oracle.Predictor.Strategy.{predictor_get_event_strategy}
use pcr_oracle.Predictor.Prescan.{
  pre_scan_events, scan_event, KeepsEvents, IsScanned, is_parsed, pre_scan_events-IsScanned,
}
use pcr_oracle.EventLog.Forms.{BootEvent}
use pcr_oracle.EventLog.Parse.{tpm_event_parse}
use pcr_oracle.Predictor.Parsing.{tpm_event_parse-KeepsEvents}
use pcr_oracle.Predictor.Update.{RehashOps, update_events}
use pcr_oracle.Predictor.Round.{IsReady, IsReadable, IsTotal}
use pcr_oracle.Predictor.Verify.{
  predictor_verify, verify_registers, verify_register, actual_register, is_mismatch,
}
use pcr_oracle.Predictor.Verify.Agreement.{agrees, predictor_verify_lem}
use pcr_oracle.Pcr.Masks.{wants_register}
use pcr_oracle.Predictor.Replay.{IsReplayed, update_events-replay}

stop_event_parse_lem_example :
    stop_event_parse (codes "grub-file" ++ b'=' ∷ codes "a=b")
    ≡ some (codes "grub-file", some (codes "a=b"))
stop_event_parse_lem_example =
    stop_event_parse_lem (codes "grub-file") (codes "a=b")
      (cc, (cc, (cc, (cc, (cc, (cc, (cc, (cc, (cc, tt))))))))) (λ e. cc)

file_matches_iff_example : (file_matches (codes "/boot/grub.cfg") (codes "grub.cfg") ≡ true) ↔ (
    (codes "/boot/grub.cfg" ≡ codes "grub.cfg")
    ⊎ ((dir : CString) × (codes "/boot/grub.cfg" ≡ dir ++ (b'/' ∷ codes "grub.cfg"))))
file_matches_iff_example = file_matches_iff (codes "/boot/grub.cfg") (codes "grub.cfg")

command_matches_iff_example :
    (command_matches (codes "(linux") (codes "linux") ≡ ok true)
    ↔ ((front : CString) × (codes "(linux" ≡ front ++ codes "linux") × All NoLetter front)
command_matches_iff_example = command_matches_iff (codes "(linux") (codes "inux") b'l' refl

-- Registers 4 and 9, zeroed and valid.
abbrev two_registers : TpmPcrBank
two_registers = record {
  pcr_mask = 0x210;
  valid_mask = 0x210;
  algo_name = some (codes "sha256");
  algo_info = sha256;
  pcr = replicate 24 (initial_register sha256);
}

two_registers-IsBank : IsBank two_registers
unfolding pcr_bank_initialize
two_registers-IsBank =
    let b = pcr_bank_initialize-IsBank 0x210 sha256 in
    record { count = b.count; algo = b.algo; size = b.size; room = b.room }

predictor_verify_lem_example :
    (total : ℕ) × (predictor_verify two_registers two_registers ≡ ok total)
    × ((total ≡ 0) ↔ (
        (j : ℕ)
        → j < 24
        → wants_register two_registers j ≡ true
        → agrees two_registers two_registers j ≡ true))
predictor_verify_lem_example = predictor_verify_lem two_registers two_registers

verify_runs : predictor_verify two_registers two_registers ≡ ok 0
unfolding predictor_verify verify_registers verify_register actual_register is_mismatch
    pcr_bank_get_register pcr_bank_wants_pcr pcr_bank_register_is_valid mask_bit digest_equal
    octets_eq
verify_runs = refl

abbrev logged : ℕ → TpmEvdigest
logged b = record { algo = some sha256; size = 32; octets = replicate 64 b }

pcr_bank_extend_register_lem_example :
    pcr_bank_extend_register first_bytes two_registers 9 (logged 5)
    ≡ ok (extended first_bytes first_bytes-IsStreaming tt two_registers 9 (logged 5))
pcr_bank_extend_register_lem_example =
    pcr_bank_extend_register_lem first_bytes first_bytes-IsStreaming tt 9 (logged 5)
      two_registers-IsBank sha256-IsSupported (omega arith) (unfold test_bit in refl) refl

abbrev event : ℕ → ℕ → ℕ → Strategy → TpmEvent (Unit {0})
event i pcr_index event_type strategy = record {
  event_index = i;
  parsed = none;
  pcr_index = pcr_index;
  event_type = event_type;
  pcr_values = logged i ∷ [];
  event_data = [];
  rehash_strategy = strategy;
  predicted_digest = zero_digest;
}

-- The re-hashing counts its calls.
abbrev counting : RehashOps (Unit {0}) ℕ
counting = record {
  lookahead_efi_partition = λ ev rest. ok ev.parsed;
  lookahead_shim_loaded = λ ev rest ctx. ctx;
  rehash = λ ev ctx. ok (some (logged ctx), ctx + 1);
}

counting-IsTotal : IsTotal first_bytes first_bytes-IsStreaming counting sha256 tt
counting-IsTotal = record {
  partition_returns = λ ev rest. (ev.parsed, refl);
  rehash_returns = λ ev ctx. (some (logged ctx), ctx + 1, refl, refl);
}

two_registers-IsReady : IsReady first_bytes first_bytes-IsStreaming counting sha256 tt two_registers
two_registers-IsReady = record {
  bank_ok = two_registers-IsBank;
  same_algo = refl;
  supported = sha256-IsSupported;
  valid = λ i h. refl;
}

event-IsReadable :
    (i pcr_index event_type : ℕ) (strategy : Strategy)
    → pcr_index < 24
    → IsReadable first_bytes first_bytes-IsStreaming counting sha256 tt
        (event i pcr_index event_type strategy)
event-IsReadable i pcr_index event_type strategy h = record {
  in_range = h;
  logged = logged i;
  has_digest = unfold tpm_event_get_digest find_digest in refl;
  unpredicted = refl;
}

abbrev three_events : List (TpmEvent (Unit {0}))
three_events =
    event 0 4 efi_boot_services_application parse_rehash
    ∷ event 1 2 event_ipl copy
    ∷ event 2 9 event_ipl copy
    ∷ []

update_events-replay_example :
    (r : List (TpmEvent (Unit {0})) × TpmPcrBank × Bool) × (update_events first_bytes counting
        sha256
        (record { position = some 2; after = true })
        three_events
        0
        40
        two_registers
        true
      ≡ ok r)
    × IsReplayed first_bytes first_bytes-IsStreaming counting sha256 tt two_registers 40 3
        three_events r
update_events-replay_example =
    update_events-replay first_bytes first_bytes-IsStreaming counting sha256 tt
      (record { position = some 2; after = true }) three_events 0 40 two_registers true
      counting-IsTotal two_registers-IsReady
      (
        event-IsReadable 0 4 efi_boot_services_application parse_rehash (omega arith),
        (
          event-IsReadable 1 2 event_ipl copy (omega arith),
          (event-IsReadable 2 9 event_ipl copy (omega arith), tt),
        ),
      )

-- A parser that takes every event for a file of grub, and counts.
abbrev with_file : TpmEvent (Unit {0}) → TpmEvent (Unit {0})
with_file ev = record ev {
  parsed = some (grub_file (record { device = none; path = codes "/grub.cfg" }));
}

abbrev as_file : TpmEvent (Unit {0}) → ℕ → Outcome (TpmEvent (Unit {0}) × ℕ)
as_file ev n = ok (with_file ev, n + 1)

as_file-ok :
    (ev : TpmEvent (Unit {0})) (n : ℕ) {ev' : TpmEvent (Unit {0})} {n' : ℕ}
    → as_file ev n ≡ ok (ev', n')
    → with_file ev ≡ ev'
as_file-ok ev n h = cc

abbrev at_file : StopEvent
at_file = record { stop_type = stop_grub_file; after = false; value = codes "grub.cfg" }

as_file-KeepsEvents : KeepsEvents as_file
as_file-KeepsEvents = record {
  same_index = λ ev n h. ap (λ e. e.pcr_index) (sym (as_file-ok ev n h));
  same_strategy = λ ev n h. inl (ap (λ e. e.rehash_strategy) (sym (as_file-ok ev n h)));
  keeps_parsed = λ ev n h p. ap is_parsed (sym (as_file-ok ev n h));
}

abbrev unscanned : List (TpmEvent (Unit {0}))
unscanned =
    event 0 1 efi_variable_driver_config parse_none
    ∷ event 1 4 efi_boot_services_application parse_none
    ∷ event 2 9 event_ipl parse_none
    ∷ []

abbrev scanned : List (TpmEvent (Unit {0}))
scanned =
    event 0 1 efi_variable_driver_config copy
    ∷ with_file (event 1 4 efi_boot_services_application parse_rehash)
    ∷ with_file (event 2 9 event_ipl parse_rehash)
    ∷ []

scan_runs : pre_scan_events as_file at_file unscanned 0 0 ≡ ok (scanned, some 2)
unfolding pre_scan_events scan_event predictor_get_event_strategy check_stop_event
scan_runs = refl

pre_scan_events-IsScanned_example : All IsScanned scanned × (length scanned ≡ 3)
pre_scan_events-IsScanned_example =
    pre_scan_events-IsScanned as_file at_file as_file-KeepsEvents unscanned 0 0 scanned (some 2)
      (refl, (refl, (refl, tt))) scan_runs

abbrev parse_units :
    TpmEvent (BootEvent (Unit {0})) → ℕ → Outcome (TpmEvent (BootEvent (Unit {0})) × ℕ)
parse_units = tpm_event_parse (λ n bs. some bs) (λ ev bp ctx. ok (none, ctx))

tpm_event_parse-KeepsEvents_example :
    KeepsEvents parse_units
    × ((ev : TpmEvent (BootEvent (Unit {0}))) (ctx : ℕ) (form : ParsedEvent (BootEvent (Unit {0})))
        → ev.parsed ≡ some form
        → parse_units ev ctx ≡ ok (ev, ctx))
tpm_event_parse-KeepsEvents_example =
    tpm_event_parse-KeepsEvents (λ n bs. some bs) (λ ev bp ctx. ok (none, ctx))
