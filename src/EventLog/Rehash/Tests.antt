-- ===== src/EventLog/Rehash/Tests.antt =====
-- Runs of the re-hashing in src/eventlog.c, and the theorems at concrete inputs.
use pcr_oracle.Common.{◌≡◌, refl, true, Option, none, some, [], ◌∷◌, ◌++◌, arith}
use pcr_oracle.Common.Bytes.{CString, codes, octets_eq}
use pcr_oracle.Common.Text.{starts_with, strtok}
use pcr_oracle.Common.Outcome.{Outcome, ok}
use pcr_oracle.Digest.{TpmEvdigest, digest_compute, zero_digest}
use pcr_oracle.Digest.Sample.{first_bytes, sha256}
use pcr_oracle.Uapi.{UapiBootEntry}
use pcr_oracle.Runtime.{System}
use pcr_oracle.EventLog.{TpmEvent, grub_command, other_event, parse_rehash, event_ipl}
use pcr_oracle.EventLog.Forms.{BootEvent, GrubCommandEvent}
use pcr_oracle.EventLog.Grub.{
  grub_command_event_parse, split_keyword, command_event, command_words, file_text,
}
use pcr_oracle.EventLog.Grub.Texts.{of_linux, logged_text, form_of}
use pcr_oracle.EventLog.Rehash.{RehashCtx, grub_command_rehash, tpm_parsed_event_rehash}
use pcr_oracle.EventLog.Rehash.Commands.{
  next_of, grub_command_rehash_lem, tpm_parsed_event_rehash-unchanged,
}

-- A system without files.
abbrev bare : System
bare = record {
  read_file = λ name. ok none;
  read_efi_variable = λ name. ok none;
  entry_tokens = [];
  convert_to_utf16le = λ bs. none;
}

abbrev next_entry : UapiBootEntry
next_entry = record {
  title = some (codes "Linux");
  efi = true;
  sort_key = none;
  version = none;
  machine_id = none;
  architecture = none;
  image_path = some (codes "/vmlinuz-2");
  initrd_path = some (codes "/initrd-2");
  options = some (codes "quiet");
}

abbrev with_entry : RehashCtx
with_entry = record { algo = sha256; boot_entry_path = none; boot_entry = some next_entry }

abbrev without_entry : RehashCtx
without_entry = record { algo = sha256; boot_entry_path = none; boot_entry = none }

abbrev old_kernel : GrubCommandEvent
old_kernel = record {
  string = codes "linux /vmlinuz-1 quiet";
  argv = codes "linux" ∷ codes "/vmlinuz-1" ∷ codes "quiet" ∷ [];
  file = some (record { device = none; path = codes "/vmlinuz-1 quiet" });
}

grub_command_rehash_lem_example :
    (text : CString) × (grub_command_rehash first_bytes bare
        (next_of of_linux)
        old_kernel
        with_entry
      ≡ digest_compute first_bytes sha256 text)
    × (grub_command_event_parse {Bsa = Unit {0}} (logged_text of_linux text)
        ≡ some (
            other_event (
              form_of of_linux (
                command_event text
                  (some (record { device = none; path = codes "/vmlinuz-2 quiet" }))))))
grub_command_rehash_lem_example =
    grub_command_rehash_lem first_bytes bare of_linux old_kernel with_entry next_entry
      (record { device = none; path = codes "/vmlinuz-1 quiet" }) (codes "/vmlinuz-2")
      (codes "quiet") refl refl refl refl (codes "vmlinuz-2", refl)
      (unfold file_text in omega arith)

abbrev no_efi :
    TpmEvent (BootEvent (Unit {0}))
    → BootEvent (Unit {0})
    → RehashCtx
    → Outcome (Option TpmEvdigest)
no_efi ev e ctx = ok none

abbrev set_event : TpmEvent (BootEvent (Unit {0}))
set_event = record {
  event_index = 0;
  parsed = none;
  pcr_index = 8;
  event_type = event_ipl;
  pcr_values = [];
  event_data = codes "grub_cmd: set a=b" ++ (0 ∷ []);
  rehash_strategy = parse_rehash;
  predicted_digest = zero_digest;
}

set_runs :
    grub_command_event_parse {Bsa = Unit {0}} (codes "grub_cmd: set a=b")
    ≡ some (grub_command (codes "set a=b") (codes "set" ∷ codes "a=b" ∷ []))
unfolding grub_command_event_parse split_keyword command_words octets_eq starts_with strtok
set_runs = refl

tpm_parsed_event_rehash-unchanged_example :
    tpm_parsed_event_rehash first_bytes bare no_efi set_event
      (some (grub_command (codes "set a=b") (codes "set" ∷ codes "a=b" ∷ [])))
      without_entry
    ≡ digest_compute first_bytes sha256 (codes "set a=b")
tpm_parsed_event_rehash-unchanged_example =
    tpm_parsed_event_rehash-unchanged first_bytes bare no_efi (codes "grub_cmd: set a=b")
      (codes "grub_cmd") (codes "set a=b")
      (grub_command (codes "set a=b") (codes "set" ∷ codes "a=b" ∷ [])) set_event without_entry
      (unfold split_keyword in refl) set_runs refl
