-- ===== src/EventLog/Parse.antt =====
-- `tpm_event_parse` of src/eventlog.c with the parsers of tag, IPL, shim and systemd-boot events, and
-- the parsers of src/efi-variable.c and src/efi-gpt.c.
pub mod Tags
pub mod Kept
mod Tests
use pcr_oracle.Common.{
  ℕ, ◌+◌, ◌-◌, ◌*◌, ◌%◌, Bool, ◌||◌, not, Option, none, some, [], ◌∷◌, ltb, ◌==◌, if◌then◌else◌,
  length, get_or, ◌≤◌,
}
use pcr_oracle.Common.Bytes.{Octets, CString}
use pcr_oracle.Common.Words.{u32_mod}
use pcr_oracle.Common.Text.{c_string}
use pcr_oracle.Common.Outcome.{Outcome, ok, ◌>>=◌}
use pcr_oracle.Buffer.{
  Buffer, buffer_init_read, buffer_get, buffer_get_u32le, buffer_get_u64le, buffer_get_utf16le,
}
use pcr_oracle.EventLog.{
  TpmEvent, ParsedEvent, other_event, Strategy, copy, event_event_tag, event_ipl,
  efi_variable_authority, efi_variable_boot, efi_variable_driver_config,
  efi_boot_services_application, efi_boot_services_driver, efi_gpt_event,
}
use pcr_oracle.EventLog.Forms.{
  BootEvent, shim_event, systemd_event, tag_event, efi_variable, efi_gpt, efi_bsa, blank,
  EfiVariableEvent,
}
use pcr_oracle.EventLog.Grub.{grub_command_event_parse, grub_file_event_parse}
use pcr_oracle.EventLog.Shim.{shim_variable_get_full_rtname}
use pcr_oracle.EventLog.Variable.{tpm_event_parse_efi_variable}

abbrev pub loader_conf_event_tag_id : ℕ
loader_conf_event_tag_id = 0xf5bc582a

abbrev pub load_options_event_tag_id : ℕ
load_options_event_tag_id = 0x8f3b22ed

abbrev pub initrd_event_tag_id : ℕ
initrd_event_tag_id = 0x8f3b22ec

-- sizeof(evspec->event_data)
abbrev pub tag_data_size : ℕ
tag_data_size = 52

-- The ids that have a `rehash`.
abbrev pub is_known_tag : ℕ → Bool
is_known_tag id =
    id == loader_conf_event_tag_id || (id == load_options_event_tag_id || id == initrd_event_tag_id)

module _ {Bsa : Type 0} where
  tag_of : ℕ → Option (Octets × Buffer) → Option (ParsedEvent (BootEvent Bsa))
  tag_of id none = none
  tag_of id (some (bs, bp)) = if is_known_tag id then some (other_event (tag_event id bs)) else none

  -- From the length field on.
  tag_data : ℕ → Option (ℕ × Buffer) → Option (ParsedEvent (BootEvent Bsa))
  unfolding tag_of
  tag_data id none = none
  tag_data id (some (len, bp)) =
      if ltb tag_data_size len then none else tag_of id (buffer_get bp len)

  tag_fields : Option (ℕ × Buffer) → Option (ParsedEvent (BootEvent Bsa))
  unfolding tag_data
  tag_fields none = none
  tag_fields (some (id, bp)) = tag_data id (buffer_get_u32le bp)

  unfoldable pub tpm_event_parse_tag : Buffer → Option (ParsedEvent (BootEvent Bsa))
  unfolding tag_fields
  tpm_event_parse_tag bp = tag_fields (buffer_get_u32le bp)

  unfoldable pub shim_event_parse : CString → Option (ParsedEvent (BootEvent Bsa))
  shim_event_parse value = elim (shim_variable_get_full_rtname value) [
    | none ↦ none
    | some rtname ↦ some (other_event (shim_event value rtname))
  ]

  -- What the IPL events of a register hold. `value` is the string, `octets` are all bytes.
  unfoldable pub ipl_by_register : ℕ → CString → Octets → Option (ParsedEvent (BootEvent Bsa))
  ipl_by_register pcr_index value octets =
      if pcr_index == 8
      then grub_command_event_parse value
      else if pcr_index == 9
      then grub_file_event_parse value
      else if pcr_index == 12
      then some (other_event (systemd_event octets))
      else if pcr_index == 14
      then shim_event_parse value
      else none

  -- The bytes of a non-empty event end with a NUL.
  unfoldable pub ipl_value : ℕ → Octets → Option (ParsedEvent (BootEvent Bsa))
  ipl_value pcr_index octets =
      if not (get_or octets (length octets - 1) 0 == 0)
      then none
      else ipl_by_register pcr_index (c_string octets) octets

  abbrev as_copy : TpmEvent (BootEvent Bsa) → TpmEvent (BootEvent Bsa)
  as_copy ev = record ev { rehash_strategy = copy }

  -- The parsed form, and the event, whose strategy changes where the IPL event is empty.
  unfoldable pub tpm_event_parse_ipl :
      TpmEvent (BootEvent Bsa) → Option (ParsedEvent (BootEvent Bsa)) × TpmEvent (BootEvent Bsa)
  tpm_event_parse_ipl ev =
      if length ev.event_data == 0 || get_or ev.event_data 0 0 == 0
      then (some (other_event blank), as_copy ev)
      else (ipl_value ev.pcr_index ev.event_data, ev)

-- What stands behind the parsers of src/efi-variable.c and src/efi-application.c: iconv(), and the parse
-- of a boot services event.
module _ {Bsa ScanCtx : Type 0} (convert_from_utf16le : ℕ → Octets → Option Octets)
    (parse_efi_bsa : TpmEvent (BootEvent Bsa)
      → Buffer
      → ScanCtx
      → Outcome (Option Bsa × ScanCtx)) where
  variable_form : Option EfiVariableEvent → Option (ParsedEvent (BootEvent Bsa))
  variable_form none = none
  variable_form (some e) = some (other_event (efi_variable e))

  bsa_form :
      TpmEvent (BootEvent Bsa)
      → Option Bsa × ScanCtx
      → Outcome (Option (ParsedEvent (BootEvent Bsa)) × TpmEvent (BootEvent Bsa) × ScanCtx)
  bsa_form ev (none, ctx) = ok (none, ev, ctx)
  bsa_form ev (some e, ctx) = ok (some (other_event (efi_bsa e)), ev, ctx)

  -- `__tpm_event_parse`: the parsed form, the event and the context.
  unfoldable pub parse_by_type :
      TpmEvent (BootEvent Bsa)
      → ScanCtx
      → Outcome (Option (ParsedEvent (BootEvent Bsa)) × TpmEvent (BootEvent Bsa) × ScanCtx)
  unfolding variable_form bsa_form
  parse_by_type ev ctx =
      let buf = buffer_init_read ev.event_data (length ev.event_data) in
      let t = ev.event_type in
      if t == event_event_tag
      then ok (tpm_event_parse_tag buf, ev, ctx)
      else if t == event_ipl
      then (let (parsed, ev') = tpm_event_parse_ipl ev in ok (parsed, ev', ctx))
      else if t == efi_variable_authority
          || (t == efi_variable_boot || t == efi_variable_driver_config)
      then ok (variable_form (tpm_event_parse_efi_variable convert_from_utf16le buf), ev, ctx)
      else if t == efi_boot_services_application || t == efi_boot_services_driver
      then parse_efi_bsa ev buf ctx >>= bsa_form ev
      else if t == efi_gpt_event
      then ok (
        some (other_event (efi_gpt (record { efi_partition = none; disk_device = none }))),
        ev,
        ctx,
      )
      else ok (none, ev, ctx)

  -- A parsed form is kept; without one `__parsed` stays NULL.
  keep_parsed :
      Option (ParsedEvent (BootEvent Bsa)) × TpmEvent (BootEvent Bsa) × ScanCtx
      → Outcome (TpmEvent (BootEvent Bsa) × ScanCtx)
  keep_parsed (none, ev, ctx) = ok (ev, ctx)
  keep_parsed (some p, ev, ctx) = ok (record ev { parsed = some p }, ctx)

  parse_unless :
      Option (ParsedEvent (BootEvent Bsa))
      → TpmEvent (BootEvent Bsa)
      → ScanCtx
      → Outcome (TpmEvent (BootEvent Bsa) × ScanCtx)
  unfolding keep_parsed
  parse_unless (some p) ev ctx = ok (ev, ctx)
  parse_unless none ev ctx = parse_by_type ev ctx >>= keep_parsed

  unfoldable pub tpm_event_parse :
      TpmEvent (BootEvent Bsa) → ScanCtx → Outcome (TpmEvent (BootEvent Bsa) × ScanCtx)
  unfolding parse_unless
  tpm_event_parse ev ctx = parse_unless ev.parsed ev ctx
