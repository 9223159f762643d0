-- ===== src/EventLog.antt =====
-- src/eventlog.h and src/eventlog.c: the events of a TPM event log.
pub mod Reader
pub mod ReadNext
pub mod Forms
pub mod Grub
pub mod Shim
pub mod Variable
pub mod Gpt
pub mod Parse
pub mod Rehash
mod Tests
use pcr_oracle.Common.{ℕ, Option, none, some, List, [], ◌∷◌, if◌then◌else◌}
use pcr_oracle.Common.Bytes.{Octets, CString}
use pcr_oracle.Digest.{TpmAlgoInfo, TpmEvdigest, algo_eq}

-- The TPM2_EVENT and TPM2_EFI numbers that the program tests for.
abbrev pub event_post_code : ℕ
event_post_code = 0x1

abbrev pub event_no_action : ℕ
event_no_action = 0x3

abbrev pub event_separator : ℕ
event_separator = 0x4

abbrev pub event_action : ℕ
event_action = 0x5

abbrev pub event_event_tag : ℕ
event_event_tag = 0x6

abbrev pub event_s_crtm_contents : ℕ
event_s_crtm_contents = 0x7

abbrev pub event_s_crtm_version : ℕ
event_s_crtm_version = 0x8

abbrev pub event_platform_config_flags : ℕ
event_platform_config_flags = 0xa

abbrev pub event_ipl : ℕ
event_ipl = 0xd

abbrev pub event_nonhost_code : ℕ
event_nonhost_code = 0xf

abbrev pub event_nonhost_config : ℕ
event_nonhost_config = 0x10

abbrev pub event_nonhost_info : ℕ
event_nonhost_info = 0x11

abbrev pub efi_variable_driver_config : ℕ
efi_variable_driver_config = 0x80000001

abbrev pub efi_variable_boot : ℕ
efi_variable_boot = 0x80000002

abbrev pub efi_boot_services_application : ℕ
efi_boot_services_application = 0x80000003

abbrev pub efi_boot_services_driver : ℕ
efi_boot_services_driver = 0x80000004

abbrev pub efi_gpt_event : ℕ
efi_gpt_event = 0x80000006

abbrev pub efi_action : ℕ
efi_action = 0x80000007

abbrev pub efi_platform_firmware_blob : ℕ
efi_platform_firmware_blob = 0x80000008

abbrev pub efi_handoff_tables : ℕ
efi_handoff_tables = 0x80000009

abbrev pub efi_platform_firmware_blob2 : ℕ
efi_platform_firmware_blob2 = 0x8000000a

abbrev pub efi_handoff_tables2 : ℕ
efi_handoff_tables2 = 0x8000000b

abbrev pub efi_variable_authority : ℕ
efi_variable_authority = 0x800000e0

-- EVENT_STRATEGY_*
pub data Strategy : Type 0 where
  parse_none parse_rehash copy no_action : Strategy

-- What grub measures: a file, named with its device or without.
pub record GrubFile : Type 0 where
  pub device : Option CString
  pub path : CString

-- The parsed forms that the stop event looks at, and all others as `Other`.
pub data ParsedEvent (Other : Type 0) : Type 0 where
  -- GRUB_EVENT_COMMAND with its `string` and `argv`
  grub_command : CString → List CString → ParsedEvent Other
  -- GRUB_EVENT_FILE
  grub_file : GrubFile → ParsedEvent Other
  other_event : Other → ParsedEvent Other

-- `event_data` holds `event_size` bytes, `pcr_values` holds `pcr_count` digests. The list `next` is the
-- list that an event stands in.
pub record TpmEvent (Other : Type 0) : Type 0 where
  pub event_index : ℕ
  pub parsed : Option (ParsedEvent Other)
  pub pcr_index : ℕ
  pub event_type : ℕ
  pub pcr_values : List TpmEvdigest
  pub event_data : Octets
  pub rehash_strategy : Strategy
  pub predicted_digest : TpmEvdigest

-- The loop of `tpm_event_get_digest`.
unfoldable pub find_digest : List TpmEvdigest → TpmAlgoInfo → Option TpmEvdigest
find_digest [] algo_info = none
find_digest (md ∷ mds) algo_info =
    if algo_eq md.algo (some algo_info) then some md else find_digest mds algo_info

unfoldable pub tpm_event_get_digest :
    {Other : Type 0} → TpmEvent Other → TpmAlgoInfo → Option TpmEvdigest
unfolding find_digest
tpm_event_get_digest ev algo_info = find_digest ev.pcr_values algo_info
