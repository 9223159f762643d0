-- ===== src/EventLog/Forms.antt =====
-- The other members of the union in `tpm_parsed_event` of src/eventlog.h.
use pcr_oracle.Common.{ℕ, Option, List}
use pcr_oracle.Common.Bytes.{Octets, CString}
use pcr_oracle.EventLog.{GrubFile}

-- efi_variable_event. `octets` is the memory `data`.
pub record EfiVariableEvent : Type 0 where
  pub variable_guid : Octets
  pub variable_name : CString
  pub len : ℕ
  pub octets : Octets

-- efi_gpt_event
pub record EfiGptEvent : Type 0 where
  pub efi_partition : Option CString
  pub disk_device : Option CString

-- grub_command_event. `file` is there where `file.path` is not NULL.
pub record GrubCommandEvent : Type 0 where
  pub string : CString
  pub argv : List CString
  pub file : Option GrubFile

-- `Bsa` is efi_bsa_event.
pub data BootEvent (Bsa : Type 0) : Type 0 where
  -- GRUB_EVENT_COMMAND_LINUX, GRUB_EVENT_COMMAND_INITRD, GRUB_EVENT_KERNEL_CMDLINE
  grub_linux grub_initrd kernel_cmdline : GrubCommandEvent → BootEvent Bsa
  -- SHIM_EVENT_VARIABLE: `string` and `efi_variable`
  shim_event : CString → CString → BootEvent Bsa
  systemd_event : Octets → BootEvent Bsa
  -- `event_id` and the first `event_data_len` bytes of `event_data`
  tag_event : ℕ → Octets → BootEvent Bsa
  efi_variable : EfiVariableEvent → BootEvent Bsa
  efi_gpt : EfiGptEvent → BootEvent Bsa
  efi_bsa : Bsa → BootEvent Bsa
  -- An event with no data: nothing is filled in, and there is no `rehash`.
  blank : BootEvent Bsa
