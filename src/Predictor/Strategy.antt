-- ===== src/Predictor/Strategy.antt =====
-- `int_list_contains` and `predictor_get_event_strategy` of src/oracle.c.
use pcr_oracle.Common.{ℕ, Bool, false, ◌||◌, List, [], ◌∷◌, ◌==◌, if◌then◌else◌}
use pcr_oracle.EventLog.{
  Strategy, parse_none, parse_rehash, copy, no_action, event_post_code, event_no_action,
  event_separator, event_action, event_event_tag, event_s_crtm_contents, event_s_crtm_version,
  event_platform_config_flags, event_ipl, event_nonhost_code, event_nonhost_config,
  event_nonhost_info, efi_variable_driver_config, efi_variable_boot, efi_boot_services_application,
  efi_boot_services_driver, efi_gpt_event, efi_action, efi_platform_firmware_blob,
  efi_handoff_tables, efi_platform_firmware_blob2, efi_handoff_tables2, efi_variable_authority,
}

-- The lists end with -1 in C.
unfoldable pub int_list_contains : List ℕ → ℕ → Bool
int_list_contains [] value = false
int_list_contains (x ∷ xs) value = x == value || int_list_contains xs value

abbrev pub rehash_types : List ℕ
rehash_types =
    efi_boot_services_application ∷ efi_boot_services_driver ∷ efi_variable_boot
    ∷ efi_variable_authority ∷ efi_variable_driver_config ∷ event_ipl ∷ event_event_tag
    ∷ efi_gpt_event ∷ []

abbrev pub copy_types : List ℕ
copy_types =
    event_s_crtm_contents ∷ event_s_crtm_version ∷ efi_platform_firmware_blob
    ∷ efi_platform_firmware_blob2 ∷ event_separator ∷ event_post_code ∷ efi_handoff_tables
    ∷ efi_handoff_tables2 ∷ efi_action ∷ event_action ∷ event_nonhost_code ∷ event_nonhost_config
    ∷ event_nonhost_info ∷ event_platform_config_flags ∷ []

unfoldable pub predictor_get_event_strategy : ℕ → Strategy
unfolding int_list_contains
predictor_get_event_strategy event_type =
    if event_type == event_no_action
    then no_action
    else if int_list_contains rehash_types event_type
    then parse_rehash
    else if int_list_contains copy_types event_type
    then copy
    else parse_none
