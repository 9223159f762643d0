-- ===== src/EventLog/Rehash.antt =====
-- The `rehash` functions of src/eventlog.c for the events of grub2, shim, systemd-boot and the kernel.
pub mod Commands
mod Tests
use pcr_oracle.Common.{
  ℕ, ◌+◌, ◌*◌, Bool, true, false, ◌&&◌, ◌||◌, Option, none, some, [], ◌∷◌, ◌++◌, ltb, ◌==◌,
  if◌then◌else◌, length, take,
}
use pcr_oracle.Common.Bytes.{Octets, CString, codes, octets_eq}
use pcr_oracle.Common.Text.{starts_with}
use pcr_oracle.Common.Outcome.{Outcome, ok, undefined, ◌>>=◌, ◌>>◌, defined_if}
use pcr_oracle.Buffer.{Buffer}
use pcr_oracle.Digest.{TpmAlgoInfo, TpmEvdigest, digest_compute, digest_buffer}
use pcr_oracle.Digest.Openssl.{Evp}
use pcr_oracle.Util.Paths.{path_unix2dos}
use pcr_oracle.Uapi.{UapiBootEntry}
use pcr_oracle.SdBoot.{sdb_is_kernel, sdb_is_initrd, sdb_is_boot_entry}
use pcr_oracle.Runtime.{System, runtime_digest_efi_file, runtime_digest_rootfs_file}
use pcr_oracle.EventLog.{
  TpmEvent, ParsedEvent, grub_command, grub_file, other_event, GrubFile, tpm_event_get_digest,
}
use pcr_oracle.EventLog.Forms.{
  BootEvent, GrubCommandEvent, grub_linux, grub_initrd, kernel_cmdline, shim_event, systemd_event,
  tag_event, efi_variable, efi_gpt, efi_bsa, blank,
}
use pcr_oracle.EventLog.Grub.{grub_file_join}
use pcr_oracle.EventLog.Parse.{
  loader_conf_event_tag_id, load_options_event_tag_id, initrd_event_tag_id,
}

-- tpm_event_log_rehash_ctx, less `use_pesign` and `next_stage_img`, which are for boot services events.
pub record RehashCtx : Type 0 where
  pub algo : TpmAlgoInfo
  pub boot_entry_path : Option CString
  pub boot_entry : Option UapiBootEntry

-- A "%s" for a string that may be NULL.
unfoldable pub formatted : Option CString → Outcome CString
formatted none = undefined
formatted (some s) = ok s

-- `boot_entry->options? : ""`
abbrev pub or_empty : Option CString → CString
or_empty none = []
or_empty (some s) = s

-- __grub_file_join() of the device that was logged and a path of the next boot entry.
unfoldable pub next_file : Option CString → Option CString → Outcome CString
unfolding formatted
next_file device path = do
  p ← formatted path
  ok (grub_file_join (record { device = device; path = p }))

-- The texts of the three commands for the next boot entry.
unfoldable pub next_linux : GrubFile → UapiBootEntry → Outcome CString
unfolding formatted
next_linux f entry = do
  file ← next_file f.device entry.image_path
  options ← formatted entry.options
  ok (codes "linux " ++ (file ++ (b' ' ∷ options)))

unfoldable pub next_initrd : GrubFile → UapiBootEntry → Outcome CString
next_initrd f entry = do file ← next_file f.device entry.initrd_path; ok (codes "initrd " ++ file)

unfoldable pub next_cmdline : GrubFile → UapiBootEntry → Outcome CString
unfolding formatted
next_cmdline f entry = do
  file ← next_file f.device entry.image_path
  options ← formatted entry.options
  ok (file ++ (b' ' ∷ options))

-- The command for the next boot entry where there is one and the event names a file, and otherwise the
-- text that was logged.
unfoldable pub command_string :
    (GrubFile → UapiBootEntry → Outcome CString)
    → Option UapiBootEntry
    → Option GrubFile
    → CString
    → Outcome CString
command_string next (some entry) (some f) string = next f entry
command_string next (some entry) none string = ok string
command_string next none f string = ok string

-- The first bytes of `cmdline_utf16[4096]` that iconv() fills; what it does not fill is not initialized,
-- and it is given no room for its NUL behind a text that fills the array.
unfoldable pub utf16_cmdline : (Octets → Option Octets) → CString → Outcome Octets
utf16_cmdline convert_to_utf16le cmdline =
    let len = (length cmdline + 1) * 2 in
    elim (convert_to_utf16le (cmdline ++ (0 ∷ []))) [
      | none ↦ undefined
      | some bs ↦ do defined_if (length bs == len && ltb len 4096); ok bs
    ]

abbrev pub on_system_partition : GrubFile → Bool
on_system_partition f = elim f.device [
  | none ↦ true
  | some device ↦ octets_eq device (codes "crypto0") || starts_with (codes "/boot/") f.path
]

module _ (evp : Evp) (sys : System) where
  -- A kernel or an initrd of the EFI boot partition: the one that takes its place at the next boot.
  unfoldable pub next_image_rehash : GrubFile → RehashCtx → Outcome (Option TpmEvdigest)
  next_image_rehash f ctx = elim ctx.boot_entry [
    | none ↦ runtime_digest_efi_file evp sys ctx.algo (some f.path)
    | some entry ↦
        if sdb_is_kernel sys.entry_tokens f.path
        then runtime_digest_efi_file evp sys ctx.algo entry.image_path
        else if sdb_is_initrd sys.entry_tokens f.path
        then runtime_digest_efi_file evp sys ctx.algo entry.initrd_path
        else runtime_digest_efi_file evp sys ctx.algo (some f.path)
  ]

  unfoldable pub boot_partition_rehash : GrubFile → RehashCtx → Outcome (Option TpmEvdigest)
  boot_partition_rehash f ctx = elim ctx.boot_entry_path [
    | none ↦ next_image_rehash f ctx
    | some entry_path ↦
        if sdb_is_boot_entry f.path
        then runtime_digest_rootfs_file evp sys ctx.algo entry_path
        else next_image_rehash f ctx
  ]

  unfoldable pub grub_file_rehash : GrubFile → RehashCtx → Outcome (Option TpmEvdigest)
  grub_file_rehash f ctx =
      if on_system_partition f
      then runtime_digest_rootfs_file evp sys ctx.algo f.path
      else boot_partition_rehash f ctx

  -- GRUB_EVENT_COMMAND and the three commands with a file.
  unfoldable pub grub_string_rehash : Outcome CString → RehashCtx → Outcome (Option TpmEvdigest)
  grub_string_rehash string ctx = do str ← string; digest_compute evp ctx.algo str

  unfoldable pub grub_command_rehash :
      (GrubFile → UapiBootEntry → Outcome CString)
      → GrubCommandEvent
      → RehashCtx
      → Outcome (Option TpmEvdigest)
  unfolding grub_string_rehash
  grub_command_rehash next e ctx =
      grub_string_rehash (command_string next ctx.boot_entry e.file e.string) ctx

  -- `__tpm_event_rehash_efi_variable`, on what `runtime_read_efi_variable` found.
  variable_digest : TpmAlgoInfo → Option Buffer → Outcome (Option TpmEvdigest)
  variable_digest algo none = ok none
  variable_digest algo (some bp) = digest_buffer evp algo (some bp)

  unfoldable pub shim_rehash : CString → RehashCtx → Outcome (Option TpmEvdigest)
  unfolding variable_digest
  shim_rehash var ctx = sys.read_efi_variable var >>= variable_digest ctx.algo

  -- The command line of systemd-boot, cut to `cmdline[2048]`.
  unfoldable pub next_boot_cmdline : UapiBootEntry → Outcome CString
  unfolding formatted
  next_boot_cmdline entry = do
    path ← formatted entry.initrd_path
    initrd ← path_unix2dos path
    ok (take 2047 (codes "initrd=" ++ (initrd ++ (b' ' ∷ or_empty entry.options))))

  unfoldable pub entry_cmdline_rehash : UapiBootEntry → RehashCtx → Outcome (Option TpmEvdigest)
  entry_cmdline_rehash entry ctx = elim entry.image_path [
    | none ↦ ok none
    | some image_path ↦ do
      cmdline ← next_boot_cmdline entry
      utf16 ← utf16_cmdline sys.convert_to_utf16le cmdline
      digest_compute evp ctx.algo utf16
  ]

  unfoldable pub entry_initrd_rehash : UapiBootEntry → RehashCtx → Outcome (Option TpmEvdigest)
  entry_initrd_rehash entry ctx = elim entry.initrd_path [
    | none ↦ ok none
    | some path ↦ runtime_digest_efi_file evp sys ctx.algo (some path)
  ]

  module _ {Bsa : Type 0} where
    -- Without a boot entry the logged digest stands.
    unfoldable pub or_logged_digest :
        (UapiBootEntry → RehashCtx → Outcome (Option TpmEvdigest))
        → TpmEvent (BootEvent Bsa)
        → RehashCtx
        → Outcome (Option TpmEvdigest)
    or_logged_digest rehash ev ctx = elim ctx.boot_entry [
      | none ↦ ok (tpm_event_get_digest ev ctx.algo)
      | some entry ↦ rehash entry ctx
    ]

    unfoldable pub systemd_rehash :
        TpmEvent (BootEvent Bsa) → RehashCtx → Outcome (Option TpmEvdigest)
    unfolding or_logged_digest
    systemd_rehash ev ctx = or_logged_digest entry_cmdline_rehash ev ctx

    unfoldable pub tag_initrd_rehash :
        TpmEvent (BootEvent Bsa) → RehashCtx → Outcome (Option TpmEvdigest)
    unfolding or_logged_digest
    tag_initrd_rehash ev ctx = or_logged_digest entry_initrd_rehash ev ctx

    -- The function that the parser chose by the id.
    unfoldable pub tag_rehash :
        ℕ → TpmEvent (BootEvent Bsa) → RehashCtx → Outcome (Option TpmEvdigest)
    tag_rehash id ev ctx =
        if id == loader_conf_event_tag_id
        then runtime_digest_efi_file evp sys ctx.algo (some (codes "/loader/loader.conf"))
        else if id == load_options_event_tag_id
        then systemd_rehash ev ctx
        else if id == initrd_event_tag_id
        then tag_initrd_rehash ev ctx
        else ok none

    -- The functions of src/efi-variable.c, src/efi-gpt.c and src/efi-application.c.
    module _
        (rehash_efi : TpmEvent (BootEvent Bsa)
          → BootEvent Bsa
          → RehashCtx
          → Outcome (Option TpmEvdigest)) where
      rehash_boot_event :
          TpmEvent (BootEvent Bsa) → BootEvent Bsa → RehashCtx → Outcome (Option TpmEvdigest)
      rehash_boot_event ev (grub_linux e) ctx = grub_command_rehash next_linux e ctx
      rehash_boot_event ev (grub_initrd e) ctx = grub_command_rehash next_initrd e ctx
      rehash_boot_event ev (kernel_cmdline e) ctx = grub_command_rehash next_cmdline e ctx
      rehash_boot_event ev (shim_event string var) ctx = shim_rehash var ctx
      rehash_boot_event ev (systemd_event bs) ctx = systemd_rehash ev ctx
      rehash_boot_event ev (tag_event id bs) ctx = tag_rehash id ev ctx
      rehash_boot_event ev (efi_variable e) ctx = rehash_efi ev (efi_variable e) ctx
      rehash_boot_event ev (efi_gpt e) ctx = rehash_efi ev (efi_gpt e) ctx
      rehash_boot_event ev (efi_bsa e) ctx = rehash_efi ev (efi_bsa e) ctx
      rehash_boot_event ev blank ctx = ok none

      -- Through the pointer `rehash`, which is NULL in a blank form.
      unfoldable pub tpm_parsed_event_rehash :
          TpmEvent (BootEvent Bsa)
          → Option (ParsedEvent (BootEvent Bsa))
          → RehashCtx
          → Outcome (Option TpmEvdigest)
      unfolding rehash_boot_event
      tpm_parsed_event_rehash ev none ctx = ok none
      tpm_parsed_event_rehash ev (some (grub_command string argv)) ctx =
          grub_string_rehash (ok string) ctx
      tpm_parsed_event_rehash ev (some (grub_file f)) ctx = grub_file_rehash f ctx
      tpm_parsed_event_rehash ev (some (other_event e)) ctx = rehash_boot_event ev e ctx
