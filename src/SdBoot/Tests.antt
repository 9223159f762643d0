-- ===== src/SdBoot/Tests.antt =====
-- Runs of src/sd-boot.c, and the theorem at a concrete input.
use pcr_oracle.Common.{◌≡◌, refl, true, false, ◌&&◌, [], ◌∷◌}
use pcr_oracle.Common.Booleans.{any}
use pcr_oracle.Common.Bytes.{CString, codes, octets_eq}
use pcr_oracle.Common.Text.{starts_with, strtok}
use pcr_oracle.SdBoot.{
  is_valid_entry_token, sdb_is_kernel, sdb_is_initrd, sdb_is_boot_entry, is_slash,
}
use pcr_oracle.SdBoot.Tokens.{names_token, has_prefix, is_valid_entry_token_lem}

abbrev kernel_path : CString
kernel_path = codes "/suse/6.4/linux-a1"

kernel_runs : sdb_is_kernel (codes "suse" ∷ []) kernel_path ≡ true
unfolding sdb_is_kernel is_valid_entry_token strtok starts_with octets_eq
kernel_runs = refl

initrd_runs : sdb_is_initrd (codes "suse" ∷ []) kernel_path ≡ false
unfolding sdb_is_initrd is_valid_entry_token strtok starts_with octets_eq
initrd_runs = refl

boot_entry_runs : sdb_is_boot_entry (codes "/loader/entries/a.conf") ≡ true
unfolding sdb_is_boot_entry starts_with
boot_entry_runs = refl

is_valid_entry_token_lem_example :
    is_valid_entry_token (codes "suse" ∷ []) kernel_path (codes "linux-") ≡ (
      any (names_token (codes "suse" ∷ [])) (strtok is_slash kernel_path)
      && any (has_prefix (codes "linux-") (codes "suse" ∷ [])) (strtok is_slash kernel_path))
is_valid_entry_token_lem_example =
    is_valid_entry_token_lem (codes "suse" ∷ []) kernel_path (codes "linux-")
