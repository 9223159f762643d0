-- ===== src/SdBoot.antt =====
-- src/sd-boot.c: which paths name a kernel, an initrd or a boot entry of systemd-boot.
pub mod Tokens
mod Tests
use pcr_oracle.Common.{ℕ, Bool, Option, none, some, List, [], ◌∷◌, ◌==◌, if◌then◌else◌, bit_or}
use pcr_oracle.Common.Bytes.{CString, codes, octets_eq}
use pcr_oracle.Common.Text.{starts_with, strtok}

abbrev is_slash : ℕ → Bool
is_slash c = c == b'/'

-- One round of the inner loop, on a component of the path and a token.
match_token : CString → CString → CString → ℕ → ℕ
match_token prefix ptr token found =
    if octets_eq ptr token
    then bit_or found 1
    else if starts_with prefix ptr
    then bit_or found 2
    else found

match_tokens : CString → CString → List CString → ℕ → ℕ
match_tokens prefix ptr [] found = found
match_tokens prefix ptr (token ∷ tokens) found =
    match_tokens prefix ptr tokens (match_token prefix ptr token found)

-- The outer loop over the components.
match_path : CString → List CString → List CString → ℕ → ℕ
match_path prefix [] tokens found = found
match_path prefix (ptr ∷ ptrs) tokens found =
    match_path prefix ptrs tokens (match_tokens prefix ptr tokens found)

-- `tokens` is what `get_valid_kernel_entry_tokens` reads from the running system.
unfoldable pub is_valid_entry_token : List CString → CString → CString → Bool
unfolding match_path match_tokens match_token
is_valid_entry_token tokens application prefix =
    match_path prefix (strtok is_slash application) tokens 0 == 3

unfoldable pub sdb_is_kernel : List CString → CString → Bool
sdb_is_kernel tokens application = is_valid_entry_token tokens application (codes "linux-")

unfoldable pub sdb_is_initrd : List CString → CString → Bool
sdb_is_initrd tokens application = is_valid_entry_token tokens application (codes "initrd-")

unfoldable pub sdb_is_boot_entry : CString → Bool
sdb_is_boot_entry application = starts_with (codes "/loader/entries") application
