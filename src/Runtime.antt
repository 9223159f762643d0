-- ===== src/Runtime.antt =====
-- The digests of files in src/runtime.c and src/digest.c, without a test case to record or to play back.
use pcr_oracle.Common.{Option, none, some, List, ◌++◌, take, ◌-◌}
use pcr_oracle.Common.Bytes.{Octets, CString, codes}
use pcr_oracle.Common.Outcome.{Outcome, undefined, ◌>>=◌}
use pcr_oracle.Buffer.{Buffer}
use pcr_oracle.Digest.{TpmAlgoInfo, TpmEvdigest, digest_buffer}
use pcr_oracle.Digest.Openssl.{Evp}
use pcr_oracle.Util.Paths.{path_max}

-- What the running system gives: its files (`runtime_read_file`), its EFI variables
-- (`runtime_read_efi_variable`), the tokens that its boot entries are named by, and iconv().
pub record System : Type 0 where
  pub read_file : CString → Outcome (Option Buffer)
  pub read_efi_variable : CString → Outcome (Option Buffer)
  pub entry_tokens : List CString
  pub convert_to_utf16le : Octets → Option Octets

module _ (evp : Evp) (sys : System) where
  -- With no flags.
  unfoldable pub digest_from_file : TpmAlgoInfo → CString → Outcome (Option TpmEvdigest)
  digest_from_file algo_info filename = do
    buffer ← sys.read_file filename
    digest_buffer evp algo_info buffer

  -- The path below "/boot/efi", cut to the array. A NULL path has no meaning.
  unfoldable pub runtime_digest_efi_file :
      TpmAlgoInfo → Option CString → Outcome (Option TpmEvdigest)
  runtime_digest_efi_file algo none = undefined
  runtime_digest_efi_file algo (some path) =
      digest_from_file algo (take (path_max - 1) (codes "/boot/efi" ++ path))

  unfoldable pub runtime_digest_rootfs_file : TpmAlgoInfo → CString → Outcome (Option TpmEvdigest)
  runtime_digest_rootfs_file algo path = digest_from_file algo path
