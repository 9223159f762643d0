-- ===== src/EventLog/Variable/Rehash/Unchanged.antt =====
-- The re-hash of an EFI variable by src/efi-variable.c, by what the firmware had hashed.
use pcr_oracle.Common.{ℕ, ◌≡◌, ◌∙◌, refl, true, false, Option, some, ◌==◌, length}
use pcr_oracle.Common.Bytes.{Octets, CString}
use pcr_oracle.Common.Outcome.{Outcome, ok, undefined, ◌>>=◌}
use pcr_oracle.Buffer.{Buffer}
use pcr_oracle.Digest.{TpmAlgoInfo, TpmEvdigest, digest_compute, digest_equal}
use pcr_oracle.Digest.Openssl.{Evp}
use pcr_oracle.Runtime.{System}
use pcr_oracle.EventLog.{TpmEvent, tpm_event_get_digest, efi_variable_authority}
use pcr_oracle.EventLog.Forms.{EfiVariableEvent}
use pcr_oracle.EventLog.Variable.Overflow.{FillsMemory, IsBuildable, build_event-overflows}
use pcr_oracle.EventLog.Variable.Rehash.{
  extract_full_varname, HashStrategy, hash_event, bytes_of, equals_computed, strategy_for,
  data_to_hash, hash_file, read_file_data, efi_variable_rehash, is_skipped,
}

-- An event of a variable that the running system can read, whose logged digest is `old`, and whose data
-- has the digest `of_event`.
pub record IsReadable (evp : Evp) (sys : System) {Other : Type 0} (algo : TpmAlgoInfo)
    (ev : TpmEvent Other) (e : EfiVariableEvent) (now : Buffer) (old of_event : TpmEvdigest)
    : Type 0 where
  pub logged : tpm_event_get_digest ev algo ≡ some old
  pub no_authority : (ev.event_type == efi_variable_authority) ≡ false
  pub there : sys.read_efi_variable (extract_full_varname e) ≡ ok (some now)
  pub event_digest : digest_compute evp algo ev.event_data ≡ ok (some of_event)

module _ (evp : Evp) (sys : System) (malloc : ℕ → Octets) {Other : Type 0} where
  rehash_steps :
      (next_stage : Option (CString → Outcome (Option Buffer))) (algo : TpmAlgoInfo)
      (ev : TpmEvent Other) (e : EfiVariableEvent) (now : Buffer) (old of_event : TpmEvdigest)
      (strategy : HashStrategy)
      → IsReadable evp sys algo ev e now old of_event
      → strategy_for evp sys malloc algo ev e old ≡ ok strategy
      → efi_variable_rehash evp sys malloc next_stage algo ev e
        ≡ (data_to_hash evp sys malloc strategy e (some now) >>= digest_compute evp algo)
  unfolding efi_variable_rehash read_file_data hash_file is_skipped
  rehash_steps next_stage algo ev e now old of_event strategy r s =
      rw (efi_variable_rehash, r.logged, s, r.no_authority, r.there) refl

  strategy-event :
      (algo : TpmAlgoInfo) (ev : TpmEvent Other) (e : EfiVariableEvent) (old md : TpmEvdigest)
      → digest_compute evp algo ev.event_data ≡ ok (some md)
      → digest_equal old md ≡ true
      → strategy_for evp sys malloc algo ev e old ≡ ok hash_event
  unfolding strategy_for equals_computed
  strategy-event algo ev e old md c d = rw (c, d) refl

  -- Where the logged digest is the one of the event's data, iconv() gives two bytes for each byte of the
  -- name, and the GUID has 16 bytes and the event fits 4 GB, the re-hash stores a NUL past the memory
  -- for the name, and C gives it no meaning.
  pub efi_variable_rehash-overflows :
      (next_stage : Option (CString → Outcome (Option Buffer))) (algo : TpmAlgoInfo)
      (ev : TpmEvent Other) (e : EfiVariableEvent) (now : Buffer) (old of_event : TpmEvdigest)
      → IsReadable evp sys algo ev e now old of_event
      → digest_equal old of_event ≡ true
      → ((n : ℕ) → length (malloc n) ≡ n)
      → FillsMemory sys.convert_to_utf16le e.variable_name
      → IsBuildable e (bytes_of (some now))
      → efi_variable_rehash evp sys malloc next_stage algo ev e ≡ undefined
  unfolding data_to_hash
  efi_variable_rehash-overflows next_stage algo ev e now old of_event r d sized f b =
      let s = strategy-event algo ev e old of_event r.event_digest d in
      let overflows =
        build_event-overflows sys.convert_to_utf16le malloc e (bytes_of (some now)) sized f b in
      rehash_steps next_stage algo ev e now old of_event hash_event r s ∙ rw overflows refl
