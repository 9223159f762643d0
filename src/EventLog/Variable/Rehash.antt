-- ===== src/EventLog/Variable/Rehash.antt =====
-- `__tpm_event_efi_variable_rehash` of src/efi-variable.c, with what it calls of that file.
pub mod Unchanged
use pcr_oracle.Common.{
  ℕ, ◌+◌, Bool, true, false, not, ◌&&◌, ◌||◌, Option, none, some, List, [], ◌∷◌, ◌++◌, ◌==◌,
  if◌then◌else◌, take, drop,
}
use pcr_oracle.Common.Bytes.{Octets, CString, codes, octets_eq}
use pcr_oracle.Common.Outcome.{Outcome, ok, fatal, undefined, ◌>>=◌}
use pcr_oracle.Buffer.{Buffer, buffer_read_pointer, buffer_available}
use pcr_oracle.Digest.{TpmAlgoInfo, TpmEvdigest, digest_compute, digest_equal}
use pcr_oracle.Digest.Openssl.{Evp}
use pcr_oracle.Util.Hex.{hex_octets}
use pcr_oracle.Runtime.{System}
use pcr_oracle.EventLog.{
  TpmEvent, tpm_event_get_digest, efi_variable_authority, efi_variable_driver_config,
}
use pcr_oracle.EventLog.Forms.{EfiVariableEvent}
use pcr_oracle.EventLog.Shim.{shim_variable_get_full_rtname}
use pcr_oracle.EventLog.Variable.{tpm_event_efi_variable_build_event}

-- `k` bytes from position `i` on.
abbrev pub field : ℕ → ℕ → Octets → Octets
field i k bs = take k (drop i bs)

abbrev reversed : Octets → Octets
reversed [] = []
reversed (b ∷ bs) = reversed bs ++ (b ∷ [])

-- The first three fields are little-endian numbers.
unfoldable pub tpm_event_decode_uuid : Octets → CString
unfolding hex_octets
tpm_event_decode_uuid bs =
    hex_octets (reversed (field 0 4 bs))
    ++ (b'-' ∷ hex_octets (reversed (field 4 2 bs))
        ++ (b'-' ∷ hex_octets (reversed (field 6 2 bs))
            ++ (b'-' ∷ hex_octets (field 8 2 bs) ++ (b'-' ∷ hex_octets (field 10 6 bs)))))

-- The copy that shim makes, or snprintf() of the name and the GUID into `varname[256]`.
unfoldable pub extract_full_varname : EfiVariableEvent → CString
extract_full_varname e = elim (shim_variable_get_full_rtname e.variable_name) [
  | some rtname ↦ rtname
  | none ↦ take 255 (e.variable_name ++ (b'-' ∷ tpm_event_decode_uuid e.variable_guid))
]

-- HASH_STRATEGY_*
pub data HashStrategy : Type 0 where
  hash_event hash_data : HashStrategy

-- What is between the positions of a buffer; a NULL buffer has no bytes.
unfoldable pub bytes_of : Option Buffer → Octets
bytes_of none = []
bytes_of (some bp) = take (buffer_available bp) (buffer_read_pointer bp)

-- digest_equal() on the result of digest_compute(), which must not be NULL.
unfoldable pub equals_computed : TpmEvdigest → Option TpmEvdigest → Outcome Bool
equals_computed old_md none = undefined
equals_computed old_md (some md) = ok (digest_equal old_md md)

-- What is read for the variable: EFI_BSA_NOT_FOUND, or a buffer or NULL.
pub data FileData : Type 0 where
  bsa_not_found : FileData
  file : Option Buffer → FileData

-- The signature database of a variable whose event holds one record of it.
unfoldable pub database_of : CString → Option CString
database_of name =
    if octets_eq name (codes "Shim")
    then some (codes "shim-vendor-cert")
    else if octets_eq name (codes "db")
    then some (codes "db")
    else if octets_eq name (codes "MokListRT")
    then some (codes "MokList")
    else none

module _ (evp : Evp) (sys : System) (malloc : ℕ → Octets) where
  -- `next_stage` looks up the record of the signer of `ctx->next_stage_img` in a database; it is `none`
  -- where there is no such image.
  unfoldable pub authority_get_record :
      Option (CString → Outcome (Option Buffer)) → EfiVariableEvent → CString → Outcome FileData
  authority_get_record next_stage e var_name = elim (database_of e.variable_name) [
    | none ↦ do data_read ← sys.read_efi_variable var_name; ok (file data_read)
    | some db_name ↦ elim next_stage [
      | none ↦ ok bsa_not_found
      | some find_record ↦ do record_read ← find_record db_name; ok (file record_read)
    ]
  ]

  -- The bytes to hash; the process ends if the event cannot be built.
  unfoldable pub data_to_hash : HashStrategy → EfiVariableEvent → Option Buffer → Outcome Octets
  data_to_hash hash_data e file_data = ok (bytes_of file_data)
  data_to_hash hash_event e file_data =
      tpm_event_efi_variable_build_event sys.convert_to_utf16le malloc e (bytes_of file_data)
      >>= λ event_data. elim event_data [ none ↦ fatal | some bp ↦ ok (bytes_of (some bp)) ]

  module _ {Other : Type 0} where
    -- With the logged digest; the strategy where neither fits is to hash the data.
    unfoldable pub strategy_for :
        TpmAlgoInfo → TpmEvent Other → EfiVariableEvent → TpmEvdigest → Outcome HashStrategy
    strategy_for algo ev e old_md = do
      md ← digest_compute evp algo ev.event_data
      same ← equals_computed old_md md
      if same then ok hash_event else do
        md' ← digest_compute evp algo e.octets
        same' ← equals_computed old_md md'
        ok hash_data

    -- A variable that is gone, which counts in PCR 7 and for a driver's configuration only.
    unfoldable pub is_skipped : TpmEvent Other → Option Buffer → Bool
    is_skipped ev none =
        not (ev.event_type == efi_variable_driver_config) && not (ev.pcr_index == 7)
    is_skipped ev (some bp) = false

    unfoldable pub hash_file :
        TpmAlgoInfo
        → TpmEvent Other
        → EfiVariableEvent
        → HashStrategy
        → FileData
        → Outcome (Option TpmEvdigest)
    hash_file algo ev e strategy bsa_not_found = ok (tpm_event_get_digest ev algo)
    hash_file algo ev e strategy (file file_data) =
        if is_skipped ev file_data
        then ok (if e.len == 0 then tpm_event_get_digest ev algo else none)
        else data_to_hash strategy e file_data >>= digest_compute evp algo

    unfoldable pub read_file_data :
        Option (CString → Outcome (Option Buffer))
        → TpmEvent Other
        → EfiVariableEvent
        → Outcome FileData
    read_file_data next_stage ev e =
        if ev.event_type == efi_variable_authority
        then authority_get_record next_stage e (extract_full_varname e)
        else (do data_read ← sys.read_efi_variable (extract_full_varname e); ok (file data_read))

    unfoldable pub efi_variable_rehash :
        Option (CString → Outcome (Option Buffer))
        → TpmAlgoInfo
        → TpmEvent Other
        → EfiVariableEvent
        → Outcome (Option TpmEvdigest)
    efi_variable_rehash next_stage algo ev e = elim (tpm_event_get_digest ev algo) [
      | none ↦ ok none
      | some old_md ↦ do
        strategy ← strategy_for algo ev e old_md
        file_data ← read_file_data next_stage ev e
        hash_file algo ev e strategy file_data
    ]
