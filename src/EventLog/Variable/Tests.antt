-- ===== src/EventLog/Variable/Tests.antt =====
-- Runs of src/efi-variable.c, and the theorems at concrete inputs.
use pcr_oracle.Common.{
  ℕ, ◌≡◌, refl, none, some, [], ◌∷◌, arith, length, replicate, length-replicate,
}
use pcr_oracle.Common.Bytes.{Octets, codes, octets_eq}
use pcr_oracle.Common.Outcome.{ok, undefined}
use pcr_oracle.Common.Words.{le_octets}
use pcr_oracle.Buffer.{Buffer, buffer_init_read, buffer_available, buffer_read_pointer}
use pcr_oracle.Digest.{
  TpmEvdigest, digest_compute, digest_equal, digest_ctx_new, digest_ctx_update, digest_ctx_final,
  zero_digest,
}
use pcr_oracle.Digest.Compute.{digest_of}
use pcr_oracle.Digest.Sample.{first_bytes, sha256}
use pcr_oracle.Runtime.{System}
use pcr_oracle.EventLog.{
  TpmEvent, copy, efi_variable_driver_config, tpm_event_get_digest, find_digest,
}
use pcr_oracle.EventLog.Forms.{EfiVariableEvent}
use pcr_oracle.EventLog.Variable.{tpm_event_parse_efi_variable}
use pcr_oracle.EventLog.Variable.Layout.{
  IsName, IsStorable, event_octets, tpm_event_parse_efi_variable-event_octets,
}
use pcr_oracle.EventLog.Variable.Rehash.{efi_variable_rehash, bytes_of, tpm_event_decode_uuid}
use pcr_oracle.EventLog.Variable.Rehash.Unchanged.{IsReadable, efi_variable_rehash-overflows}

-- ASCII in UTF-16, and back.
abbrev widen : Octets → Octets
widen [] = []
widen (c ∷ s) = c ∷ 0 ∷ widen s

abbrev narrow : Octets → Octets
narrow [] = []
narrow (c ∷ []) = []
narrow (c ∷ d ∷ s) = c ∷ narrow s

abbrev zeros : ℕ → Octets
zeros n = replicate n 0

abbrev boot_order : EfiVariableEvent
boot_order = record {
  variable_guid = 0x61 ∷ 0xdf ∷ 0xe4 ∷ 0x8b ∷ 0xca ∷ 0x93 ∷ 0xd2 ∷ 0x11 ∷ replicate 8 0xaa;
  variable_name = codes "db";
  len = 3;
  octets = 1 ∷ 2 ∷ 3 ∷ [];
}

abbrev event_bytes : Octets
event_bytes = event_octets boot_order.variable_guid 2 (widen (codes "db")) (1 ∷ 2 ∷ 3 ∷ [])

uuid_runs :
    tpm_event_decode_uuid boot_order.variable_guid ≡ codes "8be4df61-93ca-11d2-aaaa-aaaaaaaaaaaa"
unfolding tpm_event_decode_uuid
uuid_runs = refl

db-IsName : IsName (λ n s. some (narrow s)) (codes "db") 2 (widen (codes "db"))
db-IsName = record { back = refl; units = refl; no_nul = (cc, (cc, tt)) }

boot_order-IsStorable : IsStorable boot_order.variable_guid 2 (1 ∷ 2 ∷ 3 ∷ [])
boot_order-IsStorable = record {
  guid_size = refl;
  small_name = omega arith;
  small_value = omega arith;
}

tpm_event_parse_efi_variable-event_octets_example :
    tpm_event_parse_efi_variable
      (λ n s. some (narrow s))
      (buffer_init_read event_bytes (length event_bytes))
    ≡ some boot_order
tpm_event_parse_efi_variable-event_octets_example =
    tpm_event_parse_efi_variable-event_octets (λ n s. some (narrow s)) boot_order.variable_guid
      (codes "db") 2 (widen (codes "db")) (1 ∷ 2 ∷ 3 ∷ []) db-IsName boot_order-IsStorable

abbrev value_now : Buffer
value_now = record { rpos = 0; wpos = 3; size = 8; octets = 1 ∷ 2 ∷ 3 ∷ 0 ∷ [] }

abbrev one_variable : System
one_variable = record {
  read_file = λ name. ok none;
  read_efi_variable = λ name. ok (some value_now);
  entry_tokens = [];
  convert_to_utf16le = λ s. some (widen s);
}

abbrev of_event : TpmEvdigest
of_event = digest_of first_bytes sha256 tt event_bytes

abbrev of_value : TpmEvdigest
of_value = digest_of first_bytes sha256 tt (1 ∷ 2 ∷ 3 ∷ [])

-- The event with one digest in the log.
abbrev logged_with : TpmEvdigest → TpmEvent (Unit {0})
logged_with md = record {
  event_index = 0;
  parsed = none;
  pcr_index = 7;
  event_type = efi_variable_driver_config;
  pcr_values = md ∷ [];
  event_data = event_bytes;
  rehash_strategy = copy;
  predicted_digest = zero_digest;
}

logged_with-IsReadable :
    (md : TpmEvdigest)
    → tpm_event_get_digest (logged_with md) sha256 ≡ some md
    → IsReadable first_bytes one_variable sha256 (logged_with md) boot_order value_now md of_event
unfolding digest_compute digest_ctx_new digest_ctx_update digest_ctx_final
logged_with-IsReadable md h = record {
  logged = h;
  no_authority = refl;
  there = refl;
  event_digest = refl;
}

-- The firmware hashed the event.
efi_variable_rehash-overflows_example :
    efi_variable_rehash first_bytes one_variable zeros none sha256 (logged_with of_event) boot_order
    ≡ undefined
unfolding digest_equal octets_eq le_octets bytes_of buffer_available buffer_read_pointer
efi_variable_rehash-overflows_example =
    efi_variable_rehash-overflows first_bytes one_variable zeros none sha256 (logged_with of_event)
      boot_order value_now of_event of_event
      (logged_with-IsReadable of_event (unfold tpm_event_get_digest find_digest in refl)) refl
      (λ n. length-replicate n 0)
      (record { utf16 = widen (codes "db"); there = refl; twice = refl })
      (record { guid_size = refl; small = omega arith })
