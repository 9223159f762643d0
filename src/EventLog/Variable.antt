-- ===== src/EventLog/Variable.antt =====
-- src/efi-variable.c: the event of an EFI variable, parsed and built anew.
pub mod Layout
pub mod Overflow
mod Tests
pub mod Rehash
use pcr_oracle.Common.{ℕ, ◌+◌, ◌*◌, ◌%◌, Bool, not, Option, none, some, ◌==◌, if◌then◌else◌, length}
use pcr_oracle.Common.Bytes.{Octets, CString}
use pcr_oracle.Common.Words.{u32_mod}
use pcr_oracle.Common.Outcome.{Outcome, ok, ◌>>=◌, or_failed}
use pcr_oracle.Common.Text.{c_string}
use pcr_oracle.Buffer.{
  Buffer, buffer_get, buffer_get_u64le, buffer_get_utf16le, buffer_alloc_write, buffer_put,
  buffer_put_u64le, buffer_put_utf16le,
}
use pcr_oracle.Buffer.Writes.{and_then}
use pcr_oracle.EventLog.Forms.{EfiVariableEvent}

-- The value behind the name. `len` and the count of `buffer_get` are unsigned ints.
value_field : Octets → CString → ℕ → Option (Octets × Buffer) → Option EfiVariableEvent
value_field guid name data_len none = none
value_field guid name data_len (some (bs, bp)) =
    some
      (record { variable_guid = guid; variable_name = name; len = data_len % u32_mod; octets = bs })

-- The name in UTF-16.
name_field : Octets → ℕ → Option Octets × Buffer → Option EfiVariableEvent
unfolding value_field
name_field guid data_len (none, bp) = none
name_field guid data_len (some name, bp) =
    value_field guid (c_string name) data_len (buffer_get bp (data_len % u32_mod))

module _ (convert_from_utf16le : ℕ → Octets → Option Octets) where
  data_len_field : Octets → ℕ → Option (ℕ × Buffer) → Option EfiVariableEvent
  unfolding name_field
  data_len_field guid name_len none = none
  data_len_field guid name_len (some (data_len, bp)) =
      name_field guid data_len (buffer_get_utf16le convert_from_utf16le bp name_len)

  name_len_field : Octets → Option (ℕ × Buffer) → Option EfiVariableEvent
  unfolding data_len_field
  name_len_field guid none = none
  name_len_field guid (some (name_len, bp)) = data_len_field guid name_len (buffer_get_u64le bp)

  guid_field : Option (Octets × Buffer) → Option EfiVariableEvent
  unfolding name_len_field
  guid_field none = none
  guid_field (some (guid, bp)) = name_len_field guid (buffer_get_u64le bp)

  unfoldable pub tpm_event_parse_efi_variable : Buffer → Option EfiVariableEvent
  unfolding guid_field
  tpm_event_parse_efi_variable bp = guid_field (buffer_get bp 16)

-- `name_len != 2 * var_len`, and the value behind the name. `var_len` is an unsigned int.
put_value : ℕ → Octets → Option (Buffer × ℕ) → Option Buffer
put_value var_len raw none = none
put_value var_len raw (some (bp, name_len)) =
    and_then (buffer_put bp raw)
      (λ bp'. if not (name_len == 2 * var_len % u32_mod) then none else some bp')

module _ (convert_to_utf16le : Octets → Option Octets) (malloc : ℕ → Octets) where
  unfoldable pub tpm_event_marshal_efi_variable :
      Buffer → EfiVariableEvent → Octets → Outcome (Option Buffer)
  unfolding put_value
  tpm_event_marshal_efi_variable bp e raw =
      let var_len = length e.variable_name % u32_mod in
      or_failed (buffer_put bp e.variable_guid) (λ bp1.
        or_failed (buffer_put_u64le bp1 var_len) (λ bp2.
          or_failed (buffer_put_u64le bp2 (length raw)) (λ bp3. do
            put ← buffer_put_utf16le convert_to_utf16le malloc bp3 e.variable_name
            ok (put_value var_len raw put))))

  -- `malloc` gives memory of a size.
  unfoldable pub tpm_event_efi_variable_build_event :
      EfiVariableEvent → Octets → Outcome (Option Buffer)
  unfolding tpm_event_marshal_efi_variable
  tpm_event_efi_variable_build_event e raw =
      let size = 16 + 8 + 8 + 2 * length e.variable_name + length raw in
      tpm_event_marshal_efi_variable (buffer_alloc_write malloc size) e raw
