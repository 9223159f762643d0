-- ===== src/EventLog/Variable/Overflow.antt =====
-- src/efi-variable.c builds the event of a variable: the NUL that __convert of src/util.c stores behind
-- the name.
use pcr_oracle.Common.{
  ℕ, ◌+◌, ◌*◌, ◌%◌, ◌<◌, ◌≡◌, refl, Option, some, ltb, arith, length, take, take_all, false,
}
use pcr_oracle.Common.Bytes.{Octets, CString}
use pcr_oracle.Common.Words.{u32_mod, le_octets, length-le_octets}
use pcr_oracle.Common.Outcome.{undefined}
use pcr_oracle.Buffer.{
  Buffer, buffer_alloc_write, buffer_put_u64le, buffer_put_utf16le, put_converted,
}
use pcr_oracle.Buffer.Contents.{buffer_put_room}
use pcr_oracle.Buffer.Writes.{alloc_lem}
use pcr_oracle.EventLog.Forms.{EfiVariableEvent}
use pcr_oracle.EventLog.Variable.{
  tpm_event_efi_variable_build_event, tpm_event_marshal_efi_variable,
}

-- iconv() gives two bytes for each byte of the name, as it does for ASCII.
pub record FillsMemory (to_utf16le : Octets → Option Octets) (name : CString) : Type 0 where
  pub utf16 : Octets
  pub there : to_utf16le name ≡ some utf16
  pub twice : length utf16 ≡ 2 * length name

-- A variable with a GUID of 16 bytes, which fits a buffer of 4 GB.
pub record IsBuildable (e : EfiVariableEvent) (raw : Octets) : Type 0 where
  pub guid_size : length e.variable_guid ≡ 16
  pub small : 40 + 2 * length e.variable_name + length raw < u32_mod

module _ (to_utf16le : Octets → Option Octets) (malloc : ℕ → Octets) where
  put_utf16le-overflows :
      (bp : Buffer) (name : CString)
      → 2 * length name < u32_mod
      → FillsMemory to_utf16le name
      → buffer_put_utf16le to_utf16le malloc bp name ≡ undefined
  unfolding buffer_put_utf16le put_converted
  put_utf16le-overflows bp name small f =
      let len : length name % u32_mod ≡ length name = omega arith in
      let size : 2 * length name % u32_mod ≡ 2 * length name = omega arith in
      let whole : take (length name) name ≡ name =
        take_all {A = ℕ} name (length name) (omega arith) in
      let fits : ltb (2 * length name) (length f.utf16) ≡ false = ground (arith, f.twice) in
      let full : ltb (length f.utf16) (2 * length name) ≡ false = ground (arith, f.twice) in
      rw (len, size, whole, f.there, fits, full) refl

  -- With memory of the size asked for, a variable whose name iconv() turns into two bytes for each byte
  -- cannot be built: the NUL behind the name is stored past the memory for it.
  pub build_event-overflows :
      (e : EfiVariableEvent) (raw : Octets)
      → ((n : ℕ) → length (malloc n) ≡ n)
      → FillsMemory to_utf16le e.variable_name
      → IsBuildable e raw
      → tpm_event_efi_variable_build_event to_utf16le malloc e raw ≡ undefined
  unfolding tpm_event_efi_variable_build_event tpm_event_marshal_efi_variable buffer_put_u64le
  build_event-overflows e raw sized f b =
      let n = length e.variable_name in
      let size = 16 + 8 + 8 + 2 * n + length raw in
      let (well, empty, start, room, bound) =
        alloc_lem malloc size sized (omega (arith, b.small)) in
      let var_len : n % u32_mod ≡ n = omega (arith, b.small) in
      let eight = length-le_octets 8 n in
      let eight' = length-le_octets 8 (length raw) in
      let (bp1, put1, w1) =
        buffer_put_room (buffer_alloc_write malloc size) e.variable_guid well
          (omega (arith, start, room, b.guid_size)) in
      let (bp2, put2, w2) =
        buffer_put_room bp1 (le_octets 8 n) w1.well_formed
          (omega (arith, w1.position, w1.same_size, start, room, b.guid_size, eight)) in
      let (bp3, put3, w3) = buffer_put_room bp2 (le_octets 8 (length raw)) w2.well_formed (
        omega (
          arith, w1.position, w1.same_size, w2.position, w2.same_size, start, room, b.guid_size,
          eight, eight',
        )) in
      rw
        (
          var_len,
          put1,
          put2,
          put3,
          put_utf16le-overflows bp3 e.variable_name (omega (arith, b.small)) f,
        )
        refl
