-- ===== src/EventLog/Variable/Layout.antt =====
-- The layout of an EFI variable event, and the parser of src/efi-variable.c on it.
use pcr_oracle.Common.{
  ℕ, ◌+◌, ◌*◌, ◌%◌, ◌^◌, ◌<◌, ◌≡◌, ◌≢◌, ◌∙◌, refl, ap, ap₂, sym, Option, some, [], ◌∷◌, ◌++◌, arith,
  length, length-append, append-nil, All,
}
use pcr_oracle.Common.Bytes.{Octets, CString}
use pcr_oracle.Common.Words.{u32_mod, u64_mod, le_octets, length-le_octets}
use pcr_oracle.Common.Text.{c_string}
use pcr_oracle.Buffer.{Buffer, buffer_init_read, buffer_get, buffer_get_u64le, buffer_get_utf16le}
use pcr_oracle.Buffer.Invariant.{IsWellFormed}
use pcr_oracle.Buffer.Contents.{contents, contents-buffer_init_read, buffer_get_front}
use pcr_oracle.Buffer.RoundTrip.{get_width-contents, get_width, u64}
use pcr_oracle.EventLog.Variable.{
  tpm_event_parse_efi_variable, guid_field, name_len_field, data_len_field, name_field, value_field,
}

-- A name of `n` UTF-16 units, as iconv() turns it into UTF-8.
pub record IsName (from_utf16le : ℕ → Octets → Option Octets) (name : CString) (n : ℕ)
    (utf16 : Octets) : Type 0 where
  pub back : from_utf16le (2 * n) utf16 ≡ some name
  pub units : length utf16 ≡ 2 * n
  pub no_nul : All (λ c. c ≢ 0) name

-- A variable with a GUID of 16 bytes, whose name and value have fewer than 2^32 bytes each.
pub record IsStorable (guid : Octets) (n : ℕ) (raw : Octets) : Type 0 where
  pub guid_size : length guid ≡ 16
  pub small_name : 2 * n < u32_mod
  pub small_value : length raw < u32_mod

-- The layout of the event: the GUID, the number of UTF-16 units, the size of the value, the name and
-- the value.
abbrev pub event_octets : Octets → ℕ → Octets → Octets → Octets
event_octets guid n utf16 raw =
    guid ++ (le_octets 8 n ++ (le_octets 8 (length raw) ++ (utf16 ++ raw)))

c_string_whole : (s : CString) → All (λ c. c ≢ 0) s → c_string s ≡ s
unfolding c_string
c_string_whole [] h = refl
c_string_whole (c ∷ s) (n, h) = ground (arith, c_string_whole s h)

init_read-IsWellFormed :
    (bs : Octets) → length bs < u64_mod → IsWellFormed (buffer_init_read bs (length bs))
unfolding buffer_init_read
init_read-IsWellFormed bs small = record {
  read_le = omega arith;
  write_le = omega arith;
  fits = omega arith;
  word = small;
}

read_u64 :
    (v : ℕ) (rest : Octets) (bp : Buffer)
    → v < 2 ^ 64
    → IsWellFormed bp
    → contents bp ≡ le_octets 8 v ++ rest
    → (bp' : Buffer) × (buffer_get_u64le bp ≡ some (v, bp'))
      × (contents bp' ≡ rest)
      × IsWellFormed bp'
unfolding get_width
read_u64 v rest bp small w c =
    get_width-contents (record { width = u64; value = v }) rest w (omega arith) c

module _ (from_utf16le : ℕ → Octets → Option Octets) where
  get_utf16le_lem :
      (bp bp' : Buffer) (n : ℕ) (utf16 name : Octets)
      → 2 * n < u32_mod
      → buffer_get bp (2 * n) ≡ some (utf16, bp')
      → from_utf16le (2 * n) utf16 ≡ some name
      → buffer_get_utf16le from_utf16le bp n ≡ (some name, bp')
  unfolding buffer_get_utf16le
  get_utf16le_lem bp bp' n utf16 name small g h =
      let count : 2 * n % u32_mod ≡ 2 * n = omega arith in
      let in_bytes : 2 * n % u64_mod ≡ 2 * n = omega arith in
      rw (buffer_get_utf16le, count, g, in_bytes, h) refl

  parse_lem :
      (bp : Buffer) (guid : Octets) (name : CString) (n : ℕ) (utf16 raw : Octets)
      → IsName from_utf16le name n utf16
      → IsStorable guid n raw
      → IsWellFormed bp
      → contents bp ≡ event_octets guid n utf16 raw
      → tpm_event_parse_efi_variable from_utf16le bp
        ≡ some
            (record { variable_guid = guid; variable_name = name; len = length raw; octets = raw })
  unfolding tpm_event_parse_efi_variable guid_field name_len_field data_len_field name_field
      value_field
  parse_lem bp guid name n utf16 raw conv store w c =
      let (bp1, g1, w1, c1) = buffer_get_front guid _ w c in
      let (bp2, g2, c2, w2) = read_u64 n _ bp1 (omega (arith, store.small_name)) w1 c1 in
      let (bp3, g3, c3, w3) =
        read_u64 (length raw) _ bp2 (omega (arith, store.small_value)) w2 c2 in
      let (bp4, g4, w4, c4) = buffer_get_front utf16 raw w3 c3 in
      let (bp5, g5, w5, c5) = buffer_get_front raw [] w4 (c4 ∙ sym (append-nil raw)) in
      let m = length raw in
      let fits : m % u32_mod ≡ m = omega (arith, store.small_value) in
      ap (guid_field from_utf16le) (ap (buffer_get bp) (sym store.guid_size) ∙ g1)
      ∙ ap (name_len_field from_utf16le guid) g2
      ∙ ap (data_len_field from_utf16le guid n) g3
      ∙ ap (name_field guid m) (
          get_utf16le_lem bp3 bp4 n utf16 name store.small_name
            (ap (buffer_get bp3) (sym conv.units) ∙ g4) conv.back)
      ∙ ap (value_field guid (c_string name) m) (ap (buffer_get bp4) fits ∙ g5)
      ∙ ap₂
          (λ text len.
            some (record { variable_guid = guid; variable_name = text; len = len; octets = raw }))
          (c_string_whole name conv.no_nul) fits

  -- The event of a variable with a GUID of 16 bytes, a name of `n` UTF-16 units that iconv() turns into a
  -- text without a NUL, and a value, with fewer than 2^32 bytes each, is parsed as the GUID, the text
  -- and the value.
  pub tpm_event_parse_efi_variable-event_octets :
      (guid : Octets) (name : CString) (n : ℕ) (utf16 raw : Octets)
      → IsName from_utf16le name n utf16
      → IsStorable guid n raw
      → tpm_event_parse_efi_variable from_utf16le (
          buffer_init_read (event_octets guid n utf16 raw) (length (event_octets guid n utf16 raw)))
        ≡ some
            (record { variable_guid = guid; variable_name = name; len = length raw; octets = raw })
  tpm_event_parse_efi_variable-event_octets guid name n utf16 raw conv store =
      let bytes = event_octets guid n utf16 raw in
      let n8 = le_octets 8 n in
      let raw8 = le_octets 8 (length raw) in
      let size : length bytes ≡ 32 + 2 * n + length raw = omega (
        arith,
        length-append guid (n8 ++ (raw8 ++ (utf16 ++ raw))),
        length-append n8 (raw8 ++ (utf16 ++ raw)),
        length-append raw8 (utf16 ++ raw),
        length-append utf16 raw,
        length-le_octets 8 n,
        length-le_octets 8 (length raw),
        store.guid_size,
        conv.units,
      ) in
      parse_lem (buffer_init_read bytes (length bytes)) guid name n utf16 raw conv store
        (init_read-IsWellFormed bytes (omega (arith, size, store.small_name, store.small_value)))
        (contents-buffer_init_read bytes)
