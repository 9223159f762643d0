-- ===== src/Authenticode/Pecoff.antt =====
-- src/authenticode.c: the headers and sections of a PE/COFF image, and the ranges taken from them.
pub mod Headers
pub mod Inspected
pub mod Covered
mod Tests
use pcr_oracle.Common.{
  ℕ, ◌+◌, ◌-◌, ◌*◌, ◌%◌, Option, none, some, List, [], ◌∷◌, ◌++◌, ltb, leb, ◌==◌, if◌then◌else◌,
  length, take, get_or,
}
use pcr_oracle.Common.Bytes.{Octets, codes, octets_eq}
use pcr_oracle.Common.Words.{add32, sub32, u32_mod}
use pcr_oracle.Common.Outcome.{Outcome, ok, ◌>>=◌, ◌>>◌, defined_if, or_failed}
use pcr_oracle.Buffer.{Buffer, buffer_seek_read, buffer_read_pointer}
use pcr_oracle.Authenticode.{
  PecoffPlacement, AuthenticodeImageInfo, authenticode_skip, authenticode_add_range,
  authenticode_exclude_range, authenticode_set_range,
}
use pcr_oracle.Authenticode.Pecoff.Headers.{
  PeHdr, PecoffSection, u32_at, pe_fields, part_of, FormatFields, format_fields, read_data_dirs,
  read_sections,
}

-- `data_dirs` and `section` have `num_data_dirs` and `num_sections` elements.
pub record PecoffImageInfo : Type 0 where
  pub pe_hdr : PeHdr
  pub size_of_headers : ℕ
  pub format : ℕ
  pub data_dirs : List PecoffPlacement
  pub section : List PecoffSection
  pub auth_info : AuthenticodeImageInfo

abbrev pub pe_signature : Octets
pe_signature = codes "PE" ++ (0 ∷ 0 ∷ [])

-- `memcmp` reads the four bytes at the offset.
unfoldable pub pecoff_process_header : Buffer → Outcome (Option PeHdr)
pecoff_process_header bp = or_failed (u32_at bp 0x3c) (λ offset.
    or_failed (buffer_seek_read bp offset) (λ at. do
      defined_if (leb 4 (length (buffer_read_pointer at)))
      ok (
          if octets_eq (take 4 (buffer_read_pointer at)) pe_signature
          then pe_fields bp (add32 offset 4)
          else none)))

abbrev pub certtbl_index : ℕ
certtbl_index = 4

-- The table of at least five directories has the certificate table as its element 4.
abbrev pub cert_dir : List PecoffPlacement → PecoffPlacement
cert_dir dirs = get_or dirs certtbl_index (record { addr = 0; size = 0 })

-- The ranges that the optional header at `hdr_offset` gives, once its fields and directories are read.
unfoldable pub cover_headers :
    ℕ
    → FormatFields
    → List PecoffPlacement
    → ℕ
    → AuthenticodeImageInfo
    → Outcome AuthenticodeImageInfo
cover_headers hdr_offset f dirs base info = do
  (base', info1) ←
      authenticode_skip info base (add32 hdr_offset (f.data_dir_offset + 4 + 8 * certtbl_index)) 8
  info2 ← authenticode_exclude_range info1 (cert_dir dirs).addr (cert_dir dirs).size
  info3 ← authenticode_add_range info2 base' (sub32 f.size_of_headers base')
  ok (record info3 { hashed_bytes = f.size_of_headers })

unfoldable pub pecoff_process_optional_header :
    Buffer → PeHdr → AuthenticodeImageInfo → Outcome (Option PecoffImageInfo)
pecoff_process_optional_header bp h info =
    if h.optional_hdr_size == 0
    then ok none
    else or_failed (part_of bp h.optional_hdr_offset h.optional_hdr_size) (λ hdr.
      or_failed (format_fields hdr) (λ f. do
        (base, info1) ← authenticode_skip info 0 (add32 h.optional_hdr_offset 0x40) 4
        or_failed (read_data_dirs hdr f.data_dir_offset) (λ dirs. do
          info2 ← cover_headers h.optional_hdr_offset f dirs base info1
          ok (
              some (record {
                pe_hdr = h;
                size_of_headers = f.size_of_headers;
                format = f.format;
                data_dirs = dirs;
                section = [];
                auth_info = info2;
              })))))

-- A round of the second loop over the sections.
unfoldable pub add_section : PecoffPlacement → AuthenticodeImageInfo → Outcome AuthenticodeImageInfo
add_section raw info = if raw.size == 0 then ok info else (do
  info' ← authenticode_add_range info raw.addr raw.size
  ok (record info' { hashed_bytes = add32 info'.hashed_bytes raw.size }))

unfoldable pub add_sections :
    List PecoffSection → AuthenticodeImageInfo → Outcome AuthenticodeImageInfo
add_sections [] info = ok info
add_sections (sec ∷ rest) info = do info' ← add_section sec.raw info; add_sections rest info'

unfoldable pub pecoff_process_sections : Buffer → PecoffImageInfo → Outcome (Option PecoffImageInfo)
pecoff_process_sections bp img = or_failed (read_sections bp img.pe_hdr) (λ sections. do
  info ← add_sections sections img.auth_info
  ok (some (record img { section = sections; auth_info = info })))

-- What stands behind the hashed bytes is hashed too.
unfoldable pub add_trailing : ℕ → AuthenticodeImageInfo → Outcome AuthenticodeImageInfo
add_trailing wpos info =
    if ltb info.hashed_bytes wpos
    then (do
      let trailing = (wpos - info.hashed_bytes) % u32_mod
      info' ← authenticode_add_range info info.hashed_bytes trailing
      ok (record info' { hashed_bytes = add32 info'.hashed_bytes trailing }))
    else ok info

abbrev pub no_ranges : AuthenticodeImageInfo
no_ranges = record {
  auth_range = record { addr = 0; size = 0 };
  hashed_bytes = 0;
  hole = [];
  area = [];
}

abbrev with_range : AuthenticodeImageInfo → AuthenticodeImageInfo
with_range info = authenticode_set_range info 0 info.hashed_bytes

unfoldable pub pecoff_inspect : Buffer → Outcome (Option PecoffImageInfo)
pecoff_inspect bp = do
  header ← pecoff_process_header bp
  or_failed header (λ h. do
    headers ← pecoff_process_optional_header bp h no_ranges
    or_failed headers (λ img. do
      covered ← pecoff_process_sections bp img
      or_failed covered (λ img'. do
        info ← add_trailing bp.wpos img'.auth_info
        ok (some (record img' { auth_info = with_range info })))))
