-- ===== src/Authenticode/Pecoff/Covered.antt =====
-- The image that pecoff_inspect of src/authenticode.c makes: the headers less the checksum and the
-- directory entry of the certificates, the sections, and what stands behind them.
use Prim.Native.Nat.{max}
use pcr_oracle.Common.{
  ℕ, ◌+◌, ◌-◌, ◌≤◌, ◌<◌, ◌≡◌, refl, false, some, List, [], ◌∷◌, ◌++◌, ◌==◌, arith, length,
  length-append,
}
use pcr_oracle.Common.Words.{add32, sub32, u32_mod}
use pcr_oracle.Common.Outcome.{ok}
use pcr_oracle.Buffer.{Buffer}
use pcr_oracle.Authenticode.{
  PecoffPlacement, AuthenticodeImageInfo, authenticode_skip, authenticode_add_range,
  authenticode_exclude_range, authenticode_set_range,
}
use pcr_oracle.Authenticode.Pecoff.{
  PecoffImageInfo, pecoff_process_header, pecoff_process_optional_header, cover_headers, cert_dir,
  pecoff_process_sections, no_ranges, pecoff_inspect,
}
use pcr_oracle.Authenticode.Pecoff.Headers.{
  PeHdr, PecoffSection, part_of, FormatFields, format_fields, read_data_dirs, read_sections,
}
use pcr_oracle.Authenticode.Pecoff.Inspected.{
  range, section_areas, sections_size, with_areas, trailing_areas, add_sections_lem,
  add_trailing_lem,
}

-- What can be read of an image.
pub record IsReadable (bp : Buffer) (h : PeHdr) (f : FormatFields) (dirs : List PecoffPlacement)
    (secs : List PecoffSection) : Type 0 where
  pub hdr : Buffer
  pub header : pecoff_process_header bp ≡ ok (some h)
  pub present : (h.optional_hdr_size == 0) ≡ false
  pub part : part_of bp h.optional_hdr_offset h.optional_hdr_size ≡ some hdr
  pub fields : format_fields hdr ≡ some f
  pub directories : read_data_dirs hdr f.data_dir_offset ≡ some dirs
  pub sections : read_sections bp h ≡ some secs

-- The headers reach behind the entry of the certificates, the areas fit the array of 64, and no number
-- wraps around.
pub record IsBounded (wpos : ℕ) (h : PeHdr) (f : FormatFields) (secs : List PecoffSection)
    : Type 0 where
  pub directory : 32 ≤ f.data_dir_offset
  pub headers : h.optional_hdr_offset + f.data_dir_offset + 44 ≤ f.size_of_headers
  pub few : length (section_areas secs) ≤ 60
  pub small : f.size_of_headers + sections_size secs < u32_mod
  pub word : wpos < u32_mod

-- The headers less four bytes of checksum and eight bytes of directory entry.
abbrev pub header_areas : PeHdr → FormatFields → List PecoffPlacement
header_areas h f =
    let entry = h.optional_hdr_offset + f.data_dir_offset + 36 in
    range 0 (h.optional_hdr_offset + 0x40)
    ∷ range (h.optional_hdr_offset + 0x44) (entry - (h.optional_hdr_offset + 0x44))
    ∷ range (entry + 8) (f.size_of_headers - (entry + 8))
    ∷ []

abbrev header_info : PeHdr → FormatFields → List PecoffPlacement → AuthenticodeImageInfo
header_info h f dirs = record {
  auth_range = range 0 0;
  hashed_bytes = f.size_of_headers;
  hole = cert_dir dirs ∷ [];
  area = header_areas h f;
}

abbrev pub inspected :
    ℕ → PeHdr → FormatFields → List PecoffPlacement → List PecoffSection → PecoffImageInfo
inspected wpos h f dirs secs =
    let hashed = f.size_of_headers + sections_size secs in
    record {
      pe_hdr = h;
      size_of_headers = f.size_of_headers;
      format = f.format;
      data_dirs = dirs;
      section = secs;
      auth_info = record {
        auth_range = range 0 (max hashed wpos);
        hashed_bytes = max hashed wpos;
        hole = cert_dir dirs ∷ [];
        area = header_areas h f ++ section_areas secs ++ trailing_areas hashed wpos;
      };
    }

process_optional_header_lem :
    (bp : Buffer) (h : PeHdr) (f : FormatFields) (dirs : List PecoffPlacement)
    (secs : List PecoffSection)
    → IsReadable bp h f dirs secs
    → IsBounded bp.wpos h f secs
    → pecoff_process_optional_header bp h no_ranges
      ≡ ok (
          some (record {
            pe_hdr = h;
            size_of_headers = f.size_of_headers;
            format = f.format;
            data_dirs = dirs;
            section = [];
            auth_info = header_info h f dirs;
          }))
unfolding pecoff_process_optional_header cover_headers authenticode_skip authenticode_add_range
    authenticode_exclude_range
process_optional_header_lem bp h f dirs secs r b =
    let opt = h.optional_hdr_offset in
    let dir = f.data_dir_offset in
    let checksum : add32 opt 0x40 ≡ opt + 0x40 = omega (arith, b.headers, b.small) in
    let first : sub32 (opt + 0x40) 0 ≡ opt + 0x40 = omega (arith, b.headers, b.small) in
    let behind : add32 (opt + 0x40) 4 ≡ opt + 0x44 = omega (arith, b.headers, b.small) in
    let entry : add32 opt (dir + 4 + 32) ≡ opt + dir + 36 = omega (arith, b.headers, b.small) in
    let second : sub32 (opt + dir + 36) (opt + 0x44) ≡ opt + dir + 36 - (opt + 0x44) =
      omega (arith, b.directory, b.headers, b.small) in
    let last : add32 (opt + dir + 36) 8 ≡ opt + dir + 36 + 8 = omega (arith, b.headers, b.small) in
    let third : sub32 f.size_of_headers (opt + dir + 36 + 8)
        ≡ f.size_of_headers - (opt + dir + 36 + 8) =
      omega (arith, b.headers, b.small) in
    rw
      (
        r.present, r.part, r.fields, r.directories, checksum, first, behind, entry, second, last,
        third,
      )
      refl

-- Where the headers and sections of an image can be read and keep the bounds, the areas are, in this
-- order: the headers less the checksum and the directory entry of the certificates, the sections with
-- bytes in the file in the order of their table, and what the file has behind as many bytes. The one
-- hole is the certificate table, and the range that is hashed covers the file.
pub pecoff_inspect_lem :
    (bp : Buffer) (h : PeHdr) (f : FormatFields) (dirs : List PecoffPlacement)
    (secs : List PecoffSection)
    → IsReadable bp h f dirs secs
    → IsBounded bp.wpos h f secs
    → pecoff_inspect bp ≡ ok (some (inspected bp.wpos h f dirs secs))
unfolding pecoff_inspect pecoff_process_sections authenticode_set_range
pecoff_inspect_lem bp h f dirs secs r b =
    let hashed = f.size_of_headers + sections_size secs in
    let covered =
      with_areas (header_info h f dirs) hashed (header_areas h f ++ section_areas secs) in
    let optional = process_optional_header_lem bp h f dirs secs r b in
    let all_sections =
      add_sections_lem secs (header_info h f dirs) (omega (arith, b.few))
        (omega (arith, b.small)) in
    let trailing =
      add_trailing_lem bp.wpos covered
        (omega (arith, b.few, length-append (header_areas h f) (section_areas secs))) b.word
        b.small in
    rw (r.header, optional, r.sections, all_sections, trailing) refl
