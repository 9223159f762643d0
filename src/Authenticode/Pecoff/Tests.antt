-- ===== src/Authenticode/Pecoff/Tests.antt =====
-- A run of pecoff_inspect of src/authenticode.c on an image with two sections, one of them without bytes
-- in the file, and a certificate table behind them; and the theorem at it.
use pcr_oracle.Common.{ℕ, ◌≡◌, refl, some, List, [], ◌∷◌, ◌++◌, arith, replicate}
use pcr_oracle.Common.Bytes.{Octets, codes, octets_eq}
use pcr_oracle.Common.Outcome.{ok}
use pcr_oracle.Common.Words.{le_octets, le_value}
use pcr_oracle.Buffer.{
  Buffer, buffer_init_read, buffer_get, buffer_get_buffer, buffer_seek_read, buffer_get_u16le,
  buffer_get_u32le, buffer_read_pointer,
}
use pcr_oracle.Authenticode.{PecoffPlacement}
use pcr_oracle.Authenticode.Pecoff.{pecoff_process_header, pecoff_inspect}
use pcr_oracle.Authenticode.Pecoff.Headers.{
  PeHdr, PecoffSection, FormatFields, u16_at, u32_at, pe_fields, part_of, format_fields,
  read_data_dirs, data_dirs_from, read_sections, sections_from, section_at,
}
use pcr_oracle.Authenticode.Pecoff.Inspected.{range}
use pcr_oracle.Authenticode.Pecoff.Covered.{
  IsReadable, IsBounded, header_areas, inspected, pecoff_inspect_lem,
}

abbrev zeros : ℕ → Octets
zeros n = replicate n 0

abbrev pe_header : Octets
pe_header =
    codes "PE"
    ++ zeros 2
    ++ le_octets 2 0x8664
    ++ le_octets 2 2
    ++ zeros 12
    ++ le_octets 2 136
    ++ zeros 2

abbrev optional_header : Octets
optional_header =
    le_octets 2 0x10b
    ++ zeros 58
    ++ le_octets 4 304
    ++ zeros 28
    ++ le_octets 4 5
    ++ zeros 32
    ++ le_octets 4 312
    ++ le_octets 4 4

abbrev section_entry : Octets → ℕ → ℕ → Octets
section_entry name size addr = name ++ zeros 8 ++ le_octets 4 size ++ le_octets 4 addr ++ zeros 16

abbrev image_octets : Octets
image_octets =
    zeros 0x3c
    ++ le_octets 4 0x40
    ++ pe_header
    ++ optional_header
    ++ section_entry (replicate 8 1) 8 304
    ++ section_entry (replicate 8 2) 0 0
    ++ replicate 8 7
    ++ replicate 4 9

abbrev image : Buffer
image = record { rpos = 0; wpos = 316; size = 316; octets = image_octets }

abbrev image_hdr : PeHdr
image_hdr = record {
  offset = 0x44;
  machine_id = 0x8664;
  num_sections = 2;
  symtab_offset = 0;
  optional_hdr_size = 136;
  optional_hdr_offset = 88;
  section_table_offset = 224;
}

abbrev image_fields : FormatFields
image_fields = record { format = 0x10b; data_dir_offset = 92; size_of_headers = 304 }

abbrev image_dirs : List PecoffPlacement
image_dirs = range 0 0 ∷ range 0 0 ∷ range 0 0 ∷ range 0 0 ∷ range 312 4 ∷ []

abbrev image_sections : List PecoffSection
image_sections =
    record { name = replicate 8 1; virtual = range 0 0; raw = range 304 8 }
    ∷ record { name = replicate 8 2; virtual = range 0 0; raw = range 0 0 }
    ∷ []

header_areas_run :
    header_areas image_hdr image_fields ≡ range 0 152 ∷ range 156 60 ∷ range 224 80 ∷ []
header_areas_run = refl

image-IsReadable : IsReadable image image_hdr image_fields image_dirs image_sections
unfolding pecoff_process_header u16_at u32_at pe_fields part_of format_fields read_data_dirs
    data_dirs_from read_sections sections_from section_at buffer_seek_read buffer_get
    buffer_get_buffer buffer_get_u16le buffer_get_u32le buffer_read_pointer buffer_init_read
    octets_eq le_octets le_value
image-IsReadable = record {
  hdr =
      buffer_init_read
        (optional_header
          ++ section_entry (replicate 8 1) 8 304
          ++ section_entry (replicate 8 2) 0 0
          ++ replicate 8 7
          ++ replicate 4 9)
        136;
  header = refl;
  present = refl;
  part = refl;
  fields = refl;
  directories = refl;
  sections = refl;
}

image-IsBounded : IsBounded 316 image_hdr image_fields image_sections
image-IsBounded = record {
  directory = omega arith;
  headers = omega arith;
  few = omega arith;
  small = omega arith;
  word = omega arith;
}

pecoff_inspect_lem_example :
    pecoff_inspect image
    ≡ ok (some (inspected 316 image_hdr image_fields image_dirs image_sections))
pecoff_inspect_lem_example =
    pecoff_inspect_lem image image_hdr image_fields image_dirs image_sections image-IsReadable
      image-IsBounded
