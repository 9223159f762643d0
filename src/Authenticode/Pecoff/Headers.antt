-- ===== src/Authenticode/Pecoff/Headers.antt =====
-- What src/authenticode.c reads of the headers of a PE/COFF image. Every read seeks first, so that only
-- the values are kept.
use pcr_oracle.Common.{
  ℕ, zero, suc, ◌+◌, ◌*◌, ◌%◌, Option, none, some, List, [], ◌∷◌, leb, ◌==◌, if◌then◌else◌,
}
use pcr_oracle.Common.Bytes.{Octets}
use pcr_oracle.Common.Words.{add32, u32_mod}
use pcr_oracle.Buffer.{
  Buffer, buffer_seek_read, buffer_get, buffer_get_buffer, buffer_get_u16le, buffer_get_u32le,
}
use pcr_oracle.Authenticode.{PecoffPlacement}

pub record PeHdr : Type 0 where
  pub offset : ℕ
  pub machine_id : ℕ
  pub num_sections : ℕ
  pub symtab_offset : ℕ
  pub optional_hdr_size : ℕ
  pub optional_hdr_offset : ℕ
  pub section_table_offset : ℕ

pub record PecoffSection : Type 0 where
  pub name : Octets
  pub virtual : PecoffPlacement
  pub raw : PecoffPlacement

infixl 5 ◌>>=◌
abbrev ◌>>=◌ : {A B : Type 0} → Option A → (A → Option B) → Option B
none >>= f = none
some a >>= f = f a

unfoldable pub u16_at : Buffer → ℕ → Option ℕ
u16_at bp pos = do at ← buffer_seek_read bp pos; (value, bp') ← buffer_get_u16le at; some value

unfoldable pub u32_at : Buffer → ℕ → Option ℕ
u32_at bp pos = do at ← buffer_seek_read bp pos; (value, bp') ← buffer_get_u32le at; some value

-- The fields of the header, which starts behind the signature.
unfoldable pub pe_fields : Buffer → ℕ → Option PeHdr
pe_fields bp offset = do
  machine_id ← u16_at bp (add32 offset 0x0000)
  num_sections ← u16_at bp (add32 offset 0x0002)
  symtab_offset ← u32_at bp (add32 offset 0x0008)
  optional_hdr_size ← u16_at bp (add32 offset 0x0010)
  some (record {
    offset = offset;
    machine_id = machine_id;
    num_sections = num_sections;
    symtab_offset = symtab_offset;
    optional_hdr_size = optional_hdr_size;
    optional_hdr_offset = add32 offset 20;
    section_table_offset = add32 (add32 offset 20) optional_hdr_size;
  })

-- A view of `size` bytes at `offset`, and not beyond.
unfoldable pub part_of : Buffer → ℕ → ℕ → Option Buffer
part_of bp offset size = do
  at ← buffer_seek_read bp offset
  (hdr, bp') ← buffer_get_buffer at size
  some hdr

pub record FormatFields : Type 0 where
  pub format : ℕ
  pub data_dir_offset : ℕ
  pub size_of_headers : ℕ

-- `PECOFF_FORMAT_PE32` and `PECOFF_FORMAT_PE32_PLUS`
dir_offset : ℕ → Option ℕ
dir_offset magic = if magic == 0x10b then some 92 else if magic == 0x20b then some 108 else none

unfoldable pub format_fields : Buffer → Option FormatFields
unfolding dir_offset
format_fields hdr = do
  magic ← u16_at hdr 0
  data_dir_offset ← dir_offset magic
  size_of_headers ← u32_at hdr 0x3c
  some (record {
    format = magic;
    data_dir_offset = data_dir_offset;
    size_of_headers = size_of_headers;
  })

unfoldable pub data_dirs_from : ℕ → Buffer → Option (List PecoffPlacement)
data_dirs_from zero bp = some []
data_dirs_from (suc n) bp = do
  (addr, bp1) ← buffer_get_u32le bp
  (size, bp2) ← buffer_get_u32le bp1
  rest ← data_dirs_from n bp2
  some (record { addr = addr; size = size } ∷ rest)

-- The number of directories must reach the certificate table.
unfoldable pub read_data_dirs : Buffer → ℕ → Option (List PecoffPlacement)
read_data_dirs hdr data_dir_offset = do
  at ← buffer_seek_read hdr data_dir_offset
  (count, bp) ← buffer_get_u32le at
  if leb count 4 then none else data_dirs_from count bp

unfoldable pub section_at : Buffer → ℕ → Option PecoffSection
section_at hdr pos = do
  at ← buffer_seek_read hdr pos
  (name, bp) ← buffer_get at 8
  (vsize, bp1) ← buffer_get_u32le bp
  (vaddr, bp2) ← buffer_get_u32le bp1
  (size, bp3) ← buffer_get_u32le bp2
  (addr, bp4) ← buffer_get_u32le bp3
  some (record {
    name = name;
    virtual = record { addr = vaddr; size = vsize };
    raw = record { addr = addr; size = size };
  })

unfoldable pub sections_from : ℕ → ℕ → Buffer → Option (List PecoffSection)
sections_from zero i hdr = some []
sections_from (suc n) i hdr = do
  sec ← section_at hdr (i * 40 % u32_mod)
  rest ← sections_from n (i + 1) hdr
  some (sec ∷ rest)

unfoldable pub read_sections : Buffer → PeHdr → Option (List PecoffSection)
read_sections bp h = do
  hdr ← part_of bp h.section_table_offset (40 * h.num_sections)
  sections_from h.num_sections 0 hdr
