-- ===== src/EventLog/Gpt/Tests.antt =====
-- Runs of src/efi-gpt.c on a disk with a table of two entries, and the theorem at it.
use pcr_oracle.Common.{
  ℕ, ◌≡◌, refl, if◌then◌else◌, Option, none, some, ◌++◌, ◌+◌, ◌/◌, ◌==◌, arith, replicate,
  length-replicate,
}
use pcr_oracle.Common.Bytes.{Octets, codes, octets_eq}
use pcr_oracle.Common.Outcome.{Outcome, ok}
use pcr_oracle.Common.Words.{le_octets, le_value}
use pcr_oracle.Buffer.{
  Buffer, buffer_init_read, buffer_get, buffer_seek_read, buffer_get_u32le, buffer_read_pointer,
}
use pcr_oracle.Buffer.Writes.{joined}
use pcr_oracle.Buffer.Contents.{contents}
use pcr_oracle.EventLog.Gpt.{BlockDev, GptHeader, parse_gpt_header, efi_gpt_rebuild}
use pcr_oracle.EventLog.Gpt.Event.{gpt_event_bytes, efi_gpt_rebuild_lem, efi_gpt_rebuild-too_many}

abbrev zeros : ℕ → Octets
zeros n = replicate n 0

abbrev header_sector : Octets
header_sector =
    codes "EFI PART"
    ++ zeros 4
    ++ le_octets 4 0x5c
    ++ zeros 64
    ++ le_octets 4 2
    ++ le_octets 4 20
    ++ zeros 424

-- The second entry is in use.
abbrev table_sector : Octets
table_sector = zeros 20 ++ replicate 16 7 ++ replicate 4 9 ++ zeros 472

abbrev read_lba : ℕ → ℕ → Outcome (Option Buffer)
read_lba lba n = ok (
    if lba == 1
    then some (buffer_init_read header_sector 512)
    else if lba == 2
    then some (buffer_init_read table_sector 512)
    else none)

abbrev disk : BlockDev
disk = record { read_lba = read_lba; bytes_to_sectors = λ n. 1 }

abbrev sample_header : GptHeader
sample_header = record { num_entries = 2; entry_size = 20 }

event_runs :
    gpt_event_bytes sample_header
      (buffer_init_read header_sector 512)
      (buffer_init_read table_sector 512)
    ≡ codes "EFI PART"
      ++ zeros 4
      ++ le_octets 4 0x5c
      ++ zeros 64
      ++ le_octets 4 2
      ++ le_octets 4 20
      ++ zeros 4
      ++ le_octets 8 1
      ++ replicate 16 7
      ++ replicate 4 9
unfolding buffer_init_read octets_eq le_octets buffer_read_pointer joined
event_runs = refl

-- Without the signature there is no header.
signature_runs : parse_gpt_header (buffer_init_read (zeros 512) 512) ≡ none
unfolding parse_gpt_header buffer_get buffer_init_read octets_eq
signature_runs = refl

efi_gpt_rebuild_lem_example :
    (bp : Buffer) × (efi_gpt_rebuild zeros disk ≡ ok (some bp))
    × (contents bp
        ≡ gpt_event_bytes sample_header
            (buffer_init_read header_sector 512)
            (buffer_init_read table_sector 512))
unfolding parse_gpt_header buffer_get buffer_init_read octets_eq buffer_seek_read buffer_get_u32le
    le_value le_octets buffer_read_pointer
efi_gpt_rebuild_lem_example =
    efi_gpt_rebuild_lem zeros disk (buffer_init_read header_sector 512)
      (buffer_init_read table_sector 512) sample_header (λ n. length-replicate n 0) refl refl
      (omega arith) refl
      (record {
        whole = omega arith;
        here = omega arith;
        small = omega arith;
        has_type = omega arith;
      })
      (omega arith)

-- A table of 65 entries, all in use.
abbrev crowded_table : Octets
crowded_table = replicate 1040 7 ++ zeros 496

abbrev crowded_sector : Octets
crowded_sector =
    codes "EFI PART"
    ++ zeros 4
    ++ le_octets 4 0x5c
    ++ zeros 64
    ++ le_octets 4 65
    ++ le_octets 4 16
    ++ zeros 424

abbrev read_crowded : ℕ → ℕ → Outcome (Option Buffer)
read_crowded lba n = ok (
    if lba == 1
    then some (buffer_init_read crowded_sector 512)
    else if lba == 2
    then some (buffer_init_read crowded_table 1536)
    else none)

abbrev crowded_disk : BlockDev
crowded_disk = record { read_lba = read_crowded; bytes_to_sectors = λ n. (n + 511) / 512 }

efi_gpt_rebuild-too_many_example : efi_gpt_rebuild zeros crowded_disk ≡ ok none
unfolding parse_gpt_header buffer_get buffer_init_read octets_eq buffer_seek_read buffer_get_u32le
    le_value le_octets buffer_read_pointer
efi_gpt_rebuild-too_many_example =
    efi_gpt_rebuild-too_many zeros crowded_disk (buffer_init_read crowded_sector 512)
      (buffer_init_read crowded_table 1536) (record { num_entries = 65; entry_size = 16 })
      (λ n. length-replicate n 0) refl refl (omega arith) refl
      (record {
        whole = omega arith;
        here = omega arith;
        small = omega arith;
        has_type = omega arith;
      })
      (omega arith)
