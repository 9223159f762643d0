-- ===== src/EventLog/Gpt.antt =====
-- src/efi-gpt.c: the event of a GUID partition table, built anew from the disk.
pub mod Entries
pub mod Event
mod Tests
use pcr_oracle.Common.{
  ℕ, zero, suc, ◌+◌, ◌*◌, ◌/◌, ◌%◌, Bool, true, false, not, ◌&&◌, Option, none, some, List, [], ◌∷◌,
  ltb, leb, ◌==◌, if◌then◌else◌, length, take, replicate,
}
use pcr_oracle.Common.Bytes.{Octets, CString, codes, octets_eq}
use pcr_oracle.Common.Words.{u32_mod, sub64}
use pcr_oracle.Common.Outcome.{Outcome, ok, undefined, or_failed, ◌>>=◌, ◌>>◌, defined_if}
use pcr_oracle.Buffer.{
  Buffer, buffer_get, buffer_get_u32le, buffer_seek_read, buffer_read_pointer, buffer_alloc_write,
  buffer_put, buffer_put_u64le,
}
use pcr_oracle.Digest.{TpmAlgoInfo, TpmEvdigest, digest_buffer}
use pcr_oracle.Digest.Openssl.{Evp}
use pcr_oracle.EventLog.Forms.{EfiGptEvent}

-- What the code reads of a block device: sectors, and how many of them hold a number of bytes.
pub record BlockDev : Type 0 where
  pub read_lba : ℕ → ℕ → Outcome (Option Buffer)
  pub bytes_to_sectors : ℕ → ℕ

abbrev pub gpt_max_entries : ℕ
gpt_max_entries = 64

abbrev pub gpt_hdr_size : ℕ
gpt_hdr_size = 0x5c

pub record GptHeader : Type 0 where
  pub num_entries : ℕ
  pub entry_size : ℕ

-- The two fields at 0x50.
entry_fields : Option (ℕ × Buffer) → Option GptHeader
entry_fields none = none
entry_fields (some (num_entries, bp)) = elim (buffer_get_u32le bp) [
  | none ↦ none
  | some (entry_size, bp') ↦ some (record { num_entries = num_entries; entry_size = entry_size })
]

size_checked : Option (ℕ × Buffer) → Option GptHeader
unfolding entry_fields
size_checked none = none
size_checked (some (gpt_hdr_len, bp)) =
    if not (gpt_hdr_len == gpt_hdr_size) then none else elim (buffer_seek_read bp 0x50) [
      | none ↦ none
      | some at ↦ entry_fields (buffer_get_u32le at)
    ]

signature_checked : Option (Octets × Buffer) → Option GptHeader
unfolding size_checked
signature_checked none = none
signature_checked (some (gpt_sig, bp)) =
    if not (octets_eq gpt_sig (codes "EFI PART")) then none else elim (buffer_seek_read bp 0x0c) [
      | none ↦ none
      | some at ↦ size_checked (buffer_get_u32le at)
    ]

unfoldable pub parse_gpt_header : Buffer → Option GptHeader
unfolding signature_checked
parse_gpt_header bp = signature_checked (buffer_get bp 8)

-- The bytes of the table, rounded up to 512.
abbrev pub table_bytes : GptHeader → ℕ
table_bytes h = (h.num_entries * h.entry_size + 511) % u32_mod / 512 * 512

abbrev pub empty_type : Octets
empty_type = replicate 16 0

add_entry : Octets → Option (List Octets) → Option (List Octets)
add_entry entry none = none
add_entry entry (some rest) = some (entry ∷ rest)

-- The loop over `n` entries from number `i` on, `found` of them in use so far: what `gpt_entry_ptr` points to.
unfoldable pub used_entries : ℕ → ℕ → ℕ → ℕ → Buffer → Outcome (Option (List Octets))
unfolding add_entry
used_entries zero i entry_size found bp = ok (some [])
used_entries (suc n) i entry_size found bp =
    or_failed (buffer_seek_read bp (i * entry_size % u32_mod)) (λ at. do
      defined_if (leb 16 (length (buffer_read_pointer at)))
      elim (octets_eq (take 16 (buffer_read_pointer at)) empty_type) [
        | true ↦ used_entries n (i + 1) entry_size found at
        | false ↦ elim (leb gpt_max_entries found) [
          | true ↦ ok none
          | false ↦ do
            rest ← used_entries n (i + 1) entry_size (found + 1) at
            ok (add_entry (buffer_read_pointer at) rest)
        ]
      ])

-- `buffer_put` from a pointer, which must point to that many bytes where there is room for them.
unfoldable pub put_from : Buffer → ℕ → Octets → Outcome (Option Buffer)
put_from bp len memory = elim (ltb (sub64 bp.size bp.wpos) len) [
  | true ↦ ok none
  | false ↦ do defined_if (leb len (length memory)); ok (buffer_put bp (take len memory))
]

unfoldable pub put_entries : ℕ → List Octets → Buffer → Outcome (Option Buffer)
unfolding put_from
put_entries entry_size [] bp = ok (some bp)
put_entries entry_size (entry ∷ entries) bp = do
  put ← put_from bp entry_size entry
  or_failed put (put_entries entry_size entries)

-- A write whose result is not looked at.
abbrev pub unchecked : Buffer → Option Buffer → Buffer
unchecked bp none = bp
unchecked bp (some bp') = bp'

-- The start of the result: the header, in a buffer that has room for the whole event.
unfoldable pub with_header : (ℕ → Octets) → GptHeader → Octets → Outcome Buffer
unfolding put_from
with_header malloc h hdr_base =
    let result = buffer_alloc_write malloc ((gpt_hdr_size + 8 + table_bytes h) % u32_mod) in
    do put ← put_from result gpt_hdr_size hdr_base; ok (unchecked result put)

-- The event from its parts.
unfoldable pub build_gpt_event : ℕ → List Octets → Buffer → Outcome (Option Buffer)
build_gpt_event entry_size entries result =
    or_failed (buffer_put_u64le result (length entries)) (put_entries entry_size entries)

unfoldable pub efi_gpt_rebuild : (ℕ → Octets) → BlockDev → Outcome (Option Buffer)
efi_gpt_rebuild malloc dev = do
  sector ← dev.read_lba 1 1
  or_failed sector (λ hdr. or_failed (parse_gpt_header hdr) (λ h. do
    result ← with_header malloc h (buffer_read_pointer hdr)
    table ← dev.read_lba 2 (dev.bytes_to_sectors (table_bytes h))
    or_failed table (λ bp. do
      entries ← used_entries h.num_entries 0 h.entry_size 0 bp
      or_failed entries (λ found. build_gpt_event h.entry_size found result))))

-- A disk that cannot be opened is closed all the same, through its NULL pointer.
rebuild_opened : (ℕ → Octets) → Option BlockDev → Outcome (Option Buffer)
rebuild_opened malloc none = undefined
rebuild_opened malloc (some dev) = efi_gpt_rebuild malloc dev

-- `open_disk` finds the disk of a partition, `none` where there is none, and opens it.
unfoldable pub efi_gpt_rehash :
    Evp
    → (ℕ → Octets)
    → (CString → Option (Option BlockDev))
    → TpmAlgoInfo
    → EfiGptEvent
    → Outcome (Option TpmEvdigest)
unfolding rebuild_opened
efi_gpt_rehash evp malloc open_disk algo e = elim e.efi_partition [
  | none ↦ ok none
  | some partition ↦
      or_failed (open_disk partition)
        (λ dev. do event ← rebuild_opened malloc dev; digest_buffer evp algo event)
]
