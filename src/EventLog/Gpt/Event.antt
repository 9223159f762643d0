-- ===== src/EventLog/Gpt/Event.antt =====
-- The event that src/efi-gpt.c builds: the header, and the entries of the table that are in use.
use pcr_oracle.Common.{
  ℕ, ◌+◌, ◌*◌, ◌%◌, ◌≤◌, ◌<◌, ◌≡◌, ◌∙◌, refl, ap, sym, true, false, none, some, List, [], ◌∷◌, ◌++◌,
  map, ltb, leb, arith, length, take, All, length-append, length-take, length-map, append_assoc,
}
use pcr_oracle.Common.Bytes.{Octets}
use pcr_oracle.Common.Words.{u32_mod, sub64, le_octets, length-le_octets}
use pcr_oracle.Common.Outcome.{ok}
use pcr_oracle.Buffer.{
  Buffer, buffer_alloc_write, buffer_read_pointer, buffer_put, buffer_put_u64le,
}
use pcr_oracle.Buffer.Invariant.{IsWellFormed}
use pcr_oracle.Buffer.Contents.{contents, buffer_put_room}
use pcr_oracle.Buffer.Writes.{put_all, joined, put_all_room, alloc_lem, and_then}
use pcr_oracle.EventLog.Gpt.{
  BlockDev, GptHeader, parse_gpt_header, table_bytes, put_entries, put_from, with_header,
  build_gpt_event, efi_gpt_rebuild, gpt_max_entries, gpt_hdr_size,
}
use pcr_oracle.EventLog.Gpt.Entries.{
  IsTable, entry_list, in_use, used_entries_lem, used_entries-too_many, joined-in_use,
}

-- What fits is written.
put_from_lem :
    (bp : Buffer) (size : ℕ) (p : Octets)
    → IsWellFormed bp
    → size ≤ length p
    → bp.wpos + size ≤ bp.size
    → put_from bp size p ≡ ok (buffer_put bp (take size p))
unfolding put_from
put_from_lem bp size p w long room =
    let fits : ltb (sub64 bp.size bp.wpos) size ≡ false = ground (arith, w.write_le, w.word) in
    let all : leb size (length p) ≡ true = ground arith in rw (put_from, fits, all) refl

put_entries_lem :
    (size : ℕ) (ptrs : List Octets) (bp : Buffer)
    → IsWellFormed bp
    → All (λ p. size ≤ length p) ptrs
    → bp.wpos + length (joined (map (take size) ptrs)) ≤ bp.size
    → put_entries size ptrs bp ≡ ok (put_all (map (take size) ptrs) bp)
unfolding put_entries put_all joined and_then
put_entries_lem size [] bp w h room = refl
put_entries_lem size (p ∷ ps) bp w (h, hs) room =
    let len : length (take size p) ≡ size = omega (arith, length-take size p) in
    let parts = length-append (take size p) (joined (map (take size) ps)) in
    let put = put_from_lem bp size p w h (omega (arith, len, parts, room)) in
    let (bp', puts, wr) = buffer_put_room bp (take size p) w (omega (arith, len, parts, room)) in
    rw (put, puts)
      (put_entries_lem size ps bp' wr.well_formed hs
        (omega (arith, wr.position, wr.same_size, parts, room)))

-- A buffer that has the header, and room for the number of entries and the table.
record HasHeader (h : GptHeader) (hdr_base : Octets) (bp : Buffer) : Type 0 where
  well_formed : IsWellFormed bp
  start : contents bp ≡ take gpt_hdr_size hdr_base
  room : bp.wpos + 8 + h.num_entries * h.entry_size ≤ bp.size

with_header_lem :
    (malloc : ℕ → Octets) (h : GptHeader) (hdr_base : Octets)
    → ((n : ℕ) → length (malloc n) ≡ n)
    → h.num_entries * h.entry_size + 1024 < u32_mod
    → gpt_hdr_size ≤ length hdr_base
    → (bp : Buffer) × (with_header malloc h hdr_base ≡ ok bp) × HasHeader h hdr_base bp
unfolding with_header
with_header_lem malloc h hdr_base sized small long =
    let total : (gpt_hdr_size + 8 + table_bytes h) % u32_mod ≡ gpt_hdr_size + 8 + table_bytes h =
      omega arith in
    let size = (gpt_hdr_size + 8 + table_bytes h) % u32_mod in
    let (w, empty, start, enough, word) = alloc_lem malloc size sized (omega (arith, total)) in
    let result = buffer_alloc_write malloc size in
    let src : Octets = take gpt_hdr_size hdr_base in
    let len : length src ≡ gpt_hdr_size = omega (arith, length-take gpt_hdr_size hdr_base) in
    let (bp, puts, wr) = buffer_put_room result src w (omega (arith, len, start, enough, total)) in
    let from =
      put_from_lem result gpt_hdr_size hdr_base w long (omega (arith, start, enough, total)) in
    (
      bp,
      rw (from, puts) refl,
      record {
        well_formed = wr.well_formed;
        start = wr.appended ∙ ap (λ t. t ++ src) empty;
        room = omega (arith, wr.position, wr.same_size, len, start, enough, total);
      },
    )

build_gpt_event_lem :
    (size : ℕ) (ptrs : List Octets) (used : List Octets) (result : Buffer)
    → IsWellFormed result
    → All (λ p. size ≤ length p) ptrs
    → map (take size) ptrs ≡ used
    → result.wpos + 8 + length (joined used) ≤ result.size
    → (bp : Buffer) × (build_gpt_event size ptrs result ≡ ok (some bp))
      × (contents bp ≡ contents result ++ (le_octets 8 (length ptrs) ++ joined used))
unfolding build_gpt_event buffer_put_u64le
build_gpt_event_lem size ptrs used result w long same room =
    let count = le_octets 8 (length ptrs) in
    let eight = length-le_octets 8 (length ptrs) in
    let (bp1, put1, wr) = buffer_put_room result count w (omega (arith, eight, room)) in
    let same_length = ap (λ t. length (joined t)) same in
    let fits : bp1.wpos + length (joined (map (take size) ptrs)) ≤ bp1.size =
      omega (arith, wr.position, wr.same_size, eight, same_length, room) in
    let (bp2, put2, read, w2, s2) = put_all_room (map (take size) ptrs) bp1 wr.well_formed fits in
    let entries = put_entries_lem size ptrs bp1 wr.well_formed long fits in
    (
      bp2,
      rw put1 (entries ∙ ap ok put2),
      read
          ∙ ap (λ t. contents bp1 ++ joined t) same
          ∙ ap (λ t. t ++ joined used) wr.appended
          ∙ append_assoc (contents result) count (joined used),
    )

-- The event of a header sector and a table.
abbrev pub gpt_event_bytes : GptHeader → Buffer → Buffer → Octets
gpt_event_bytes h hdr tbl =
    let used = in_use (entry_list h.num_entries 0 h.entry_size tbl.octets) in
    take gpt_hdr_size (buffer_read_pointer hdr) ++ (le_octets 8 (length used) ++ joined used)

-- Where the header sector is read and its header parsed, and the table is read with whole entries
-- of 16 bytes at least, of which 64 at most are in use, the event is built: the header's 0x5c bytes,
-- the number of entries in use in 8 bytes, and the entries in use in their order.
pub efi_gpt_rebuild_lem :
    (malloc : ℕ → Octets) (dev : BlockDev) (hdr tbl : Buffer) (h : GptHeader)
    → ((n : ℕ) → length (malloc n) ≡ n)
    → dev.read_lba 1 1 ≡ ok (some hdr)
    → parse_gpt_header hdr ≡ some h
    → gpt_hdr_size ≤ length (buffer_read_pointer hdr)
    → dev.read_lba 2 (dev.bytes_to_sectors (table_bytes h)) ≡ ok (some tbl)
    → IsTable h.num_entries h.entry_size tbl
    → length (in_use (entry_list h.num_entries 0 h.entry_size tbl.octets)) ≤ gpt_max_entries
    → (bp : Buffer) × (efi_gpt_rebuild malloc dev ≡ ok (some bp))
      × (contents bp ≡ gpt_event_bytes h hdr tbl)
unfolding efi_gpt_rebuild
efi_gpt_rebuild_lem malloc dev hdr tbl h sized sector header long table t few =
    let from_0 : 0 + h.num_entries ≡ h.num_entries = omega arith in
    let whole : IsTable (0 + h.num_entries) h.entry_size tbl = rw from_0 t in
    let (ptrs, loop, f) =
      used_entries_lem h.num_entries 0 h.entry_size 0 tbl whole (omega (arith, few)) in
    let used = in_use (entry_list h.num_entries 0 h.entry_size tbl.octets) in
    let (result, starts, r) =
      with_header_lem malloc h (buffer_read_pointer hdr) sized (omega (arith, t.whole, t.small))
        long in
    let (bp, built, read) =
      build_gpt_event_lem h.entry_size ptrs used result r.well_formed f.room f.same
        (omega (arith, r.room, joined-in_use h.num_entries 0 h.entry_size tbl.octets)) in
    (
      bp,
      rw (sector, header, starts, table, loop) built,
      read
          ∙ ap (λ c. c ++ (le_octets 8 (length ptrs) ++ joined used)) r.start
          ∙ ap (λ n. take gpt_hdr_size (buffer_read_pointer hdr) ++ (le_octets 8 n ++ joined used))
              (sym (length-map (take h.entry_size) ptrs) ∙ ap length f.same),
    )

-- Where the sectors are read as before but more than 64 entries are in use, no event is built.
pub efi_gpt_rebuild-too_many :
    (malloc : ℕ → Octets) (dev : BlockDev) (hdr tbl : Buffer) (h : GptHeader)
    → ((n : ℕ) → length (malloc n) ≡ n)
    → dev.read_lba 1 1 ≡ ok (some hdr)
    → parse_gpt_header hdr ≡ some h
    → gpt_hdr_size ≤ length (buffer_read_pointer hdr)
    → dev.read_lba 2 (dev.bytes_to_sectors (table_bytes h)) ≡ ok (some tbl)
    → IsTable h.num_entries h.entry_size tbl
    → gpt_max_entries < length (in_use (entry_list h.num_entries 0 h.entry_size tbl.octets))
    → efi_gpt_rebuild malloc dev ≡ ok none
unfolding efi_gpt_rebuild
efi_gpt_rebuild-too_many malloc dev hdr tbl h sized sector header long table t many =
    let from_0 : 0 + h.num_entries ≡ h.num_entries = omega arith in
    let whole : IsTable (0 + h.num_entries) h.entry_size tbl = rw from_0 t in
    let (result, starts, r) =
      with_header_lem malloc h (buffer_read_pointer hdr) sized (omega (arith, t.whole, t.small))
        long in
    let loop =
      used_entries-too_many h.num_entries 0 h.entry_size 0 tbl whole (omega (arith, many))
        (omega arith) in
    rw (sector, header, starts, table, loop) refl
