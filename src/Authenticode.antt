-- ===== src/Authenticode.antt =====
-- src/authenticode.c: which ranges of a PE/COFF image are hashed.
pub mod Punch
pub mod Ranges
pub mod Selected
pub mod Digests
pub mod Pecoff
pub mod Sample
mod Tests
use pcr_oracle.Common.{
  ℕ, zero, suc, ◌+◌, ◌-◌, ◌^◌, ◌%◌, Bool, true, false, ◌||◌, Option, none, some, List, [], ◌∷◌,
  ◌++◌, ltb, leb, if◌then◌else◌, length, take,
}
use pcr_oracle.Common.Words.{add32, sub32, u32_mod}
use pcr_oracle.Common.Outcome.{Outcome, ok, undefined, ◌>>=◌, ◌>>◌, fatal_if}
use pcr_oracle.Buffer.{Buffer, buffer_seek_read, buffer_available, buffer_read_pointer}
use pcr_oracle.Digest.{TpmEvdigest, DigestCtx, digest_ctx_update, digest_ctx_final}
use pcr_oracle.Digest.Openssl.{Evp}

-- pecoff_placement_t
pub record PecoffPlacement : Type 0 where
  pub addr : ℕ
  pub size : ℕ

abbrev pub pecoff_max_holes : ℕ
pecoff_max_holes = 10

abbrev pub pecoff_max_areas : ℕ
pecoff_max_areas = 64

-- `hole` and `area` are the first `num_holes` and `num_areas` elements.
pub record AuthenticodeImageInfo : Type 0 where
  pub auth_range : PecoffPlacement
  pub hashed_bytes : ℕ
  pub hole : List PecoffPlacement
  pub area : List PecoffPlacement

unfoldable pub authenticode_set_range : AuthenticodeImageInfo → ℕ → ℕ → AuthenticodeImageInfo
authenticode_set_range info offset len = record info {
  auth_range = record { addr = offset; size = len };
}

unfoldable pub authenticode_exclude_range :
    AuthenticodeImageInfo → ℕ → ℕ → Outcome AuthenticodeImageInfo
authenticode_exclude_range info offset len = do
  fatal_if (leb pecoff_max_holes (length info.hole))
  ok (record info { hole = info.hole ++ (record { addr = offset; size = len } ∷ []) })

unfoldable pub authenticode_add_range :
    AuthenticodeImageInfo → ℕ → ℕ → Outcome AuthenticodeImageInfo
authenticode_add_range info offset len = do
  fatal_if (leb pecoff_max_areas (length info.area))
  ok (record info { area = info.area ++ (record { addr = offset; size = len } ∷ []) })

-- The offset behind the hole, and the image.
unfoldable pub authenticode_skip :
    AuthenticodeImageInfo → ℕ → ℕ → ℕ → Outcome (ℕ × AuthenticodeImageInfo)
authenticode_skip info last_offset hole_offset hole_len = do
  info' ← authenticode_add_range info last_offset (sub32 hole_offset last_offset)
  ok (add32 hole_offset hole_len, info')

abbrev pub end_of : PecoffPlacement → ℕ
end_of p = add32 p.addr p.size

-- What is left of an area in front of a hole that overlaps it, and behind the hole.
abbrev pub in_front : PecoffPlacement → PecoffPlacement → PecoffPlacement
in_front hole area = record area {
  size = if ltb area.addr hole.addr then sub32 hole.addr area.addr else 0;
}

abbrev pub behind : PecoffPlacement → PecoffPlacement → PecoffPlacement
behind hole area = record { addr = end_of hole; size = sub32 (end_of area) (end_of hole) }

-- `hole_end <= area->addr || area_end <= hole->addr`
abbrev pub are_apart : PecoffPlacement → PecoffPlacement → Bool
are_apart hole area = leb (end_of hole) area.addr || leb (end_of area) hole.addr

-- One round of the inner loop with `num_areas` areas, on an area and those behind it. A range is added
-- behind the last one.
unfoldable pub punch_area :
    PecoffPlacement
    → ℕ
    → PecoffPlacement
    → List PecoffPlacement
    → Outcome (PecoffPlacement × List PecoffPlacement)
punch_area hole num_areas area todo =
    if are_apart hole area
    then ok (area, todo)
    else if ltb (end_of hole) (end_of area)
    then (do
      fatal_if (leb pecoff_max_areas num_areas)
      ok (in_front hole area, todo ++ (behind hole area ∷ [])))
    else ok (in_front hole area, todo)

-- The inner loop: the areas before `j`, those from `j` on, and the slots of the array from `j` on. An
-- area behind the last slot would be an access past the array.
unfoldable pub punch :
    ℕ
    → PecoffPlacement
    → List PecoffPlacement
    → List PecoffPlacement
    → Outcome (List PecoffPlacement)
punch slots hole done [] = ok done
punch zero hole done (area ∷ todo) = undefined
punch (suc slots) hole done (area ∷ todo) = do
  (area', todo') ← punch_area hole (suc (length done) + length todo) area todo
  punch slots hole (done ++ (area' ∷ [])) todo'

-- The outer loop.
unfoldable pub punch_holes :
    List PecoffPlacement → List PecoffPlacement → Outcome (List PecoffPlacement)
punch_holes [] areas = ok areas
punch_holes (hole ∷ holes) areas = punch pecoff_max_areas hole [] areas >>= punch_holes holes

-- `pecoff_placement_compare(a, b) <= 0`: the order of the addresses as signed numbers, where their
-- difference fits an int.
unfoldable pub pecoff_placement_compare : PecoffPlacement → PecoffPlacement → Bool
pecoff_placement_compare a b = leb ((a.addr + 2 ^ 31) % u32_mod) ((b.addr + 2 ^ 31) % u32_mod)

-- `i && area->addr < area[-1].addr + area[-1].size`
abbrev pub overlaps_last : Option PecoffPlacement → PecoffPlacement → Bool
overlaps_last none area = false
overlaps_last (some last) area = ltb area.addr (end_of last)

abbrev pub cut_at : ℕ → PecoffPlacement → PecoffPlacement
cut_at range_end area = record area {
  size = if ltb range_end (end_of area) then sub32 range_end area.addr else area.size;
}

-- The last loop, behind the area `last`.
unfoldable pub trim :
    ℕ → Option PecoffPlacement → List PecoffPlacement → Outcome (List PecoffPlacement)
trim range_end last [] = ok []
trim range_end last (area ∷ areas) = do
  fatal_if (overlaps_last last area)
  elim (leb range_end area.addr) [
    | true ↦ ok []
    | false ↦ do
      rest ← trim range_end (some (cut_at range_end area)) areas
      ok (cut_at range_end area ∷ rest)
  ]

-- The loop of `authenticode_compute`: the context, or `none` where an area points outside the data.
unfoldable pub hash_areas :
    (evp : Evp) → Buffer → List PecoffPlacement → DigestCtx evp → Outcome (Option (DigestCtx evp))
hash_areas evp bp [] ctx = ok (some ctx)
hash_areas evp bp (area ∷ areas) ctx = elim (buffer_seek_read bp area.addr) [
  | none ↦ ok none
  | some bp' ↦ elim (ltb (buffer_available bp') area.size) [
    | true ↦ ok none
    | false ↦ do
      ctx' ← digest_ctx_update evp ctx (take area.size (buffer_read_pointer bp'))
      hash_areas evp bp' areas ctx'
  ]
]

-- digest_ctx_final() where the loop did not fail.
final_of : (evp : Evp) → Option (DigestCtx evp) → Option TpmEvdigest
final_of evp none = none
final_of evp (some ctx) = some (digest_ctx_final evp ctx).1

-- qsort() of the C library, by a comparison.
module _
    (qsort : (PecoffPlacement → PecoffPlacement → Bool)
      → List PecoffPlacement
      → List PecoffPlacement) where
  unfoldable pub authenticode_finalize : AuthenticodeImageInfo → Outcome AuthenticodeImageInfo
  authenticode_finalize info = do
    punched ← punch_holes info.hole info.area
    areas ← trim (end_of info.auth_range) none (qsort pecoff_placement_compare punched)
    ok (record info { hole = qsort pecoff_placement_compare info.hole; area = areas })

  unfoldable pub authenticode_compute :
      (evp : Evp) → AuthenticodeImageInfo → Buffer → DigestCtx evp → Outcome (Option TpmEvdigest)
  unfolding final_of
  authenticode_compute evp info bp digest = do
    info' ← authenticode_finalize info
    found ← hash_areas evp bp info'.area digest
    ok (final_of evp found)
