-- ===== src/Authenticode/Pecoff/Inspected.antt =====
-- The ranges that src/authenticode.c takes from an image whose headers and sections can be read.
use Prim.Native.Nat.{max}
use pcr_oracle.Common.{
  ℕ, ◌+◌, ◌-◌, ◌%◌, ◌≤◌, ◌<◌, ◌≡◌, ◌∙◌, refl, ap, ap₂, sym, true, false, List, [], ◌∷◌, ◌++◌, ltb,
  leb, ◌==◌, if◌then◌else◌, arith, length, length-append, append_assoc, append-nil, Bool-cases, inl,
  inr,
}
use pcr_oracle.Common.Words.{add32, u32_mod}
use pcr_oracle.Common.Outcome.{ok}
use pcr_oracle.Authenticode.{
  PecoffPlacement, AuthenticodeImageInfo, authenticode_add_range, pecoff_max_areas,
}
use pcr_oracle.Authenticode.Pecoff.{add_section, add_sections, add_trailing}
use pcr_oracle.Authenticode.Pecoff.Headers.{PecoffSection}

abbrev pub range : ℕ → ℕ → PecoffPlacement
range addr size = record { addr = addr; size = size }

-- The places in the file of the sections that have bytes there.
abbrev pub section_areas : List PecoffSection → List PecoffPlacement
section_areas [] = []
section_areas (sec ∷ rest) =
    let areas = section_areas rest in if sec.raw.size == 0 then areas else sec.raw ∷ areas

abbrev pub sections_size : List PecoffSection → ℕ
sections_size [] = 0
sections_size (sec ∷ rest) = sec.raw.size + sections_size rest

abbrev pub with_areas : AuthenticodeImageInfo → ℕ → List PecoffPlacement → AuthenticodeImageInfo
with_areas info hashed areas = record info { hashed_bytes = hashed; area = areas }

add_range_lem :
    (info : AuthenticodeImageInfo) (offset len : ℕ)
    → length info.area < pecoff_max_areas
    → authenticode_add_range info offset len
      ≡ ok (record info { area = info.area ++ (range offset len ∷ []) })
unfolding authenticode_add_range
add_range_lem info offset len room =
    let free : leb pecoff_max_areas (length info.area) ≡ false = ground arith in rw free refl

add_section-none :
    (raw : PecoffPlacement) (info : AuthenticodeImageInfo)
    → (raw.size == 0) ≡ true
    → add_section raw info ≡ ok info
unfolding add_section
add_section-none raw info h = rw h refl

add_section-some :
    (raw : PecoffPlacement) (info : AuthenticodeImageInfo)
    → (raw.size == 0) ≡ false
    → length info.area < pecoff_max_areas
    → info.hashed_bytes + raw.size < u32_mod
    → add_section raw info
      ≡ ok (with_areas info (info.hashed_bytes + raw.size) (info.area ++ (raw ∷ [])))
unfolding add_section
add_section-some raw info h room small =
    let sum : add32 info.hashed_bytes raw.size ≡ info.hashed_bytes + raw.size = omega arith in
    rw (h, add_range_lem info raw.addr raw.size room, sum) refl

pub add_sections_lem :
    (secs : List PecoffSection) (info : AuthenticodeImageInfo)
    → length info.area + length (section_areas secs) ≤ pecoff_max_areas
    → info.hashed_bytes + sections_size secs < u32_mod
    → add_sections secs info
      ≡ ok (
          with_areas info
            (info.hashed_bytes + sections_size secs)
            (info.area ++ section_areas secs))
unfolding add_sections
add_sections_lem [] info room small =
    let none_added : info.hashed_bytes + 0 ≡ info.hashed_bytes = omega arith in
    sym (ap₂ (λ n areas. ok (with_areas info n areas)) none_added (append-nil info.area))
add_sections_lem (sec ∷ rest) info room small = elim (Bool-cases (sec.raw.size == 0)) [
  | inl z ↦
      let areas : section_areas (sec ∷ rest) ≡ section_areas rest = rw z refl in
      let size : sec.raw.size ≡ 0 = ground (arith, z) in
      let same : info.hashed_bytes + sections_size rest
          ≡ info.hashed_bytes + (sec.raw.size + sections_size rest) =
        omega (arith, size) in
      rw (add_section-none sec.raw info z) (
        add_sections_lem rest info (omega (arith, room, ap length areas))
          (omega (arith, small, size))
        ∙ ap₂ (λ n as'. ok (with_areas info n (info.area ++ as'))) same (sym areas))
  | inr z ↦
      let areas : section_areas (sec ∷ rest) ≡ sec.raw ∷ section_areas rest = rw z refl in
      let info' =
        with_areas info (info.hashed_bytes + sec.raw.size) (info.area ++ (sec.raw ∷ [])) in
      let same : info.hashed_bytes + sec.raw.size + sections_size rest
          ≡ info.hashed_bytes + (sec.raw.size + sections_size rest) =
        omega arith in
      let longer = length-append info.area (sec.raw ∷ []) in
      rw
        (add_section-some sec.raw info z (omega (arith, room, ap length areas))
          (omega (arith, small)))
        (add_sections_lem rest info' (omega (arith, room, ap length areas, longer))
            (omega (arith, small))
          ∙ ap₂ (λ n as'. ok (with_areas info n as')) same
              (append_assoc info.area (sec.raw ∷ []) (section_areas rest)
                ∙ ap (λ as'. info.area ++ as') (sym areas)))
]

-- The rest of a file of `wpos` bytes.
abbrev pub trailing_areas : ℕ → ℕ → List PecoffPlacement
trailing_areas hashed wpos = if ltb hashed wpos then range hashed (wpos - hashed) ∷ [] else []

pub add_trailing_lem :
    (wpos : ℕ) (info : AuthenticodeImageInfo)
    → length info.area < pecoff_max_areas
    → wpos < u32_mod
    → info.hashed_bytes < u32_mod
    → add_trailing wpos info
      ≡ ok (
          with_areas info
            (max info.hashed_bytes wpos)
            (info.area ++ trailing_areas info.hashed_bytes wpos))
unfolding add_trailing
add_trailing_lem wpos info room small word = elim (Bool-cases (ltb info.hashed_bytes wpos)) [
  | inl h ↦
      let left : (wpos - info.hashed_bytes) % u32_mod ≡ wpos - info.hashed_bytes = omega arith in
      let sum : add32 info.hashed_bytes (wpos - info.hashed_bytes) ≡ max info.hashed_bytes wpos =
        ground (arith, h) in
      let added = add_range_lem info info.hashed_bytes (wpos - info.hashed_bytes) room in
      rw (h, left, added, sum) refl
  | inr h ↦
      let same : max info.hashed_bytes wpos ≡ info.hashed_bytes = ground (arith, h) in
      rw h (sym (ap₂ (λ n areas. ok (with_areas info n areas)) same (append-nil info.area)))
]
