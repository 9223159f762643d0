-- ===== src/Authenticode/Ranges.antt =====
-- `authenticode_finalize` of src/authenticode.c: sorting and trimming, and the areas that are hashed.
use pcr_oracle.Common.{
  ℕ, ◌+◌, ◌≤◌, ◌<◌, ◌≡◌, ◌∙◌, refl, ap, ap₂, sym, ◌⊎◌, inl, inr, Bool, true, false, not, ◌&&◌, ◌||◌,
  Option, none, some, List, [], ◌∷◌, ltb, leb, arith, length, All, Bool-cases,
}
use pcr_oracle.Common.Booleans.{any, or_and, or_swap}
use pcr_oracle.Common.Words.{u32_mod}
use pcr_oracle.Common.Outcome.{ok, Ends, Ends->>=, Ends-fatal_if}
use mathlib.Core.Path.{subst}
use mathlib.Core.List.{Permᴰ}
use pcr_oracle.Authenticode.{
  PecoffPlacement, AuthenticodeImageInfo, end_of, pecoff_placement_compare, overlaps_last, cut_at,
  trim, punch_holes, authenticode_finalize, pecoff_max_areas,
}
use pcr_oracle.Authenticode.Punch.{
  IsBounded, inside, covers, end_of_lem, IsHoled, punch_holes-IsHoled,
}

module _ {ℓ} {A : Type ℓ} where
  -- No element is behind one that the comparison puts in front of it.
  abbrev pub Sorted : (A → A → Bool) → List A → Type ℓ
  Sorted le [] = Unit
  Sorted le (x ∷ xs) = All (λ y. le x y ≡ true) xs × Sorted le xs

-- The documented behaviour of qsort(): the array's elements, in ascending order by a comparison that is
-- consistent.
pub record IsSort
    (qsort : (PecoffPlacement → PecoffPlacement → Bool)
      → List PecoffPlacement
      → List PecoffPlacement)
    : Type 0 where
  pub same_elements :
      (le : PecoffPlacement → PecoffPlacement → Bool) (xs : List PecoffPlacement)
      → Permᴰ (qsort le xs) xs
  pub ascending :
      (le : PecoffPlacement → PecoffPlacement → Bool)
      → ((a b : PecoffPlacement) → (le a b ≡ true) ⊎ (le b a ≡ true))
      → ((a b c : PecoffPlacement) → le a b ≡ true → le b c ≡ true → le a c ≡ true)
      → (xs : List PecoffPlacement) → Sorted le (qsort le xs)

covers-Perm : {xs ys : List PecoffPlacement} (o : ℕ) → Permᴰ xs ys → covers xs o ≡ covers ys o
unfolding covers any
covers-Perm o Permᴰ.nil = refl
covers-Perm o (Permᴰ.cons e p) = ap₂ (λ x b. inside o x || b) e (covers-Perm o p)
covers-Perm o (Permᴰ.swap {a} {b} {a'} {b'} {l} e f) =
    or_swap (inside o a) (inside o b) (any (inside o) l)
    ∙ ap₂ (λ x y. inside o x || (inside o y || any (inside o) l)) f e
covers-Perm o (Permᴰ.trans p q) = covers-Perm o p ∙ covers-Perm o q

All-Perm :
    (P : PecoffPlacement → Type 0) {xs ys : List PecoffPlacement}
    → Permᴰ xs ys
    → All P ys
    → All P xs
All-Perm P Permᴰ.nil h = h
All-Perm P (Permᴰ.cons e p) (h, hs) = (subst P (sym e) h, All-Perm P p hs)
All-Perm P (Permᴰ.swap e f) (h, (k, hs)) = (subst P (sym e) k, (subst P (sym f) h, hs))
All-Perm P (Permᴰ.trans p q) h = All-Perm P p (All-Perm P q h)

at_most :
    (a b : PecoffPlacement)
    → IsBounded a
    → IsBounded b
    → pecoff_placement_compare a b ≡ true
    → a.addr ≤ b.addr
unfolding pecoff_placement_compare
at_most a b ba bb h = ground arith

compare_total :
    (a b : PecoffPlacement)
    → (pecoff_placement_compare a b ≡ true) ⊎ (pecoff_placement_compare b a ≡ true)
unfolding pecoff_placement_compare
compare_total a b = elim (Bool-cases (pecoff_placement_compare a b)) [
  | inl h ↦ inl h
  | inr h ↦ inr (ground arith)
]

compare_trans :
    (a b c : PecoffPlacement)
    → pecoff_placement_compare a b ≡ true
    → pecoff_placement_compare b c ≡ true
    → pecoff_placement_compare a c ≡ true
unfolding pecoff_placement_compare
compare_trans a b c h k = ground arith

-- The areas by ascending address.
abbrev IsAscending : List PecoffPlacement → Type 0
IsAscending [] = Unit
IsAscending (x ∷ xs) = All (λ y. x.addr ≤ y.addr) xs × IsAscending xs

-- Each area ends where every later one begins, or before.
abbrev pub InOrder : List PecoffPlacement → Type 0
InOrder [] = Unit
InOrder (x ∷ xs) = All (λ y. x.addr + x.size ≤ y.addr) xs × InOrder xs

All-at_most :
    (x : PecoffPlacement) (xs : List PecoffPlacement)
    → IsBounded x
    → All IsBounded xs
    → All (λ y. pecoff_placement_compare x y ≡ true) xs
    → All (λ y. x.addr ≤ y.addr) xs
All-at_most x [] bx bs h = tt
All-at_most x (y ∷ ys) bx (b, bs) (h, hs) = (at_most x y bx b h, All-at_most x ys bx bs hs)

Sorted-IsAscending :
    (xs : List PecoffPlacement)
    → All IsBounded xs
    → Sorted pecoff_placement_compare xs
    → IsAscending xs
Sorted-IsAscending [] b h = tt
Sorted-IsAscending (x ∷ xs) (b, bs) (h, hs) = (All-at_most x xs b bs h, Sorted-IsAscending xs bs hs)

-- Areas from the end of the range on cover nothing in front of it.
beyond :
    (o range_end : ℕ) (xs : List PecoffPlacement)
    → All (λ y. range_end ≤ y.addr) xs
    → (covers xs o && ltb o range_end) ≡ false
unfolding covers any
beyond o range_end [] h = refl
beyond o range_end (x ∷ xs) (h, hs) =
    sym (or_and (inside o x) (covers xs o) (ltb o range_end))
    ∙ rw (beyond o range_end xs hs) (unfold inside in ground arith)

pub All-le :
    (m n : ℕ) (xs : List PecoffPlacement)
    → m ≤ n
    → All (λ y. n ≤ y.addr) xs
    → All (λ y. m ≤ y.addr) xs
All-le m n [] h k = tt
All-le m n (x ∷ xs) h (k, ks) = (omega arith, All-le m n xs h ks)

cut_lem :
    (o range_end : ℕ) (area : PecoffPlacement)
    → IsBounded area
    → range_end < u32_mod
    → leb range_end area.addr ≡ false
    → inside o (cut_at range_end area) ≡ (inside o area && ltb o range_end)
unfolding inside
cut_lem o range_end area b w h = ground (arith, end_of_lem area b)

cut-IsBounded :
    (range_end : ℕ) (area : PecoffPlacement)
    → IsBounded area
    → leb range_end area.addr ≡ false
    → IsBounded (cut_at range_end area)
cut-IsBounded range_end area b h = ground (arith, end_of_lem area b)

abbrev IsBehind : Option PecoffPlacement → ℕ → Type 0
IsBehind none n = Unit
IsBehind (some last) n = end_of last ≤ n

-- What the last loop leaves, behind the area `last`.
record IsTrimmed (range_end : ℕ) (last : Option PecoffPlacement) (areas out : List PecoffPlacement)
    : Type 0 where
  in_order : InOrder out
  within : All (λ y. y.addr + y.size ≤ range_end) out
  behind_last : All (λ y. IsBehind last y.addr) out
  same_bytes : (o : ℕ) → covers out o ≡ (covers areas o && ltb o range_end)

not_overlapping :
    (last : Option PecoffPlacement) (area : PecoffPlacement)
    → overlaps_last last area ≡ false
    → IsBehind last area.addr
not_overlapping none area h = tt
not_overlapping (some last) area h = ground arith

All-IsBehind :
    (last : Option PecoffPlacement) (n : ℕ) (xs : List PecoffPlacement)
    → IsBehind last n
    → All (λ y. n ≤ y.addr) xs
    → All (λ y. IsBehind last y.addr) xs
All-IsBehind last n [] h k = tt
All-IsBehind none n (x ∷ xs) h (k, ks) = (tt, All-IsBehind none n xs h ks)
All-IsBehind (some last) n (x ∷ xs) h (k, ks) = (omega arith, All-IsBehind (some last) n xs h ks)

IsTrimmed-cons :
    (range_end : ℕ) (last : Option PecoffPlacement) (area : PecoffPlacement)
    (areas rest : List PecoffPlacement)
    → range_end < u32_mod
    → IsBounded area
    → overlaps_last last area ≡ false
    → leb range_end area.addr ≡ false
    → IsTrimmed range_end (some (cut_at range_end area)) areas rest
    → IsTrimmed range_end last (area ∷ areas) (cut_at range_end area ∷ rest)
unfolding covers any
IsTrimmed-cons range_end last area areas rest w b clear h t =
    let cut = cut_at range_end area in
    let ends : end_of cut ≡ cut.addr + cut.size =
      end_of_lem cut (cut-IsBounded range_end area b h) in
    let after_cut : All (λ y. cut.addr + cut.size ≤ y.addr) rest =
      All-le (cut.addr + cut.size) (end_of cut) rest (omega (arith, ends)) t.behind_last in
    let at_area = not_overlapping last area clear in
    record {
      in_order = (after_cut, t.in_order);
      within = (ground (arith, end_of_lem area b), t.within);
      behind_last = (
        at_area,
        All-IsBehind last area.addr rest at_area
            (All-le area.addr (cut.addr + cut.size) rest (omega arith) after_cut),
      );
      same_bytes = λ o.
          rw (cut_lem o range_end area b w h, t.same_bytes o)
            (or_and (inside o area) (covers areas o) (ltb o range_end));
    }

trim-IsTrimmed :
    (range_end : ℕ) (last : Option PecoffPlacement) (areas : List PecoffPlacement)
    → range_end < u32_mod
    → All IsBounded areas
    → IsAscending areas
    → Ends (IsTrimmed range_end last areas) (trim range_end last areas)
unfolding trim
trim-IsTrimmed range_end last [] w b a = record {
  in_order = tt;
  within = tt;
  behind_last = tt;
  same_bytes = λ o. unfold covers any in refl;
}
trim-IsTrimmed range_end last (area ∷ areas) w (b, bs) (a, later) =
    Ends-fatal_if (IsTrimmed range_end last (area ∷ areas)) (overlaps_last last area) _ (λ clear.
      elim (Bool-cases (leb range_end area.addr)) [
        | inl h ↦ rw h (record {
          in_order = tt;
          within = tt;
          behind_last = tt;
          same_bytes = λ o.
              unfold covers any in
              sym (
                beyond o range_end (area ∷ areas)
                  (ground arith, All-le range_end area.addr areas (ground arith) a));
        })
        | inr h ↦
            let cut = cut_at range_end area in
            rw h (
              Ends->>= (IsTrimmed range_end (some cut) areas)
                (IsTrimmed range_end last (area ∷ areas)) (trim range_end (some cut) areas)
                (λ rest. ok (cut ∷ rest)) (trim-IsTrimmed range_end (some cut) areas w bs later)
                (λ rest t. IsTrimmed-cons range_end last area areas rest w b clear h t))
      ])

-- What `authenticode_finalize` relies on: ranges below 2 GB, and no more areas than slots.
pub record IsLaidOut (info : AuthenticodeImageInfo) : Type 0 where
  pub holes_bounded : All IsBounded info.hole
  pub areas_bounded : All IsBounded info.area
  pub count : length info.area ≤ pecoff_max_areas

-- The areas afterwards are apart and ascending, end in the range, and cover what the areas covered before, less the holes
-- and what lies behind the range.
pub record IsFinal (info info' : AuthenticodeImageInfo) : Type 0 where
  pub in_order : InOrder info'.area
  pub within : All (λ y. y.addr + y.size ≤ end_of info.auth_range) info'.area
  pub same_bytes :
      (o : ℕ)
      → covers info'.area o
        ≡ ((covers info.area o && not (covers info.hole o)) && ltb o (end_of info.auth_range))

-- With a qsort() that sorts, on ranges that end below 2 GB and at most 64 areas, the call makes no
-- access past its arrays; and unless it ends the process, the areas that it leaves are in ascending order
-- without an overlap, end in the range, and cover a byte exactly if an area covered it before, no hole covers it, and it
-- lies in front of the end of the range.
pub authenticode_finalize-IsFinal :
    (qsort : (PecoffPlacement → PecoffPlacement → Bool)
      → List PecoffPlacement
      → List PecoffPlacement)
    (info : AuthenticodeImageInfo)
    → IsSort qsort
    → IsLaidOut info
    → Ends (IsFinal info) (authenticode_finalize qsort info)
unfolding authenticode_finalize
authenticode_finalize-IsFinal qsort info sorts laid =
    let range_end = end_of info.auth_range in
    Ends->>= (IsHoled info.hole info.area) (IsFinal info) (punch_holes info.hole info.area) _
      (punch_holes-IsHoled info.hole info.area laid.holes_bounded laid.areas_bounded laid.count)
      (λ punched p.
        let same = sorts.same_elements pecoff_placement_compare punched in
        let bounded = All-Perm IsBounded same p.bounded in
        let sorted = qsort pecoff_placement_compare punched in
        Ends->>= (IsTrimmed range_end none sorted) (IsFinal info) (trim range_end none sorted) _
          (trim-IsTrimmed range_end none sorted (omega arith) bounded (
            Sorted-IsAscending sorted bounded
              (sorts.ascending pecoff_placement_compare compare_total compare_trans punched)))
          (λ areas t. record {
            in_order = t.in_order;
            within = t.within;
            same_bytes = λ o.
                t.same_bytes o
                ∙ ap (λ b. b && ltb o range_end) (covers-Perm o same ∙ p.same_bytes o);
          }))
