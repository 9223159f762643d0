-- ===== src/Authenticode/Selected.antt =====
-- The bytes at chosen positions, and the areas that hold them.
use pcr_oracle.Common.{
  ℕ, zero, suc, ◌+◌, ◌-◌, ◌≤◌, ◌<◌, ◌≡◌, ◌∙◌, refl, ap, ap₂, sym, Bool, true, false, List, [], ◌∷◌,
  ◌++◌, if◌then◌else◌, arith, length, take, drop, All, length-drop, drop-drop,
}
use pcr_oracle.Common.Booleans.{any}
use pcr_oracle.Common.Bytes.{Octets}
use pcr_oracle.Authenticode.{PecoffPlacement}
use pcr_oracle.Authenticode.Punch.{inside, covers}
use pcr_oracle.Authenticode.Ranges.{InOrder, All-le}

-- The bytes whose positions pass the test; the first byte stands at position `i`.
unfoldable pub selected : (ℕ → Bool) → ℕ → Octets → Octets
selected p i [] = []
selected p i (b ∷ bs) = let rest = selected p (suc i) bs in if p i then b ∷ rest else rest

-- The bytes of the areas, one area after the other.
unfoldable pub slices : List PecoffPlacement → Octets → Octets
slices [] bs = []
slices (a ∷ areas) bs = take a.size (drop a.addr bs) ++ slices areas bs

pub selected_ext :
    (p q : ℕ → Bool) (i : ℕ) (bs : Octets)
    → ((o : ℕ) → i ≤ o → p o ≡ q o)
    → selected p i bs ≡ selected q i bs
unfolding selected
selected_ext p q i [] h = refl
selected_ext p q i (b ∷ bs) h =
    ap₂ (λ c rest. if c then b ∷ rest else rest) (h i (omega arith))
      (selected_ext p q (suc i) bs (λ o k. h o (omega arith)))

selected_skip :
    (p : ℕ → Bool) (k i : ℕ) (bs : Octets)
    → ((o : ℕ) → i ≤ o → o < i + k → p o ≡ false)
    → selected p i bs ≡ selected p (i + k) (drop k bs)
unfolding selected
selected_skip p zero i bs h = let e : i ≡ i + 0 = omega arith in ap (λ n. selected p n bs) e
selected_skip p (suc k) i [] h = refl
selected_skip p (suc k) i (b ∷ bs) h =
    let e : suc i + k ≡ i + suc k = omega arith in
    rw (h i (omega arith) (omega arith)) (
      selected_skip p k (suc i) bs (λ o l m. h o (omega arith) (omega arith))
      ∙ ap (λ n. selected p n (drop k bs)) e)

selected_run :
    (p : ℕ → Bool) (k i : ℕ) (bs : Octets)
    → k ≤ length bs
    → ((o : ℕ) → i ≤ o → o < i + k → p o ≡ true)
    → selected p i bs ≡ take k bs ++ selected p (i + k) (drop k bs)
unfolding selected
selected_run p zero i bs l h = let e : i ≡ i + 0 = omega arith in ap (λ n. selected p n bs) e
selected_run p (suc k) i [] l h = absurd (omega arith)
selected_run p (suc k) i (b ∷ bs) l h =
    let e : suc i + k ≡ i + suc k = omega arith in
    rw (h i (omega arith) (omega arith)) (
      ap (λ t. b ∷ t)
        (selected_run p k (suc i) bs (omega arith) (λ o l m. h o (omega arith) (omega arith))
          ∙ ap (λ n. take k bs ++ selected p n (drop k bs)) e))

selected_none :
    (p : ℕ → Bool) (i : ℕ) (bs : Octets) → ((o : ℕ) → p o ≡ false) → selected p i bs ≡ []
unfolding selected
selected_none p i [] h = refl
selected_none p i (b ∷ bs) h = rw (h i) (selected_none p (suc i) bs h)

covers_before :
    (o n : ℕ) (xs : List PecoffPlacement) → All (λ y. n ≤ y.addr) xs → o < n → covers xs o ≡ false
unfolding covers any inside
covers_before o n [] h l = refl
covers_before o n (x ∷ xs) (h, hs) l = ground (arith, covers_before o n xs hs l)

covers_first :
    (x : PecoffPlacement) (xs : List PecoffPlacement) (o : ℕ)
    → x.addr ≤ o
    → o < x.addr + x.size
    → covers (x ∷ xs) o ≡ true
unfolding inside covers any
covers_first x xs o h k = ground arith

covers_rest :
    (x : PecoffPlacement) (xs : List PecoffPlacement) (o : ℕ)
    → x.addr + x.size ≤ o
    → covers (x ∷ xs) o ≡ covers xs o
unfolding inside covers any
covers_rest x xs o h = ground arith

-- Areas in order that start at position `i` or behind it: their bytes are the covered ones from `i` on.
pub slices_from :
    (areas : List PecoffPlacement) (i : ℕ) (bs : Octets)
    → InOrder areas
    → All (λ y. i ≤ y.addr) areas
    → All (λ y. y.addr + y.size ≤ length bs) areas
    → slices areas bs ≡ selected (covers areas) i (drop i bs)
unfolding slices
slices_from [] i bs order start room =
    sym (selected_none (covers []) i (drop i bs) (λ o. unfold covers any in refl))
slices_from (a ∷ areas) i bs (o, os) (s, ss) (r, rs) =
    let p = covers (a ∷ areas) in
    let at : i + (a.addr - i) ≡ a.addr = omega arith in
    let ends = a.addr + a.size in
    sym (
      selected_skip p (a.addr - i) i (drop i bs) (λ q l m.
        covers_before q a.addr (a ∷ areas) (omega arith, All-le a.addr ends areas (omega arith) o)
          (omega arith))
      ∙ ap₂ (λ n t. selected p n t) at (drop-drop (a.addr - i) i bs ∙ ap (λ n. drop n bs) at)
      ∙ selected_run p a.size a.addr (drop a.addr bs) (omega (arith, length-drop a.addr bs))
          (covers_first a areas)
      ∙ ap (λ t. take a.size (drop a.addr bs) ++ t)
          (ap (selected p ends) (drop-drop a.size a.addr bs)
            ∙ selected_ext p (covers areas) ends (drop ends bs) (covers_rest a areas)
            ∙ sym (slices_from areas ends bs os o rs)))
