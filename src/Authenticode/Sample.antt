-- ===== src/Authenticode/Sample.antt =====
-- A sort in the place of qsort(), for the tests: insertion.
use pcr_oracle.Common.{
  ◌≡◌, refl, ◌⊎◌, inl, inr, Bool, true, false, List, [], ◌∷◌, if◌then◌else◌, All, Bool-cases,
}
use mathlib.Core.List.{Permᴰ}
use pcr_oracle.Authenticode.{PecoffPlacement}
use pcr_oracle.Authenticode.Ranges.{IsSort, Sorted}

abbrev Placements : Type 0
Placements = List PecoffPlacement

abbrev Comparison : Type 0
Comparison = PecoffPlacement → PecoffPlacement → Bool

-- Behind every element that is not in front of it.
unfoldable insert : Comparison → PecoffPlacement → Placements → Placements
insert le x [] = x ∷ []
insert le x (y ∷ ys) = let rest = insert le x ys in if le x y then x ∷ y ∷ ys else y ∷ rest

unfoldable pub insertion_sort : Comparison → Placements → Placements
unfolding insert
insertion_sort le [] = []
insertion_sort le (x ∷ xs) = insert le x (insertion_sort le xs)

perm_refl : (xs : Placements) → Permᴰ xs xs
perm_refl [] = Permᴰ.nil
perm_refl (x ∷ xs) = Permᴰ.cons refl (perm_refl xs)

insert-perm :
    (le : Comparison) (x : PecoffPlacement) (xs : Placements) → Permᴰ (insert le x xs) (x ∷ xs)
unfolding insert
insert-perm le x [] = perm_refl (x ∷ [])
insert-perm le x (y ∷ ys) = elim (Bool-cases (le x y)) [
  | inl h ↦ rw h (perm_refl (x ∷ y ∷ ys))
  | inr h ↦ rw h (Permᴰ.trans (Permᴰ.cons refl (insert-perm le x ys)) (Permᴰ.swap refl refl))
]

insertion_sort-perm : (le : Comparison) (xs : Placements) → Permᴰ (insertion_sort le xs) xs
unfolding insertion_sort
insertion_sort-perm le [] = Permᴰ.nil
insertion_sort-perm le (x ∷ xs) =
    Permᴰ.trans (insert-perm le x (insertion_sort le xs))
      (Permᴰ.cons refl (insertion_sort-perm le xs))

module _ (le : Comparison) (total : (a b : PecoffPlacement) → (le a b ≡ true) ⊎ (le b a ≡ true))
    (chain : (a b c : PecoffPlacement) → le a b ≡ true → le b c ≡ true → le a c ≡ true) where
  All-chain :
      (x y : PecoffPlacement) (ys : Placements)
      → le x y ≡ true
      → All (λ z. le y z ≡ true) ys
      → All (λ z. le x z ≡ true) ys
  All-chain x y [] h k = tt
  All-chain x y (z ∷ zs) h (k, ks) = (chain x y z h k, All-chain x y zs h ks)

  insert-All :
      (x y : PecoffPlacement) (ys : Placements)
      → le y x ≡ true
      → All (λ z. le y z ≡ true) ys
      → All (λ z. le y z ≡ true) (insert le x ys)
  unfolding insert
  insert-All x y [] h k = (h, tt)
  insert-All x y (z ∷ zs) h (k, ks) = elim (Bool-cases (le x z)) [
    | inl e ↦ rw e (h, (k, ks))
    | inr e ↦ rw e (k, insert-All x y zs h ks)
  ]

  other_way : (x y : PecoffPlacement) → le x y ≡ false → le y x ≡ true
  other_way x y h = elim (total x y) [ inl e ↦ cc | inr e ↦ e ]

  insert-Sorted :
      (x : PecoffPlacement) (xs : Placements) → Sorted le xs → Sorted le (insert le x xs)
  unfolding insert
  insert-Sorted x [] h = (tt, tt)
  insert-Sorted x (y ∷ ys) (h, hs) = elim (Bool-cases (le x y)) [
    | inl e ↦ rw e ((e, All-chain x y ys e h), (h, hs))
    | inr e ↦ rw e (insert-All x y ys (other_way x y e) h, insert-Sorted x ys hs)
  ]

  insertion_sort-Sorted : (xs : Placements) → Sorted le (insertion_sort le xs)
  unfolding insertion_sort
  insertion_sort-Sorted [] = tt
  insertion_sort-Sorted (x ∷ xs) = insert-Sorted x (insertion_sort le xs) (insertion_sort-Sorted xs)

pub insertion_sort-IsSort : IsSort insertion_sort
insertion_sort-IsSort = record {
  same_elements = insertion_sort-perm;
  ascending = λ le total chain xs. insertion_sort-Sorted le total chain xs;
}
