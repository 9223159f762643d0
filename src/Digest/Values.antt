-- ===== src/Digest/Values.antt =====
-- Comparing digests and recognizing the two special values.
use mathlib.Core.List.{foldl}
use pcr_oracle.Common.{
  ℕ, zero, suc, ◌/◌, ◌≤◌, ◌≡◌, ◌↔◌, refl, sym, ap, ◌∙◌, true, [], ◌∷◌, ==_iff, arith, take, All,
  Option, none, some, bit_and, bit_or,
}
use pcr_oracle.Common.Bits.{bit_and-le, bit_or_step, zero-bit_or}
use pcr_oracle.Common.Bytes.{Octets, IsByte, octets_eq, octets_eq→eq, octets_eq_refl}
use pcr_oracle.Digest.{
  TpmEvdigest, digest_is_zero, digest_is_invalid, digest_equal, value_of, algo_eq, same_table,
  TpmAlgoInfo, AlgoTable, static_table, log_table,
}

-- An `or` is 0 only if both sides are.
bit_or-eq-zero : (n a b : ℕ) → a ≤ n → bit_or a b ≡ 0 → (a ≡ 0) × (b ≡ 0)
bit_or-eq-zero n zero b p h = (refl, sym (zero-bit_or b) ∙ h)
bit_or-eq-zero zero (suc a) b p h = absurd (omega arith)
bit_or-eq-zero (suc n) (suc a) b p h =
    let halves : bit_or (suc a / 2) (b / 2) ≡ 0 = omega (arith, bit_or_step (suc a) b) in
    let (l, r) = bit_or-eq-zero n (suc a / 2) (b / 2) (omega arith) halves in
    (omega (arith, bit_or_step (suc a) b), omega (arith, bit_or_step (suc a) b))

abbrev pub IsZero : ℕ → Type 0
IsZero b = b ≡ 0

abbrev pub IsOnes : ℕ → Type 0
IsOnes b = b ≡ 0xff

or_All : (x : ℕ) (bs : Octets) → foldl bit_or x bs ≡ 0 → (x ≡ 0) × All IsZero bs
or_All x [] h = (h, tt)
or_All x (b ∷ bs) h =
    let (now, later) = or_All (bit_or x b) bs h in
    let (l, r) = bit_or-eq-zero x x b (omega arith) now in (l, (r, later))

All-or : (bs : Octets) → All IsZero bs → foldl bit_or 0 bs ≡ 0
All-or [] h = refl
All-or (b ∷ bs) (e, h) = rw (e, zero-bit_or) (All-or bs h)

and_All :
    (x : ℕ) (bs : Octets)
    → x ≤ 0xff
    → All IsByte bs
    → foldl bit_and x bs ≡ 0xff
    → (x ≡ 0xff) × All IsOnes bs
and_All x [] p bytes h = (h, tt)
and_All x (b ∷ bs) p (hb, bytes) h =
    let (l, r) = bit_and-le x x b (omega arith) in
    let (now, later) = and_All (bit_and x b) bs (omega arith) bytes h in
    (omega arith, (omega arith, later))

All-and : (bs : Octets) → All IsOnes bs → foldl bit_and 0xff bs ≡ 0xff
All-and [] h = refl
All-and (b ∷ bs) (e, h) = rw e (All-and bs h)

-- A digest whose octets that count are below 256 is the zero digest exactly if each of them is 0, and
-- the invalid one exactly if each of them is 0xFF.
pub special_values :
    (md : TpmEvdigest)
    → All IsByte (value_of md)
    → ((digest_is_zero md ≡ true) ↔ All IsZero (value_of md))
      × ((digest_is_invalid md ≡ true) ↔ All IsOnes (value_of md))
unfolding digest_is_zero digest_is_invalid
special_values md bytes = (
  (
    λ h. (or_All 0 (value_of md) ((==_iff _ 0).0 h)).1,
    λ h. (==_iff _ 0).1 (All-or (value_of md) h),
  ),
  (
    λ h. (and_All 0xff (value_of md) (omega arith) bytes ((==_iff _ 0xff).0 h)).1,
    λ h. (==_iff _ 0xff).1 (All-and (value_of md) h),
  ),
)

same_table_refl : (t : AlgoTable) → same_table t t ≡ true
same_table_refl static_table = refl
same_table_refl log_table = refl

algo_eq_refl : (a : Option TpmAlgoInfo) → algo_eq a a ≡ true
algo_eq_refl none = refl
algo_eq_refl (some a) = ground (arith, same_table_refl a.table)

-- Two digests are equal exactly if their algorithms are the same entry, their sizes agree and the bytes
-- that count agree; what stands in the unused bytes of the array does not matter.
pub digest_equal_iff :
    (a b : TpmEvdigest)
    → (digest_equal a b ≡ true)
      ↔ ((algo_eq a.algo b.algo ≡ true) × (a.size ≡ b.size) × (value_of a ≡ value_of b))
unfolding digest_equal
digest_equal_iff a b = (
  λ h.
      let size : a.size ≡ b.size = ground arith in
      let bytes : octets_eq (take a.size a.octets) (take a.size b.octets) ≡ true = ground arith in
      (ground arith, size, octets_eq→eq _ _ bytes ∙ ap (λ k. take k b.octets) size),
  λ (algo, size, bytes).
      let same : take a.size a.octets ≡ take a.size b.octets =
        bytes ∙ ap (λ k. take k b.octets) (sym size) in
      let e : octets_eq (take a.size a.octets) (take a.size b.octets) ≡ true =
        rw (← same) (octets_eq_refl (take a.size a.octets)) in
      ground (arith),
)
