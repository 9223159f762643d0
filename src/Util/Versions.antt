-- ===== src/Util/Versions.antt =====
-- `parsed_version_compare` of src/util.c.
use pcr_oracle.Common.{
  ℕ, ◌+◌, ◌^◌, ◌<◌, ◌≤◌, ◌≡◌, List, [], ◌∷◌, ltb, ◌==◌, if◌then◌else◌, arith, length, All,
}
use pcr_oracle.Common.Words.{sub32}

-- The numbers of `parsed_version_t`, `count` of them.
abbrev pub ParsedVersion : Type 0
ParsedVersion = List ℕ

-- -1, 0 and 1
pub data Sign : Type 0 where
  negative neither positive : Sign

-- `delta` is an int that holds the difference of two unsigned ints.
report : ℕ → Sign
report delta = if delta == 0 then neither else if ltb delta (2 ^ 31) then positive else negative

-- The loop; `count_a` and `count_b` are the counts of the whole versions.
compare_numbers : ℕ → ℕ → List ℕ → List ℕ → Sign
unfolding report
compare_numbers count_a count_b [] b = report (sub32 count_a count_b)
compare_numbers count_a count_b (x ∷ a) [] = report (sub32 count_a count_b)
compare_numbers count_a count_b (x ∷ a) (y ∷ b) =
    let rest = compare_numbers count_a count_b a b in
    if sub32 x y == 0 then rest else report (sub32 x y)

unfoldable pub parsed_version_compare : ParsedVersion → ParsedVersion → Sign
unfolding compare_numbers
parsed_version_compare a b = compare_numbers (length a) (length b) a b

-- The order of versions: by the first number that differs, and a prefix comes first.
unfoldable pub version_order : List ℕ → List ℕ → Sign
version_order [] [] = neither
version_order [] (y ∷ b) = negative
version_order (x ∷ a) [] = positive
version_order (x ∷ a) (y ∷ b) =
    let rest = version_order a b in if ltb x y then negative else if ltb y x then positive else rest

abbrev pub IsSmall : ℕ → Type 0
IsSmall n = n < 2 ^ 31

compare_numbers_lem :
    (i count_a count_b : ℕ) (a b : List ℕ)
    → count_a ≡ i + length a
    → count_b ≡ i + length b
    → count_a ≤ 16
    → count_b ≤ 16
    → All IsSmall a
    → All IsSmall b
    → compare_numbers count_a count_b a b ≡ version_order a b
unfolding compare_numbers version_order report
compare_numbers_lem i count_a count_b [] [] ea eb la lb ha hb = ground arith
compare_numbers_lem i count_a count_b [] (y ∷ b) ea eb la lb ha hb = ground arith
compare_numbers_lem i count_a count_b (x ∷ a) [] ea eb la lb ha hb = ground arith
compare_numbers_lem i count_a count_b (x ∷ a) (y ∷ b) ea eb la lb (hx, ha) (hy, hb) =
    ground (
      arith,
      compare_numbers_lem (i + 1) count_a count_b a b (omega arith) (omega arith) la lb ha hb,
    )

-- On versions of at most 16 numbers below 2^31, the comparison is the order by the first number that
-- differs, in which a prefix comes first.
pub parsed_version_compare_lem :
    (a b : ParsedVersion)
    → length a ≤ 16
    → length b ≤ 16
    → All IsSmall a
    → All IsSmall b
    → parsed_version_compare a b ≡ version_order a b
unfolding parsed_version_compare
parsed_version_compare_lem a b la lb ha hb =
    compare_numbers_lem 0 (length a) (length b) a b (omega arith) (omega arith) la lb ha hb
