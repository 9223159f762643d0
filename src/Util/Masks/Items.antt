-- ===== src/Util/Masks/Items.antt =====
-- Lists of PCR numbers and ranges, as parse_pcr_mask reads them.
use pcr_oracle.Common.{
  ℕ, zero, suc, ◌+◌, ◌-◌, ◌*◌, ◌^◌, ◌/◌, ◌%◌, ◌<◌, ◌≤◌, ◌≡◌, refl, Bool, true, false, ◌&&◌, ◌||◌,
  some, List, [], ◌∷◌, ◌++◌, leb, ltb, ◌==◌, ==_iff, if◌then◌else◌, arith, length, bit_or,
  Bool-cases, inl, inr, All, length-append,
}
use pcr_oracle.Common.Bits.{test_bit, test_bit-bit_or, zero-test_bit}
use pcr_oracle.Common.Bytes.{CString, codes, octets_eq, isdigit}
use pcr_oracle.Common.Outcome.{ok}
use pcr_oracle.Util.Masks.{
  decimal_from, strtoul, pcr_mask_set_lem, set_range_lem, parse_range, behind_number, parse_item,
  skip_commas, after_item, parse_items, parse_pcr_mask,
}

-- A number of one or two digits.
abbrev lead : ℕ → ℕ
lead i = if ltb i 10 then b'0' + i else b'0' + i / 10

abbrev more : ℕ → CString
more i = if ltb i 10 then [] else (b'0' + i % 10) ∷ []

abbrev pub digits_of : ℕ → CString
digits_of i = lead i ∷ more i

abbrev NoDigit : CString → Type 0
NoDigit [] = Unit
NoDigit (c ∷ s) = isdigit c ≡ false

decimal_from-rest : (acc : ℕ) (rest : CString) → NoDigit rest → decimal_from acc rest ≡ (acc, rest)
unfolding decimal_from
decimal_from-rest acc [] h = refl
decimal_from-rest acc (c ∷ s) h = rw h

strtoul-digits_of :
    (i : ℕ) (rest : CString) → i < 100 → NoDigit rest → strtoul (digits_of i ++ rest) ≡ (i, rest)
unfolding strtoul decimal_from
strtoul-digits_of i rest h n = elim (Bool-cases (ltb i 10)) [
  | inl e ↦
      let digit : isdigit (b'0' + i) ≡ true = ground arith in
      let value : 0 * 10 + (b'0' + i - b'0') ≡ i = omega arith in
      rw (e, digit, value, decimal_from-rest i rest n) (ground arith)
  | inr e ↦
      let digit : isdigit (b'0' + i / 10) ≡ true = ground arith in
      let digit' : isdigit (b'0' + i % 10) ≡ true = ground arith in
      let value : (0 * 10 + (b'0' + i / 10 - b'0')) * 10 + (b'0' + i % 10 - b'0') ≡ i =
        omega arith in
      rw (e, digit, digit', value, decimal_from-rest i rest n) (ground arith)
]

-- The registers from the first number to the last.
pub record MaskItem : Type 0 where
  pub first : ℕ
  pub last : ℕ

pub record IsMaskItem (x : MaskItem) : Type 0 where
  pub ordered : x.first ≤ x.last
  pub below : x.last < 32

abbrev pub selects : MaskItem → ℕ → Bool
selects x b = leb x.first b && leb b x.last

-- What `FIRST-LAST` does, in front of a text that starts with no digit.
parse_item-range :
    (x : MaskItem) (rest : CString) (mask : ℕ)
    → IsMaskItem x
    → NoDigit rest
    → (mask' : ℕ) × (parse_item (digits_of x.first ++ (b'-' ∷ (digits_of x.last ++ rest))) mask
        ≡ ok (mask', rest))
      × ((b : ℕ) → test_bit mask' b ≡ (selects x b || test_bit mask b))
unfolding parse_item behind_number parse_range
parse_item-range x rest mask v n =
    let (mask', runs, bits) =
      set_range_lem (x.last - x.first) x.first mask (omega (arith, v.ordered, v.below)) in
    let digit : isdigit (lead x.last) ≡ true = ground (arith, v.below) in
    let top : (if ltb x.first x.last then x.last else x.first) ≡ x.last =
      ground (arith, v.ordered) in
    (
      bit_or mask' (2 ^ x.last),
      rw
          (
            strtoul-digits_of x.first (b'-' ∷ (digits_of x.last ++ rest))
                (omega (arith, v.ordered, v.below)) refl,
            strtoul-digits_of x.last rest (omega (arith, v.below)) n,
            digit,
            runs,
            top,
            pcr_mask_set_lem mask' x.last v.below,
          )
          refl,
      λ b. ground (arith, test_bit-bit_or mask' x.last b, bits b, ==_iff x.last b, v.ordered),
    )

-- `FIRST-LAST` in front of a text.
abbrev pub item_then : MaskItem → CString → CString
item_then x rest = digits_of x.first ++ (b'-' ∷ (digits_of x.last ++ rest))

abbrev pub behind : List MaskItem → CString
behind [] = []
behind (x ∷ xs) = b',' ∷ item_then x (behind xs)

-- The items with a comma between two of them.
abbrev pub text_of : List MaskItem → CString
text_of [] = []
text_of (x ∷ xs) = item_then x (behind xs)

abbrev pub any_selects : List MaskItem → ℕ → Bool
any_selects [] b = false
any_selects (x ∷ xs) b = selects x b || any_selects xs b

behind-NoDigit : (xs : List MaskItem) → NoDigit (behind xs)
behind-NoDigit [] = tt
behind-NoDigit (x ∷ xs) = refl

skip_commas-behind : (xs : List MaskItem) → skip_commas (behind xs) ≡ text_of xs
unfolding skip_commas
skip_commas-behind [] = refl
skip_commas-behind (x ∷ xs) =
    let no_comma : (lead x.first == b',') ≡ false = ground arith in rw no_comma refl

length-item_then : (x : MaskItem) (rest : CString) → length rest < length (item_then x rest)
length-item_then x rest = omega (
  arith,
  length-append (more x.first) (b'-' ∷ (digits_of x.last ++ rest)),
  length-append (more x.last) rest,
)

length-behind : (xs : List MaskItem) → length xs ≤ length (behind xs)
length-behind [] = omega arith
length-behind (x ∷ xs) = omega (arith, length-behind xs, length-item_then x (behind xs))

length-text_of : (xs : List MaskItem) → length xs ≤ length (text_of xs)
length-text_of [] = omega arith
length-text_of (x ∷ xs) = omega (arith, length-behind xs, length-item_then x (behind xs))

parse_items-text_of :
    (rounds : ℕ) (xs : List MaskItem) (mask : ℕ)
    → length xs < rounds
    → All IsMaskItem xs
    → (mask' : ℕ) × (parse_items rounds (text_of xs) mask ≡ some (ok (true, mask')))
      × ((b : ℕ) → test_bit mask' b ≡ (any_selects xs b || test_bit mask b))
unfolding parse_items after_item
parse_items-text_of zero xs mask h v = elim h [ ]
parse_items-text_of (suc rounds) [] mask h v = (mask, refl, λ b. refl)
parse_items-text_of (suc rounds) (x ∷ xs) mask h (v, vs) =
    let (mask1, runs, bits) = parse_item-range x (behind xs) mask v (behind-NoDigit xs) in
    let (mask2, goes_on, bits') = parse_items-text_of rounds xs mask1 (omega arith) vs in
    let digit : isdigit (lead x.first) ≡ true = ground (arith, v.ordered, v.below) in
    (mask2, rw (digit, runs, skip_commas-behind xs) goes_on, λ b. ground (arith, bits b, bits' b))

text_of_is_no_keyword :
    (xs : List MaskItem) → All IsMaskItem xs → octets_eq (text_of xs) (codes "all") ≡ false
unfolding octets_eq
text_of_is_no_keyword [] h = refl
text_of_is_no_keyword (x ∷ xs) (v, vs) =
    let no_a : (lead x.first == b'a') ≡ false = ground (arith, v.ordered, v.below) in rw no_a refl

-- A list of ranges FIRST-LAST of registers below 32, with commas between them, is read to the mask that
-- has exactly the bits of the ranges; the reader's rounds are enough.
pub parse_pcr_mask-text_of :
    (xs : List MaskItem)
    → All IsMaskItem xs
    → (mask : ℕ) × (parse_pcr_mask (text_of xs) ≡ some (ok (true, mask)))
      × ((b : ℕ) → test_bit mask b ≡ any_selects xs b)
unfolding parse_pcr_mask
parse_pcr_mask-text_of xs v =
    let (mask, runs, bits) =
      parse_items-text_of (suc (length (text_of xs))) xs 0 (omega (arith, length-text_of xs)) v in
    (mask, rw (text_of_is_no_keyword xs v) runs, λ b. ground (arith, bits b, zero-test_bit b))
