-- ===== src/Util/Masks.antt =====
-- PCR masks of src/util.c: pcr_mask_set and parse_pcr_mask.
pub mod Items
use pcr_oracle.Common.{
  ℕ, zero, suc, ◌+◌, ◌-◌, ◌*◌, ◌^◌, ◌/◌, ◌%◌, ◌<◌, ◌≤◌, ◌≡◌, refl, sym, ap, ◌∙◌, Bool, true, false,
  not, ◌&&◌, ◌||◌, Option, none, some, List, [], ◌∷◌, ◌++◌, leb, ltb, ◌==◌, ==_iff, if◌then◌else◌,
  arith, length, bit_or, Bool-cases, inl, inr,
}
use pcr_oracle.Common.Bits.{test_bit, test_bit-bit_or}
use pcr_oracle.Common.Bytes.{CString, codes, octets_eq, isdigit}
use pcr_oracle.Common.Words.{u32_mod, u64_mod}
use pcr_oracle.Common.Outcome.{Outcome, ok, fatal, undefined, ◌>>=◌, ◌>>◌, fatal_if}

-- The digits at the start of a text, and what is behind them.
decimal_from : ℕ → CString → ℕ × CString
decimal_from acc [] = (acc, [])
decimal_from acc (c ∷ s) =
    let rest = decimal_from (acc * 10 + (c - b'0')) s in if isdigit c then rest else (acc, c ∷ s)

-- strtoul(word, &end, 10) on a word that starts with a digit, stored in an unsigned int. A value that is
-- too large for an unsigned long becomes ULONG_MAX.
unfoldable pub strtoul : CString → ℕ × CString
unfolding decimal_from
strtoul word =
    let (value, end) = decimal_from 0 word in
    ((if ltb value u64_mod then value else u64_mod - 1) % u32_mod, end)

unfoldable pub pcr_mask_set : ℕ → ℕ → Outcome ℕ
pcr_mask_set mask index = do fatal_if (leb 32 index); ok (bit_or mask (2 ^ index))

-- `while (value < last) pcr_mask_set(ret, value++);`, of which `n` rounds are to go.
unfoldable pub set_range : ℕ → ℕ → ℕ → Outcome ℕ
set_range zero value mask = ok mask
set_range (suc n) value mask = do mask' ← pcr_mask_set mask value; set_range n (value + 1) mask'

-- One number or range, and the text behind it. Behind the loop the value is the larger of the two.
parse_range : ℕ → ℕ → CString → ℕ → Outcome (ℕ × CString)
parse_range value last end mask = do
  mask' ← set_range (last - value) value mask
  mask'' ← pcr_mask_set mask' (if ltb value last then last else value)
  ok (mask'', end)

parse_single : ℕ → CString → ℕ → Outcome (ℕ × CString)
parse_single value end mask = do mask' ← pcr_mask_set mask value; ok (mask', end)

behind_number : ℕ → CString → ℕ → Outcome (ℕ × CString)
unfolding parse_range parse_single
behind_number value [] mask = parse_single value [] mask
behind_number value (c ∷ []) mask = parse_single value (c ∷ []) mask
behind_number value (c ∷ d ∷ end) mask =
    let (last, end') = strtoul (d ∷ end) in
    if c == b'-' && isdigit d
    then parse_range value last end' mask
    else parse_single value (c ∷ d ∷ end) mask

unfoldable pub parse_item : CString → ℕ → Outcome (ℕ × CString)
unfolding behind_number
parse_item word mask = let (value, end) = strtoul word in behind_number value end mask

skip_commas : CString → CString
skip_commas [] = []
skip_commas (c ∷ s) = let rest = skip_commas s in if c == b',' then rest else c ∷ s

-- The result and `*ret`; `none` is a loop that has not ended within the rounds.
abbrev pub Parsed : Type 0
Parsed = Option (Outcome (Bool × ℕ))

after_item : Outcome (ℕ × CString) → (CString → ℕ → Parsed) → Parsed
unfolding skip_commas
after_item (ok (mask, end)) next = next (skip_commas end) mask
after_item fatal next = some fatal
after_item undefined next = some undefined

unfoldable pub parse_items : ℕ → CString → ℕ → Parsed
unfolding after_item
parse_items zero word mask = none
parse_items (suc rounds) [] mask = some (ok (true, mask))
parse_items (suc rounds) (c ∷ word) mask =
    let rest =
      after_item (parse_item (c ∷ word) mask) (λ word' mask'. parse_items rounds word' mask') in
    if isdigit c then rest else some (ok (false, mask))

-- Every round takes a digit.
unfoldable pub parse_pcr_mask : CString → Parsed
unfolding octets_eq
parse_pcr_mask word =
    if octets_eq word (codes "all")
    then some (ok (true, u32_mod - 1))
    else parse_items (suc (length word)) word 0

pub pcr_mask_set_lem : (mask i : ℕ) → i < 32 → pcr_mask_set mask i ≡ ok (bit_or mask (2 ^ i))
unfolding pcr_mask_set
pcr_mask_set_lem mask i h = let low : leb 32 i ≡ false = ground arith in rw low

-- The rounds of a range below 32 set the bits of the range and no other.
pub set_range_lem :
    (n value mask : ℕ)
    → value + n ≤ 32
    → (mask' : ℕ) × (set_range n value mask ≡ ok mask')
      × ((b : ℕ) → test_bit mask' b ≡ (leb value b && ltb b (value + n) || test_bit mask b))
unfolding set_range
set_range_lem zero value mask h = (mask, refl, λ b. ground arith)
set_range_lem (suc n) value mask h =
    let (mask', runs, bits) = set_range_lem n (value + 1) (bit_or mask (2 ^ value)) (omega arith) in
    (
      mask',
      rw (pcr_mask_set_lem mask value (omega arith)) runs,
      λ b. ground (arith, bits b, test_bit-bit_or mask value b, ==_iff value b),
    )
