-- ===== src/Common/Bits.antt =====
-- One bit of a mask: what `mask & (1 << i)` and `mask |= 1 << i` do, as laws of the native operations.
use Prim.Native.Nat.{
  ℕ, zero, suc, ◌+◌, ◌*◌, ◌/◌, ◌%◌, ◌^◌, ◌-◌, ◌≤◌, ◌<◌, min, max, bit_and, bit_or, digits,
  bit_and-bitwise, bit_or-bitwise,
}
use mathlib.Core.Path.{◌≡◌, refl, sym, ap, ◌∙◌}
use mathlib.Core.Bool.{Bool, true, false, not, ◌||◌}
use native.Mathlib.Omega.{arith}
use native.Mathlib.Nat.{pow-suc}
use pcr_oracle.Common.Tests.{◌==◌}

-- `digits only both rounds a b` goes through the binary digits of `a`; what is left of `b` where `a` is
-- used up is `only`'s.
module _ (only : ℕ → ℕ) (both : ℕ → ℕ → ℕ) where
  -- One round more than the digits of `a` need changes nothing.
  one_more_round :
      (rounds a b : ℕ)
      → a ≤ rounds
      → digits only both (suc rounds) a b ≡ digits only both rounds a b
  one_more_round zero a b enough = let none_left : a ≡ 0 = omega arith in rw none_left
  one_more_round (suc rounds) zero b enough = refl
  one_more_round (suc rounds) (suc a) b enough =
      ap (λ high. high * 2 + both (suc a % 2) (b % 2))
        (one_more_round rounds (suc a / 2) (b / 2) (omega arith))

  more_rounds :
      (extra total rounds a b : ℕ)
      → total ≡ extra + rounds
      → a ≤ rounds
      → digits only both total a b ≡ digits only both rounds a b
  more_rounds zero total rounds a b sum enough = let same : total ≡ rounds = omega arith in rw same
  more_rounds (suc extra) zero rounds a b sum enough = absurd (omega arith)
  more_rounds (suc extra) (suc total) rounds a b sum enough =
      one_more_round total a b (omega arith)
      ∙ more_rounds extra total rounds a b (omega arith) enough

  -- As many rounds as `a` has units, for the half of `suc a`.
  half_rounds :
      (a b : ℕ) → digits only both a (suc a / 2) b ≡ digits only both (suc a / 2) (suc a / 2) b
  half_rounds a b =
      more_rounds (a - suc a / 2) a (suc a / 2) (suc a / 2) b (omega arith) (omega arith)

pub zero-bit_and : (b : ℕ) → bit_and 0 b ≡ 0
zero-bit_and b = bit_and-bitwise 0 b

pub zero-bit_or : (b : ℕ) → bit_or 0 b ≡ b
zero-bit_or b = bit_or-bitwise 0 b

-- The lowest digit apart.
pub bit_or_step : (x y : ℕ) → bit_or x y ≡ bit_or (x / 2) (y / 2) * 2 + max (x % 2) (y % 2)
bit_or_step zero y = omega (arith, zero-bit_or (y / 2), zero-bit_or y)
bit_or_step (suc a) b =
    bit_or-bitwise (suc a) b
    ∙ ap (λ high. high * 2 + max (suc a % 2) (b % 2))
        (half_rounds (λ y. y) max a (b / 2) ∙ sym (bit_or-bitwise (suc a / 2) (b / 2)))

pub bit_and_step : (x y : ℕ) → bit_and x y ≡ bit_and (x / 2) (y / 2) * 2 + min (x % 2) (y % 2)
bit_and_step zero y = omega (arith, zero-bit_and (y / 2), zero-bit_and y)
bit_and_step (suc a) b =
    bit_and-bitwise (suc a) b
    ∙ ap (λ high. high * 2 + min (suc a % 2) (b % 2))
        (half_rounds (λ y. zero) min a (b / 2) ∙ sym (bit_and-bitwise (suc a / 2) (b / 2)))

-- An `and` is at most either side.
pub bit_and-le : (n a b : ℕ) → a ≤ n → (bit_and a b ≤ a) × (bit_and a b ≤ b)
bit_and-le n zero b p = (omega (arith, zero-bit_and b), omega (arith, zero-bit_and b))
bit_and-le zero (suc a) b p = absurd (omega arith)
bit_and-le (suc n) (suc a) b p =
    let (l, r) = bit_and-le n (suc a / 2) (b / 2) (omega arith) in
    (omega (arith, bit_and_step (suc a) b), omega (arith, bit_and_step (suc a) b))

-- An `or` lies between its left side and the sum.
bit_or-le : (n a b : ℕ) → a ≤ n → (a ≤ bit_or a b) × (bit_or a b ≤ a + b)
bit_or-le n zero b p = (omega (arith, zero-bit_or b), omega (arith, zero-bit_or b))
bit_or-le zero (suc a) b p = absurd (omega arith)
bit_or-le (suc n) (suc a) b p =
    let (l, r) = bit_or-le n (suc a / 2) (b / 2) (omega arith) in
    (omega (arith, bit_or_step (suc a) b), omega (arith, bit_or_step (suc a) b))

pub bit_and-zero : (a : ℕ) → bit_and a 0 ≡ 0
bit_and-zero a = let (l, r) = bit_and-le a a 0 (omega arith) in omega arith

pub bit_or-zero : (a : ℕ) → bit_or a 0 ≡ a
bit_or-zero a = let (l, r) = bit_or-le a a 0 (omega arith) in omega arith

-- Bit `i` of `m`, by the position.
unfoldable pub test_bit : ℕ → ℕ → Bool
test_bit m zero = m % 2 == 1
test_bit m (suc i) = test_bit (m / 2) i

pub pow_suc : (i : ℕ) → 2 ^ suc i ≡ 2 * 2 ^ i
pow_suc i = omega (arith, pow-suc 2 i)

pub pow_pos : (i : ℕ) → 0 < 2 ^ i
pow_pos zero = omega arith
pow_pos (suc i) = omega (arith, pow_suc i, pow_pos i)

-- `m & (1 << i)` is not 0 exactly if bit `i` of `m` is set.
pub bit_and-test_bit : (m i : ℕ) → (bit_and m (2 ^ i) == 0) ≡ not (test_bit m i)
unfolding test_bit
bit_and-test_bit m zero = ground (arith, bit_and_step m 1, bit_and-zero (m / 2))
bit_and-test_bit m (suc i) =
    ground (arith, bit_and_step m (2 ^ suc i), pow_suc i, bit_and-test_bit (m / 2) i)

half_or_one : (m : ℕ) → bit_or m 1 / 2 ≡ m / 2
half_or_one m = omega (arith, bit_or_step m 1, bit_or-zero (m / 2))

half_or_pow : (m i : ℕ) → bit_or m (2 ^ suc i) / 2 ≡ bit_or (m / 2) (2 ^ i)
half_or_pow m i =
    let e : 2 ^ suc i / 2 ≡ 2 ^ i = omega (arith, pow_suc i) in
    omega (arith, bit_or_step m (2 ^ suc i), ap (bit_or (m / 2)) e)

-- `m |= 1 << i` sets bit `i` and no other.
pub test_bit-bit_or : (m i j : ℕ) → test_bit (bit_or m (2 ^ i)) j ≡ (i == j || test_bit m j)
unfolding test_bit
test_bit-bit_or m zero zero = ground (arith, bit_or_step m 1)
test_bit-bit_or m zero (suc j) = rw half_or_one (ground arith)
test_bit-bit_or m (suc i) zero = ground (arith, bit_or_step m (2 ^ suc i), pow_suc i)
test_bit-bit_or m (suc i) (suc j) = rw half_or_pow (ground (arith, test_bit-bit_or (m / 2) i j))

pub zero-test_bit : (i : ℕ) → test_bit 0 i ≡ false
unfolding test_bit
zero-test_bit zero = refl
zero-test_bit (suc i) = zero-test_bit i

-- The mask stays a 32-bit word.
pub bit_or-lt : (k a b : ℕ) → a < 2 ^ k → b < 2 ^ k → bit_or a b < 2 ^ k
bit_or-lt zero zero zero p q = omega arith
bit_or-lt zero zero (suc b) p q = absurd (omega arith)
bit_or-lt zero (suc a) b p q = absurd (omega arith)
bit_or-lt (suc k) a b p q = omega (
  arith,
  bit_or_step a b,
  pow_suc k,
  bit_or-lt k (a / 2) (b / 2) (omega (arith, pow_suc k)) (omega (arith, pow_suc k)),
)

-- Two words below `2 ^ k` with the same bits are the same.
pub test_bit_ext :
    (k a b : ℕ) → a < 2 ^ k → b < 2 ^ k → ((i : ℕ) → i < k → test_bit a i ≡ test_bit b i) → a ≡ b
unfolding test_bit
test_bit_ext zero a b p q h = omega arith
test_bit_ext (suc k) a b p q h =
    let ih : a / 2 ≡ b / 2 =
      test_bit_ext k (a / 2) (b / 2) (omega (arith, pow_suc k)) (omega (arith, pow_suc k))
        (λ i hi. h (suc i) (omega arith)) in
    ground (arith, ih, h 0 (omega arith))

-- Every bit of `2 ^ k - 1` below `k` is set.
pub ones-test_bit : (k i : ℕ) → i < k → test_bit (2 ^ k - 1) i ≡ true
unfolding test_bit
ones-test_bit zero i h = absurd (omega arith)
ones-test_bit (suc k) zero h = ground (arith, pow_suc k, pow_pos k)
ones-test_bit (suc k) (suc i) h =
    let e : (2 ^ suc k - 1) / 2 ≡ 2 ^ k - 1 = omega (arith, pow_suc k, pow_pos k) in
    rw e (ones-test_bit k i (omega arith))
