-- ===== src/Common/Words.antt =====
-- Machine words as native numbers: differences that wrap, and the little-endian form.
use Prim.Native.Nat.{ℕ, zero, suc, ◌+◌, ◌-◌, ◌*◌, ◌/◌, ◌%◌, ◌^◌, ◌<◌}
use mathlib.Core.Path.{◌≡◌, refl, ap}
use mathlib.Core.List.{[], ◌∷◌}
use native.Mathlib.Omega.{arith}
use native.Mathlib.Nat.{pow-suc}
use pcr_oracle.Common.Lists.{length, All}
use pcr_oracle.Common.Bytes.{Octets, IsByte}

abbrev pub u32_mod : ℕ
u32_mod = 2 ^ 32

abbrev pub u64_mod : ℕ
u64_mod = 2 ^ 64

-- `a - b` on `size_t`, on `unsigned int`.
abbrev pub sub64 : ℕ → ℕ → ℕ
sub64 a b = (a + u64_mod - b) % u64_mod

abbrev pub sub32 : ℕ → ℕ → ℕ
sub32 a b = (a + u32_mod - b) % u32_mod

abbrev pub add32 : ℕ → ℕ → ℕ
add32 a b = (a + b) % u32_mod

-- The number that a little-endian machine reads from a range of bytes.
unfoldable pub le_value : Octets → ℕ
le_value [] = 0
le_value (b ∷ bs) = b + 256 * le_value bs

-- The `k` low bytes of `v`, lowest first.
unfoldable pub le_octets : ℕ → ℕ → Octets
le_octets zero v = []
le_octets (suc k) v = v % 256 ∷ le_octets k (v / 256)

pub length-le_octets : (k v : ℕ) → length (le_octets k v) ≡ k
unfolding le_octets
length-le_octets zero v = refl
length-le_octets (suc k) v = ap suc (length-le_octets k (v / 256))

pub le_octets-IsByte : (k v : ℕ) → All IsByte (le_octets k v)
unfolding le_octets
le_octets-IsByte zero v = tt
le_octets-IsByte (suc k) v = (omega arith, le_octets-IsByte k (v / 256))

pub le_value-le_octets : (k v : ℕ) → v < 256 ^ k → le_value (le_octets k v) ≡ v
unfolding le_value le_octets
le_value-le_octets zero v h = omega arith
le_value-le_octets (suc k) v h =
    omega (arith, le_value-le_octets k (v / 256) (omega (arith, pow-suc 256 k)))

pub le_octets-le_value : (bs : Octets) → All IsByte bs → le_octets (length bs) (le_value bs) ≡ bs
unfolding le_value le_octets
le_octets-le_value [] h = refl
le_octets-le_value (b ∷ bs) (hb, hbs) =
    let low : (b + 256 * le_value bs) % 256 ≡ b = omega arith in
    let high : (b + 256 * le_value bs) / 256 ≡ le_value bs = omega arith in
    rw (low, high) (ap (λ t. b ∷ t) (le_octets-le_value bs hbs))

pub le_value-lt : (bs : Octets) → All IsByte bs → le_value bs < 256 ^ length bs
unfolding le_value
le_value-lt [] h = omega arith
le_value-lt (b ∷ bs) (hb, hbs) = omega (arith, le_value-lt bs hbs, pow-suc 256 (length bs))
