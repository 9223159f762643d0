-- ===== src/Common/Bytes.antt =====
-- Bytes, byte strings and C strings (the bytes before the NUL).
use Prim.Native.Nat.{ℕ, ◌+◌, ◌<◌}
use Prim.Native.Char.{code}
use Prim.Native.String.{String}
use mathlib.Core.Path.{◌≡◌, refl}
use mathlib.Core.Bool.{Bool, true, false, ◌&&◌, ◌||◌}
use mathlib.Core.List.{List, [], ◌∷◌, map}
use native.Mathlib.Omega.{arith}
use pcr_oracle.Common.Tests.{leb, ◌==◌, if◌then◌else◌}

abbrev pub Octets : Type 0
Octets = List ℕ

abbrev pub CString : Type 0
CString = List ℕ

abbrev pub IsByte : ℕ → Type 0
IsByte b = b < 256

-- The bytes of an ASCII literal.
abbrev pub codes : String → CString
codes String.[] = []
codes (String.◌∷◌ c s) = code c ∷ codes s

-- `!memcmp(a, b, n)` on two ranges of n bytes, and `!strcmp(a, b)`.
unfoldable pub octets_eq : Octets → Octets → Bool
octets_eq [] [] = true
octets_eq [] (y ∷ ys) = false
octets_eq (x ∷ xs) [] = false
octets_eq (x ∷ xs) (y ∷ ys) = x == y && octets_eq xs ys

pub octets_eq→eq : (xs ys : Octets) → octets_eq xs ys ≡ true → xs ≡ ys
unfolding octets_eq
octets_eq→eq [] [] h = refl
octets_eq→eq [] (y ∷ ys) h = cc
octets_eq→eq (x ∷ xs) [] h = cc
octets_eq→eq (x ∷ xs) (y ∷ ys) h = ground (arith, octets_eq→eq xs ys)

pub octets_eq_refl : (xs : Octets) → octets_eq xs xs ≡ true
unfolding octets_eq
octets_eq_refl [] = refl
octets_eq_refl (x ∷ xs) = ground (arith, octets_eq_refl xs)

-- `tolower` in the C locale, and `!strcasecmp(a, b)`.
unfoldable pub tolower : ℕ → ℕ
tolower c = if leb b'A' c && leb c b'Z' then c + 32 else c

unfoldable pub case_eq : CString → CString → Bool
unfolding octets_eq tolower
case_eq a b = octets_eq (map tolower a) (map tolower b)

-- `isdigit` and `isalpha` in the C locale.
abbrev pub isdigit : ℕ → Bool
isdigit c = leb b'0' c && leb c b'9'

abbrev pub isalpha : ℕ → Bool
isalpha c = leb b'a' c && leb c b'z' || leb b'A' c && leb c b'Z'
