-- ===== src/Common/Text.antt =====
-- Functions of <string.h> on C strings.
use Prim.Native.Nat.{ℕ}
use mathlib.Core.Path.{◌≡◌, refl}
use mathlib.Core.Logic.{◌≢◌}
use mathlib.Core.Bool.{Bool, true, false, ◌&&◌}
use mathlib.Core.Option.{Option, none, some}
use mathlib.Core.List.{List, [], ◌∷◌, ◌++◌}
use native.Mathlib.Omega.{arith}
use pcr_oracle.Common.Tests.{◌==◌, if◌then◌else◌}
use pcr_oracle.Common.Lists.{All}
use pcr_oracle.Common.Bytes.{Octets, CString}

-- strchr(s, c): what stands before the character, and behind it.
unfoldable pub split_at : ℕ → CString → Option (CString × CString)
split_at c [] = none
split_at c (x ∷ s) =
    if x == c
    then some ([], s)
    else elim (split_at c s) [ none ↦ none | some (front, back) ↦ some (x ∷ front, back) ]

pub split_at-append :
    (c : ℕ) (front back : CString)
    → All (λ x. x ≢ c) front
    → split_at c (front ++ (c ∷ back)) ≡ some (front, back)
unfolding split_at
split_at-append c [] back h = ground arith
split_at-append c (x ∷ front) back (n, h) = ground (arith, split_at-append c front back h)

-- !strncmp(prefix, s, strlen(prefix))
unfoldable pub starts_with : CString → CString → Bool
starts_with [] s = true
starts_with (x ∷ prefix) [] = false
starts_with (x ∷ prefix) (c ∷ s) = x == c && starts_with prefix s

pub starts_with-append : (prefix s : CString) → starts_with prefix (prefix ++ s) ≡ true
unfolding starts_with
starts_with-append [] s = refl
starts_with-append (x ∷ prefix) s = ground (arith, starts_with-append prefix s)

-- The C string at the start of a range of bytes.
unfoldable pub c_string : Octets → CString
c_string [] = []
c_string (b ∷ bs) = let rest = c_string bs in if b == 0 then [] else b ∷ rest

pub c_string-append :
    (s : CString) (bs : Octets) → All (λ c. c ≢ 0) s → c_string (s ++ (0 ∷ bs)) ≡ s
unfolding c_string
c_string-append [] bs h = refl
c_string-append (c ∷ s) bs (n, h) = ground (arith, c_string-append s bs h)

-- A word in front of others, where it has a character.
cons_word : CString → List CString → List CString
cons_word [] words = words
cons_word (c ∷ word) words = (c ∷ word) ∷ words

-- The characters up to the first separator, and the words behind it.
first_word : (ℕ → Bool) → CString → CString × List CString
unfolding cons_word
first_word sep [] = ([], [])
first_word sep (c ∷ s) =
    let (word, words) = first_word sep s in
    if sep c then ([], cons_word word words) else (c ∷ word, words)

-- The words that calls of strtok() give, for a set of separators.
unfoldable pub strtok : (ℕ → Bool) → CString → List CString
unfolding first_word cons_word
strtok sep s = let (word, words) = first_word sep s in cons_word word words
