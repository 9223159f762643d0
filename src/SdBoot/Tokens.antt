-- ===== src/SdBoot/Tokens.antt =====
-- Which paths `is_valid_entry_token` of src/sd-boot.c accepts.
use pcr_oracle.Common.{
  ℕ, ◌<◌, ◌≡◌, ◌∙◌, Bool, true, false, not, ◌&&◌, ◌||◌, List, [], ◌∷◌, ◌==◌, if◌then◌else◌, arith,
  bit_or,
}
use pcr_oracle.Common.Bits.{test_bit, test_bit-bit_or, bit_or-lt, zero-test_bit}
use pcr_oracle.Common.Booleans.{any, or_false, or_true, or_assoc, and_or, and_false}
use pcr_oracle.Common.Bytes.{CString, octets_eq}
use pcr_oracle.Common.Text.{starts_with, strtok}
use pcr_oracle.SdBoot.{is_valid_entry_token, match_path, match_tokens, match_token, is_slash}

-- A component that is a token.
unfoldable pub names_token : List CString → CString → Bool
unfolding any
names_token tokens ptr = any (octets_eq ptr) tokens

-- A component with the prefix, where some token is another text.
unfoldable pub has_prefix : CString → List CString → CString → Bool
unfolding any
has_prefix prefix tokens ptr = starts_with prefix ptr && any (λ t. not (octets_eq ptr t)) tokens

-- The two bits, of which `found` is made.
abbrev Bits : ℕ → Bool → Bool → Type 0
Bits found a b = (found < 4) × (test_bit found 0 ≡ a) × (test_bit found 1 ≡ b)

set_low : (found : ℕ) (a b : Bool) → Bits found a b → Bits (bit_or found 1) true b
set_low found a b (small, low, high) = (
  bit_or-lt 2 found 1 small (omega arith),
  test_bit-bit_or found 0 0,
  test_bit-bit_or found 0 1 ∙ high,
)

set_high : (found : ℕ) (a b : Bool) → Bits found a b → Bits (bit_or found 2) a true
set_high found a b (small, low, high) = (
  bit_or-lt 2 found 2 small (omega arith),
  test_bit-bit_or found 1 0 ∙ low,
  test_bit-bit_or found 1 1,
)

-- The round on a component that is the token, has the prefix, or neither.
token_step :
    (found : ℕ) (equal starts a b : Bool)
    → Bits found a b
    → Bits
        (if equal then bit_or found 1 else if starts then bit_or found 2 else found)
        (a || equal)
        (b || starts && not equal)
token_step found true starts a b h =
    rw (and_false starts, or_false b, or_true a) (set_low found a b h)
token_step found false true a b h = rw (or_false a, or_true b) (set_high found a b h)
token_step found false false a b h = rw (or_false a, or_false b) h

match_token-Bits :
    (prefix ptr token : CString) (found : ℕ) (a b : Bool)
    → Bits found a b
    → Bits
        (match_token prefix ptr token found)
        (a || octets_eq ptr token)
        (b || starts_with prefix ptr && not (octets_eq ptr token))
unfolding match_token
match_token-Bits prefix ptr token found a b h =
    token_step found (octets_eq ptr token) (starts_with prefix ptr) a b h

match_tokens-Bits :
    (prefix ptr : CString) (tokens : List CString) (found : ℕ) (a b : Bool)
    → Bits found a b
    → Bits
        (match_tokens prefix ptr tokens found)
        (a || names_token tokens ptr)
        (b || has_prefix prefix tokens ptr)
unfolding match_tokens names_token has_prefix any
match_tokens-Bits prefix ptr [] found a b h =
    rw (or_false a, and_false (starts_with prefix ptr), or_false b) h
match_tokens-Bits prefix ptr (t ∷ ts) found a b h =
    rw
      (
        ← or_assoc a (octets_eq ptr t) (any (octets_eq ptr) ts),
        ← and_or (starts_with prefix ptr) (not (octets_eq ptr t))
            (any (λ t. not (octets_eq ptr t)) ts),
        ← or_assoc b (starts_with prefix ptr && not (octets_eq ptr t))
            (starts_with prefix ptr && any (λ t. not (octets_eq ptr t)) ts),
      )
      (match_tokens-Bits prefix ptr ts (match_token prefix ptr t found) _ _
        (match_token-Bits prefix ptr t found a b h))

match_path-Bits :
    (prefix : CString) (ptrs : List CString) (tokens : List CString) (found : ℕ) (a b : Bool)
    → Bits found a b
    → Bits
        (match_path prefix ptrs tokens found)
        (a || any (names_token tokens) ptrs)
        (b || any (has_prefix prefix tokens) ptrs)
unfolding match_path any
match_path-Bits prefix [] tokens found a b h = rw (or_false a, or_false b) h
match_path-Bits prefix (p ∷ ps) tokens found a b h =
    rw
      (
        ← or_assoc a (names_token tokens p) (any (names_token tokens) ps),
        ← or_assoc b (has_prefix prefix tokens p) (any (has_prefix prefix tokens) ps),
      )
      (match_path-Bits prefix ps tokens (match_tokens prefix p tokens found) _ _
        (match_tokens-Bits prefix p tokens found a b h))

three_is_both : (found : ℕ) (a b : Bool) → Bits found a b → (found == 3) ≡ (a && b)
unfolding test_bit
three_is_both found a b (small, low, high) = rw (← low, ← high) (ground arith)

-- A path is a kernel's or an initrd's for its prefix exactly if one of its components between slashes is
-- an entry token, and one of them starts with the prefix and is another text than some token.
pub is_valid_entry_token_lem :
    (tokens : List CString) (application prefix : CString)
    → is_valid_entry_token tokens application prefix ≡ (
        any (names_token tokens) (strtok is_slash application)
        && any (has_prefix prefix tokens) (strtok is_slash application))
unfolding is_valid_entry_token
is_valid_entry_token_lem tokens application prefix = three_is_both _ _ _ (
    match_path-Bits prefix (strtok is_slash application) tokens 0 false false
      (omega arith, zero-test_bit 0, zero-test_bit 1))
