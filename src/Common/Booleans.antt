-- ===== src/Common/Booleans.antt =====
-- Laws of the Boolean operations, and tests on the elements of a list.
use mathlib.Core.Path.{◌≡◌, refl, ap, ◌∙◌, sym}
use mathlib.Core.Bool.{Bool, true, false, not, ◌&&◌, ◌||◌}
use mathlib.Core.List.{List, [], ◌∷◌, ◌++◌}

pub or_false : (b : Bool) → (b || false) ≡ b
or_false true = refl
or_false false = refl

pub or_true : (b : Bool) → (b || true) ≡ true
or_true true = refl
or_true false = refl

pub or_assoc : (a b c : Bool) → ((a || b) || c) ≡ (a || (b || c))
or_assoc true b c = refl
or_assoc false b c = refl

pub or_swap : (a b c : Bool) → (a || (b || c)) ≡ (b || (a || c))
or_swap true true c = refl
or_swap true false c = refl
or_swap false true c = refl
or_swap false false c = refl

pub and_or : (s n r : Bool) → (s && n || s && r) ≡ (s && (n || r))
and_or true n r = refl
and_or false n r = refl

pub or_and : (n r s : Bool) → (n && s || r && s) ≡ ((n || r) && s)
or_and true true true = refl
or_and true true false = refl
or_and true false true = refl
or_and true false false = refl
or_and false r s = refl

pub and_false : (s : Bool) → (s && false) ≡ false
and_false true = refl
and_false false = refl

pub and_true : (s : Bool) → (s && true) ≡ s
and_true true = refl
and_true false = refl

pub and_assoc : (a b c : Bool) → ((a && b) && c) ≡ (a && (b && c))
and_assoc true b c = refl
and_assoc false b c = refl

-- `not` of an `or`, behind an `and`.
pub and_not_or : (c a b : Bool) → ((c && not a) && not b) ≡ (c && not (a || b))
and_not_or true true b = refl
and_not_or true false b = refl
and_not_or false a b = refl

-- Some element passes the test.
unfoldable pub any {ℓ} : {A : Type ℓ} → (A → Bool) → List A → Bool
any p [] = false
any p (x ∷ xs) = p x || any p xs

pub any-append {ℓ} :
    {A : Type ℓ} (p : A → Bool) (xs ys : List A) → any p (xs ++ ys) ≡ (any p xs || any p ys)
unfolding any
any-append p [] ys = refl
any-append p (x ∷ xs) ys =
    ap (λ b. p x || b) (any-append p xs ys) ∙ sym (or_assoc (p x) (any p xs) (any p ys))
