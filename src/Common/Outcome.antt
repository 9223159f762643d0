-- ===== src/Common/Outcome.antt =====
-- What a call of a C function comes to, and the `do` notation for it.
use mathlib.Core.Path.{◌≡◌, refl}
use mathlib.Core.Option.{Option, none, some}
use mathlib.Core.Bool.{Bool, true, false}
use pcr_oracle.Common.Tests.{if◌then◌else◌}

-- `ok`: the call returns. `fatal`: the process ends, by `fatal()` or `exit()`.
-- `undefined`: the C standard gives the run no meaning (an access past an array, a shift by 32).
pub data Outcome {ℓ} (A : Type ℓ) : Type ℓ where
  ok : A → Outcome A
  fatal : Outcome A
  undefined : Outcome A

infixl 5 ◌>>=◌ ◌>>◌
abbrev pub ◌>>=◌ {ℓ κ} : {A : Type ℓ} {B : Type κ} → Outcome A → (A → Outcome B) → Outcome B
ok a >>= f = f a
fatal >>= f = fatal
undefined >>= f = undefined

abbrev pub ◌>>◌ {ℓ} : {B : Type ℓ} → Outcome (Unit {0}) → Outcome B → Outcome B
m >> k = m >>= λ _. k

-- `if (bad) fatal(...)`
abbrev pub fatal_if : Bool → Outcome (Unit {0})
fatal_if true = fatal
fatal_if false = ok tt

-- A step that C leaves undefined unless the condition holds.
abbrev pub defined_if : Bool → Outcome (Unit {0})
defined_if true = ok tt
defined_if false = undefined

-- A jump to `failed`, or the next step.
abbrev pub or_failed {ℓ κ} :
    {A : Type ℓ} {B : Type κ} → Option A → (A → Outcome (Option B)) → Outcome (Option B)
or_failed none next = ok none
or_failed (some a) next = next a

-- A sequence that returns is two calls that return.
pub >>=-eq-ok {ℓ κ} :
    {A : Type ℓ} {B : Type κ} (first : Outcome A) (next : A → Outcome B) {b : B}
    → (first >>= next) ≡ ok b
    → (got : A) × (first ≡ ok got) × (next got ≡ ok b)
>>=-eq-ok undefined next returns = cc
>>=-eq-ok fatal next returns = cc
>>=-eq-ok (ok got) next returns = (got, refl, returns)

-- The value of a call, if it returns, has the property.
abbrev pub Holds {ℓ κ} : {A : Type ℓ} → (A → Type κ) → Outcome A → Type κ
Holds P (ok a) = P a
Holds P fatal = Unit
Holds P undefined = Unit

pub Holds->>= {ℓ κ μ ν} :
    {A : Type ℓ} {B : Type κ} (P : A → Type μ) (Q : B → Type ν) (first : Outcome A)
    (next : A → Outcome B)
    → Holds P first
    → ((a : A) → P a → Holds Q (next a))
    → Holds Q (first >>= next)
Holds->>= P Q (ok a) next h k = k a h
Holds->>= P Q fatal next h k = tt
Holds->>= P Q undefined next h k = tt

pub Holds-if {ℓ κ} :
    {A : Type ℓ} (Q : A → Type κ) (b : Bool) (x y : Outcome A)
    → Holds Q x
    → Holds Q y
    → Holds Q (if b then x else y)
Holds-if Q true x y h k = h
Holds-if Q false x y h k = k

pub Holds-fatal_if {ℓ κ} :
    {A : Type ℓ} (Q : A → Type κ) (bad : Bool) (rest : Outcome A)
    → Holds Q rest
    → Holds Q (fatal_if bad >> rest)
Holds-fatal_if Q true rest h = tt
Holds-fatal_if Q false rest h = h

pub Holds-defined_if {ℓ κ} :
    {A : Type ℓ} (Q : A → Type κ) (good : Bool) (rest : Outcome A)
    → Holds Q rest
    → Holds Q (defined_if good >> rest)
Holds-defined_if Q true rest h = h
Holds-defined_if Q false rest h = tt

pub Holds-any {ℓ} : {A : Type ℓ} (m : Outcome A) → Holds (λ a. Unit {0}) m
Holds-any (ok a) = tt
Holds-any fatal = tt
Holds-any undefined = tt

-- The call has a meaning, and its value, if it returns, has the property.
abbrev pub Ends {ℓ} : {A : Type ℓ} → (A → Type 0) → Outcome A → Type 0
Ends P (ok a) = P a
Ends P fatal = Unit
Ends P undefined = ⊥

pub Ends->>= {ℓ κ} :
    {A : Type ℓ} {B : Type κ} (P : A → Type 0) (Q : B → Type 0) (first : Outcome A)
    (next : A → Outcome B)
    → Ends P first
    → ((a : A) → P a → Ends Q (next a))
    → Ends Q (first >>= next)
Ends->>= P Q (ok a) next h k = k a h
Ends->>= P Q fatal next h k = tt
Ends->>= P Q undefined next h k = elim h [ ]

pub Ends-fatal_if {ℓ} :
    {A : Type ℓ} (Q : A → Type 0) (bad : Bool) (rest : Outcome A)
    → (bad ≡ false → Ends Q rest)
    → Ends Q (fatal_if bad >> rest)
Ends-fatal_if Q true rest h = tt
Ends-fatal_if Q false rest h = h refl

pub Ends-if {ℓ} :
    {A : Type ℓ} (Q : A → Type 0) (b : Bool) (x y : Outcome A)
    → (b ≡ true → Ends Q x)
    → (b ≡ false → Ends Q y)
    → Ends Q (if b then x else y)
Ends-if Q true x y h k = h refl
Ends-if Q false x y h k = k refl

pub Ends-map {ℓ} :
    {A : Type ℓ} (P Q : A → Type 0) (m : Outcome A) → ((a : A) → P a → Q a) → Ends P m → Ends Q m
Ends-map P Q (ok a) f h = f a h
Ends-map P Q fatal f h = tt
Ends-map P Q undefined f h = h
