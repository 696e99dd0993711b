-- ===== src/Base/Fallible.antt =====
-- Results of the constructors and loaders of the program, which return a value or an error.
use mathlib.Core.Path.{◌≡◌, refl}
use mathlib.Core.Option.{Option, none, some}

pub data Fallible (E A : Type 0) : Type 0 where
  failure : E → Fallible E A
  success : A → Fallible E A

infixl 5 ◌>>=◌ ◌>>◌
abbrev pub ◌>>=◌ : {E A B : Type 0} → Fallible E A → (A → Fallible E B) → Fallible E B
failure why >>= next = failure why
success a >>= next = next a

abbrev pub ◌>>◌ : {E B : Type 0} → Fallible E (Unit {0}) → Fallible E B → Fallible E B
first >> second = first >>= λ u. second

-- An error in place of a value that is missing.
abbrev pub or_failure : {E A : Type 0} → E → Option A → Fallible E A
or_failure why (some a) = success a
or_failure why none = failure why

-- Where a chain succeeds, its first part does.
pub >>=-eq-success :
    {E A B : Type 0} (m : Fallible E A) (next : A → Fallible E B) {b : B}
    → (m >>= next) ≡ success b
    → (a : A) × (m ≡ success a) × (next a ≡ success b)
>>=-eq-success (failure why) next h = cc
>>=-eq-success (success a) next h = (a, refl, h)

pub or_failure-eq-success :
    {E A : Type 0} (why : E) (o : Option A) {a : A} → or_failure why o ≡ success a → o ≡ some a
or_failure-eq-success why (some a) h = cc
or_failure-eq-success why none h = cc

pub success-injective :
    {E A : Type 0} {a b : A} → ◌≡◌ {A = Fallible E A} (success a) (success b) → a ≡ b
success-injective e = cc

pub failure-ne-success :
    {E A : Type 0} (why : E) (a : A) → ◌≡◌ {A = Fallible E A} (failure why) (success a) → ⊥
failure-ne-success why a h = cc
