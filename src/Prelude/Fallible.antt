-- ===== src/Prelude/Fallible.antt =====
-- Code that throws: `returns a` where it gives `a`, `throws e` where the exception `e` leaves it.
use mathlib.Core.Path.{◌≡◌, refl}
use mathlib.Core.Logic.{◌⊎◌, inl, inr}
use mathlib.Core.Bool.{Bool, true, false}

pub data Result (E A : Type 0) : Type 0 where
  returns : A → Result E A
  throws : E → Result E A

infixl 5 ◌>>=◌ ◌>>◌
abbrev pub ◌>>=◌ : {E A B : Type 0} → Result E A → (A → Result E B) → Result E B
returns a >>= f = f a
throws e >>= f = throws e

abbrev pub ◌>>◌ : {E B : Type 0} → Result E (Unit {0}) → Result E B → Result E B
m >> k = m >>= λ _. k

-- `throw`, where the test holds.
abbrev pub throw_if : {E : Type 0} → Bool → E → Result E (Unit {0})
throw_if true e = throws e
throw_if false e = returns tt

-- `catch`: the exception, turned into another.
abbrev pub catching : {D E A : Type 0} → (D → E) → Result D A → Result E A
catching f (returns a) = returns a
catching f (throws e) = throws (f e)

pub Result-cases :
    {E A : Type 0} (r : Result E A) → ((a : A) × (r ≡ returns a)) ⊎ ((e : E) × (r ≡ throws e))
Result-cases (returns a) = inl (a, refl)
Result-cases (throws e) = inr (e, refl)

pub returns-injective :
    {E A : Type 0} {r : Result E A} {a b : A} → r ≡ returns a → r ≡ returns b → a ≡ b
returns-injective h g = cc (h, g)
