-- ===== src/Prelude/Checked.antt =====
-- Code that may fail, as an `Option`; `Returns` says that it does not.
use mathlib.Core.Option.{Option, none, some}
use mathlib.Core.Path.{◌≡◌, refl}

infixl 5 ◌>>=◌
abbrev pub ◌>>=◌ : {A B : Type 0} → Option A → (A → Option B) → Option B
none >>= f = none
some a >>= f = f a

-- The code does not fail, and its result is so.
abbrev pub Ensures : {A : Type 0} → (A → Type 0) → Option A → Type 0
Ensures P none = ⊥
Ensures P (some a) = P a

abbrev pub Returns : {A : Type 0} → Option A → Type 0
Returns = Ensures (λ _. Unit)

pub >>=-Ensures :
    {A B : Type 0} (Q : B → Type 0) (m : Option A) (f : A → Option B)
    → Returns m
    → ((a : A) → m ≡ some a → Ensures Q (f a))
    → Ensures Q (m >>= f)
>>=-Ensures Q none f r h = absurd r
>>=-Ensures Q (some a) f r h = h a refl

pub >>=-Ensures_of :
    {A B : Type 0} (P : A → Type 0) (Q : B → Type 0) (m : Option A) (f : A → Option B)
    → Ensures P m
    → ((a : A) → P a → Ensures Q (f a))
    → Ensures Q (m >>= f)
>>=-Ensures_of P Q none f r h = absurd r
>>=-Ensures_of P Q (some a) f r h = h a r

pub Ensures-some :
    {A : Type 0} (P : A → Type 0) (m : Option A) → Ensures P m → (a : A) × (m ≡ some a) × P a
Ensures-some P none r = absurd r
Ensures-some P (some a) r = (a, refl, r)
