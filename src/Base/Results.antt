-- ===== src/Base/Results.antt =====
-- Code that throws returns a result: `err` is what it throws.
use mathlib.Core.Bool.{Bool, true, false}
use mathlib.Core.Path.{◌≡◌, refl, ap}

pub data Result (E A : Type 0) : Type 0 where
  ok : A → Result E A
  err : E → Result E A

infixl 5 ◌>>=◌ ◌>>◌
abbrev pub ◌>>=◌ : {E A B : Type 0} → Result E A → (A → Result E B) → Result E B
ok a >>= f = f a
err e >>= f = err e

abbrev pub ◌>>◌ : {E B : Type 0} → Result E (Unit {0}) → Result E B → Result E B
m >> k = m >>= λ _. k

-- `if (test) throw new …`
abbrev pub throw_if : {E : Type 0} → Bool → E → Result E (Unit {0})
throw_if true e = err e
throw_if false e = ok tt

-- A check that did not throw, and what follows it.
pub throw_if-ok :
    {E B : Type 0} (test : Bool) (e : E) (k : Result E B) (b : B)
    → (throw_if test e >> k) ≡ ok b
    → (test ≡ false) × (k ≡ ok b)
throw_if-ok true e k b h = cc
throw_if-ok false e k b h = (refl, h)

-- A step that did not throw, and what follows it.
pub bind-ok :
    {E A B : Type 0} (m : Result E A) (f : A → Result E B) (b : B)
    → (m >>= f) ≡ ok b
    → (a : A) × (m ≡ ok a) × (f a ≡ ok b)
bind-ok (ok a) f b h = (a, refl, h)
bind-ok (err e) f b h = cc

pub ok-injective : {E A : Type 0} {a b : A} → Path (Result E A) (ok a) (ok b) → b ≡ a
ok-injective h = cc

-- A step that returns passes its result on.
pub ok-bind :
    {E A B : Type 0} {m : Result E A} {a : A} (f : A → Result E B) → m ≡ ok a → (m >>= f) ≡ f a
ok-bind f h = ap (λ m. m >>= f) h
