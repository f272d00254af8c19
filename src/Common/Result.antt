-- ===== src/Common/Result.antt =====
-- A call that returns a value or raises an error `E`.
use mathlib.Core.Logic.{◌⊎◌, inl, inr}
use mathlib.Core.Path.{◌≡◌, refl}
use mathlib.Core.Bool.{Bool, true, false}

pub data Result (E A : Type 0) : Type 0 where
  err : E → Result E A
  ok : A → Result E A

infixl 5 ◌>>=◌ ◌>>◌
abbrev pub ◌>>=◌ : {E A B : Type 0} → Result E A → (A → Result E B) → Result E B
err e >>= next = err e
ok a >>= next = next a

abbrev pub ◌>>◌ : {E B : Type 0} → Result E (Unit {0}) → Result E B → Result E B
first >> next = first >>= λ _. next

-- `if test: raise error`
abbrev pub raise_if : {E : Type 0} → Bool → E → Result E (Unit {0})
raise_if true e = err e
raise_if false e = ok tt

module _ {E A B : Type 0} where
  -- What a successful sequence says of its first part.
  pub bind-eq-ok :
      (first : Result E A) (next : A → Result E B) {b : B}
      → (first >>= next) ≡ ok b
      → (a : A) × (first ≡ ok a) × (next a ≡ ok b)
  bind-eq-ok (err e) next h = cc
  bind-eq-ok (ok a) next h = (a, refl, h)

module _ {E A : Type 0} where
  pub ok-injective : {a b : A} → ◌≡◌ {A = Result E A} (ok a) (ok b) → a ≡ b
  ok-injective h = cc

pub Result-cases :
    {E A : Type 0} (r : Result E A) → ((a : A) × (r ≡ ok a)) ⊎ ((e : E) × (r ≡ err e))
Result-cases (ok a) = inl (a, refl)
Result-cases (err e) = inr (e, refl)

pub bind-eq-err :
    {E A B : Type 0} (first : Result E A) (next : A → Result E B) (e : E)
    → (first >>= next) ≡ err e
    → (first ≡ err e) ⊎ ((a : A) × (next a ≡ err e))
bind-eq-err (err x) next e h = inl (cc)
bind-eq-err (ok a) next e h = inr (a, h)
