-- ===== src/Base/Results.antt =====
-- A result of code that may raise: a value, or the exception that ended the call.
use mathlib.Core.Bool.{Bool, true, false}
use mathlib.Core.Option.{Option, none, some}
use native.Mathlib.Omega.{arith}
use mathlib.Core.Logic.{◌≢◌, ◌⊎◌, inl, inr}
use mathlib.Core.Path.{◌≡◌, refl, subst}

pub data Result (E A : Type 0) : Type 0 where
  ok : A → Result E A
  raise : E → Result E A

abbrev IsRaise : {E A : Type 0} → Result E A → Type 0
IsRaise (raise e) = Unit
IsRaise (ok a) = ⊥

module _ {E : Type 0} where
  infixl 5 ◌>>=◌ ◌>>◌
  abbrev pub ◌>>=◌ : {A B : Type 0} → Result E A → (A → Result E B) → Result E B
  ok a >>= f = f a
  raise e >>= f = raise e

  abbrev pub ◌>>◌ : {A : Type 0} → Result E (Unit {0}) → Result E A → Result E A
  m >> k = m >>= λ _. k

  -- `if not test: raise e`
  abbrev pub require : Bool → E → Result E (Unit {0})
  require true e = ok tt
  require false e = raise e

pub raise≢ok : {E A : Type 0} {e : E} {a : A} → raise e ≢ ok a
raise≢ok h = subst IsRaise h tt

-- A value that must be there.
abbrev pub given : {E A : Type 0} → Option A → E → Result E A
given none fault = raise fault
given (some a) fault = ok a

pub given-ok :
    {E A : Type 0} (wanted : Option A) (fault : E) (a : A)
    → given wanted fault ≡ ok a
    → wanted ≡ some a
given-ok wanted fault a h = ground arith

-- What a chain that ends well has passed through.
pub bind-ok :
    {E A B : Type 0} {b : B} (m : Result E A) {f : A → Result E B}
    → (m >>= f) ≡ ok b
    → (a : A) × (m ≡ ok a) × (f a ≡ ok b)
bind-ok (ok a) h = (a, refl, h)
bind-ok (raise e) h = elim (raise≢ok h) [ ]

pub require-ok :
    {E B : Type 0} {b : B} (test : Bool) (e : E) {k : Result E B}
    → (require test e >> k) ≡ ok b
    → (test ≡ true) × (k ≡ ok b)
require-ok true e h = (refl, h)
require-ok false e h = elim (raise≢ok h) [ ]

pub Result-cases :
    {E A : Type 0} (m : Result E A) → ((a : A) × (m ≡ ok a)) ⊎ ((e : E) × (m ≡ raise e))
Result-cases (ok a) = inl (a, refl)
Result-cases (raise e) = inr (e, refl)

pub ok_inj : {E A : Type 0} {a b : A} → ◌≡◌ {A = Result E A} (ok a) (ok b) → a ≡ b
ok_inj h = cc
