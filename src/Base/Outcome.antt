-- ===== src/Base/Outcome.antt =====
-- A call that returns a value or raises.
use mathlib.Core.Path.{◌≡◌, refl}
use mathlib.Core.Bool.{Bool, true, false}
use mathlib.Core.Logic.{◌⊎◌, ◌≢◌, inl, inr}
use mathlib.Core.Option.{Option, none, some}

pub data Result (E A : Type 0) : Type 0 where
  ok : A → Result E A
  err : E → Result E A

infixl 5 ◌>>=◌ ◌>>◌
abbrev pub ◌>>=◌ : {E A B : Type 0} → Result E A → (A → Result E B) → Result E B
ok a >>= f = f a
err e >>= f = err e

abbrev pub ◌>>◌ : {E B : Type 0} → Result E (Unit {0}) → Result E B → Result E B
m >> k = m >>= λ _. k

-- `if test: raise e`
abbrev pub raise_if : {E : Type 0} → Bool → E → Result E (Unit {0})
raise_if true e = err e
raise_if false e = ok tt

-- `.get(...)` with `except DoesNotExist: raise e`
abbrev pub or_raise : {E A : Type 0} → Option A → E → Result E A
or_raise none e = err e
or_raise (some a) e = ok a

-- A transaction: a raise leaves the state that it began with.
abbrev pub committed : {E A S : Type 0} → S → Result E (A × S) → S
committed s (ok (_, s')) = s'
committed s (err _) = s

pub Result-cases :
    {E A : Type 0} (m : Result E A) → ((e : E) × (m ≡ err e)) ⊎ ((a : A) × (m ≡ ok a))
Result-cases (ok a) = inr (a, refl)
Result-cases (err e) = inl (e, refl)

-- `return a`, with the type of the errors in sight.
abbrev pub returning : (E : Type 0) → {A : Type 0} → A → Result E A
returning E a = ok a

abbrev pub raising : {E : Type 0} → (A : Type 0) → E → Result E A
raising A e = err e

pub ok_inj : {E A : Type 0} {a b : A} → returning E a ≡ returning E b → a ≡ b
ok_inj h = cc

pub err≢ok : {E A : Type 0} {e : E} {a : A} → raising A e ≢ ok a
err≢ok h = cc

pub err_inj : {E A : Type 0} {e f : E} → raising A e ≡ raising A f → e ≡ f
err_inj h = cc

-- A call that returned passed each of its guards and each of its steps.
pub raise_if-ok :
    {E A : Type 0} (b : Bool) (e : E) {m : Result E A} {a : A}
    → (raise_if b e >> m) ≡ ok a
    → (b ≡ false) × (m ≡ ok a)
raise_if-ok true e h = absurd (err≢ok {e = e} h)
raise_if-ok false e h = (refl, h)

pub bind-ok :
    {E A B : Type 0} (m : Result E A) {f : A → Result E B} {b : B}
    → (m >>= f) ≡ ok b
    → (a : A) × (m ≡ ok a) × (f a ≡ ok b)
bind-ok (ok a) h = (a, refl, h)
bind-ok (err e) h = absurd (err≢ok {e = e} h)

pub or_raise-ok :
    {E A B : Type 0} (o : Option A) (e : E) {f : A → Result E B} {b : B}
    → (or_raise o e >>= f) ≡ ok b
    → (a : A) × (o ≡ some a) × (f a ≡ ok b)
or_raise-ok none e h = absurd (err≢ok {e = e} h)
or_raise-ok (some a) e h = (a, refl, h)
