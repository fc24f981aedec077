-- ===== src/Prelude/Outcomes.antt =====
-- What a Rust call comes to: a value, an error that `?` passes on, or a panic.
use mathlib.Core.Path.{◌≡◌, refl, subst, sym}
use mathlib.Core.Logic.{◌⊎◌, inl, inr, ◌≢◌}
use mathlib.Core.Option.{Option, none, some}

pub data Outcome (E A : Type 0) : Type 0 where
  ok : A → Outcome E A
  err : E → Outcome E A
  panic : Outcome E A

infixl 5 ◌>>=◌
abbrev pub ◌>>=◌ : {E A B : Type 0} → Outcome E A → (A → Outcome E B) → Outcome E B
ok a >>= f = f a
err e >>= f = err e
panic >>= f = panic

-- An access that panics on `none`: an index out of bounds, an `unwrap`.
abbrev pub or_panic : {E A : Type 0} → Option A → Outcome E A
or_panic none = panic
or_panic (some a) = ok a

-- `e.map_err(f)?` on the result of a call outside the program.
abbrev pub from_result : {X E A : Type 0} → (X → E) → X ⊎ A → Outcome E A
from_result f (inl x) = err (f x)
from_result f (inr a) = ok a

-- A chain that ends with a value went on from one; a chain that ends with an error began with it, or
-- went on to it.
module _ {E A B : Type 0} (next : A → Outcome E B) where
  pub >>=-eq-ok :
      (first : Outcome E A) (out : B)
      → (first >>= next) ≡ ok out
      → (x : A) × (next x ≡ ok out) × (first ≡ ok x)
  >>=-eq-ok panic out e = cc
  >>=-eq-ok (err failure) out e = cc
  >>=-eq-ok (ok x) out e = (x, e, refl)

  pub >>=-eq-err :
      (first : Outcome E A) (failure : E)
      → (first >>= next) ≡ err failure
      → ((x : A) × (next x ≡ err failure) × (first ≡ ok x)) ⊎ (first ≡ err failure)
  >>=-eq-err panic failure e = cc
  >>=-eq-err (err other) failure e = inr cc
  >>=-eq-err (ok x) failure e = inl (x, e, refl)

-- `P` holds of a value, an error is allowed and a panic is not.
abbrev pub Safe : {E A : Type 0} → (A → Type 0) → Outcome E A → Type 0
Safe P (ok a) = P a
Safe P (err e) = Unit
Safe P panic = ⊥

pub Safe-bind :
    {E A B : Type 0} (P : A → Type 0) (Q : B → Type 0) (m : Outcome E A) (f : A → Outcome E B)
    → Safe P m
    → ((a : A) → P a → Safe Q (f a))
    → Safe Q (m >>= f)
Safe-bind P Q (ok a) f h k = k a h
Safe-bind P Q (err e) f h k = tt
Safe-bind P Q panic f h k = absurd h

pub Safe-ne-panic : {E A : Type 0} (P : A → Type 0) (m : Outcome E A) → Safe P m → m ≢ panic
Safe-ne-panic P (ok a) h = cc
Safe-ne-panic P (err e) h = cc
Safe-ne-panic P panic h = absurd h

-- A value is returned, and `P` holds of it.
abbrev pub Returns : {E A : Type 0} → (A → Type 0) → Outcome E A → Type 0
Returns P (ok a) = P a
Returns P (err e) = ⊥
Returns P panic = ⊥

pub Returns-bind :
    {E A B : Type 0} (P : A → Type 0) (Q : B → Type 0) (m : Outcome E A) (f : A → Outcome E B)
    → Returns P m
    → ((a : A) → P a → Returns Q (f a))
    → Returns Q (m >>= f)
Returns-bind P Q (ok a) f h k = k a h
Returns-bind P Q (err e) f h k = absurd h
Returns-bind P Q panic f h k = absurd h

-- An access that succeeds, and what follows it.
pub Returns-step :
    {E A B : Type 0} (P : B → Type 0) {o : Option A} (f : A → Outcome E B) {a : A}
    → o ≡ some a
    → Returns P (f a)
    → Returns P (or_panic o >>= f)
Returns-step {E} {A} P {o} f {a} e h =
    subst (λ (x : Option A). Returns P (or_panic x >>= f)) (sym e) h

-- The same of a panic that follows, and an access that panics.
pub panic-step :
    {E A B : Type 0} {o : Option A} (f : A → Outcome E B) {a : A}
    → o ≡ some a
    → f a ≡ panic
    → (or_panic o >>= f) ≡ panic
panic-step {E} {A} {B} {o} f e h =
    subst (λ (x : Option A). (or_panic {E = E} x >>= f) ≡ panic) (sym e) h

pub panic-here :
    {E A B : Type 0} {o : Option A} (f : A → Outcome E B) → o ≡ none → (or_panic o >>= f) ≡ panic
panic-here {E} {A} f e = subst (λ (x : Option A). (or_panic {E = E} x >>= f) ≡ panic) (sym e) refl

pub Returns-Safe : {E A : Type 0} (P : A → Type 0) (m : Outcome E A) → Returns P m → Safe P m
Returns-Safe P (ok a) h = h
Returns-Safe P (err e) h = tt
Returns-Safe P panic h = h

pub Returns-get :
    {E A : Type 0} (P : A → Type 0) (m : Outcome E A) → Returns P m → (a : A) × (m ≡ ok a) × P a
Returns-get P (ok a) h = (a, refl, h)
Returns-get P (err e) h = absurd h
Returns-get P panic h = absurd h

-- `P` holds of a value, if there is one.
abbrev pub OnOk : {E A : Type 0} → (A → Type 0) → Outcome E A → Type 0
OnOk P (ok a) = P a
OnOk P (err e) = Unit
OnOk P panic = Unit

pub OnOk-bind :
    {E A B : Type 0} (P : B → Type 0) (m : Outcome E A) (f : A → Outcome E B)
    → ((a : A) → OnOk P (f a))
    → OnOk P (m >>= f)
OnOk-bind P (ok a) f h = h a
OnOk-bind P (err e) f h = tt
OnOk-bind P panic f h = tt

-- The same, where what follows may use the value.
pub OnOk-bind_eq :
    {E A B : Type 0} (P : B → Type 0) (m : Outcome E A) (f : A → Outcome E B)
    → ((a : A) → m ≡ ok a → OnOk P (f a))
    → OnOk P (m >>= f)
OnOk-bind_eq P (ok a) f h = h a refl
OnOk-bind_eq P (err e) f h = tt
OnOk-bind_eq P panic f h = tt

pub OnOk-mono :
    {E A : Type 0} (P Q : A → Type 0) (m : Outcome E A)
    → ((a : A) → P a → Q a)
    → OnOk P m
    → OnOk Q m
OnOk-mono P Q (ok a) f h = f a h
OnOk-mono P Q (err e) f h = tt
OnOk-mono P Q panic f h = tt

pub OnOk-get : {E A : Type 0} (P : A → Type 0) (m : Outcome E A) (a : A) → OnOk P m → m ≡ ok a → P a
OnOk-get {E} P m a h e = subst (λ (x : Outcome E _). OnOk P x) e h

pub from_result-ok :
    {X E A : Type 0} (f : X → E) (r : X ⊎ A) (a : A) → from_result f r ≡ ok a → r ≡ inr a
from_result-ok f (inl x) a e = cc
from_result-ok f (inr b) a e = cc
