-- ===== src/Base/Errors.antt =====
-- Go's errors and the three ways a call ends: a value, a non-nil error, or a run-time panic.
-- Error messages are dropped; the sentinel that `errors.Is` finds is kept.
use mathlib.Core.Path.{◌≡◌, refl}
use mathlib.Core.Logic.{◌⊎◌, inl, inr, ◌≢◌}
use mathlib.Core.Bool.{Bool, true, false}

-- `context_done` stands for any `ctx.Err()`; `transport` for an error that the repository did not
-- create, such as one that a remote store returns.
pub data Error : Type 0 where
  storage serialization invalid_input fenced shutdown producer_halted : Error
  not_found precondition_failed : Error
  context_done transport : Error

pub data Outcome {ℓ} (A : Type ℓ) : Type ℓ where
  ok : A → Outcome A
  err : Error → Outcome A
  panic : Outcome A

-- What follows runs on a value only.
abbrev pub ◌>>=◌ {ℓ ℓ'} : {X : Type ℓ} {Y : Type ℓ'} → Outcome X → (X → Outcome Y) → Outcome Y
panic >>= next = panic
err e >>= next = err e
ok x >>= next = next x

abbrev pub ◌>>◌ {ℓ} : {Y : Type ℓ} → Outcome (Unit {0}) → Outcome Y → Outcome Y
check >> rest = check >>= λ u. rest

infixl 5 ◌>>=◌ ◌>>◌
-- `if bad { return err }`
abbrev pub fail_if : Bool → Error → Outcome (Unit {0})
fail_if true e = err e
fail_if false e = ok tt

-- A chain that ends well has a first step that did.
pub >>=-eq-ok {ℓ ℓ'} :
    {X : Type ℓ} {Y : Type ℓ'} (step : Outcome X) (next : X → Outcome Y) {y : Y}
    → (step >>= next) ≡ ok y
    → (x : X) × (step ≡ ok x) × (next x ≡ ok y)
>>=-eq-ok panic next ended = cc
>>=-eq-ok (err e) next ended = cc
>>=-eq-ok (ok x) next ended = (x, refl, ended)

pub fail_if-eq-ok : (b : Bool) (e : Error) {u : Unit {0}} → fail_if b e ≡ ok u → b ≡ false
fail_if-eq-ok true e h = cc
fail_if-eq-ok false e h = refl

pub ok-injective {ℓ} : {A : Type ℓ} {a b : A} → ok a ≡ ok b → a ≡ b
ok-injective h = cc

-- A chain of steps does not panic if no step does, each after what the steps before it returned.
pub >>=-ne-panic {ℓ κ} :
    {A : Type ℓ} {B : Type κ} (m : Outcome A) (f : A → Outcome B)
    → m ≢ panic
    → ((a : A) → m ≡ ok a → f a ≢ panic)
    → (m >>= f) ≢ panic
>>=-ne-panic (ok a) f h k = k a refl
>>=-ne-panic (err e) f h k = λ p. cc
>>=-ne-panic panic f h k = absurd (h refl)

pub fail_if-ne-panic : (b : Bool) (e : Error) → fail_if b e ≢ panic
fail_if-ne-panic true e = λ p. cc
fail_if-ne-panic false e = λ p. cc

pub ok-ne-panic {ℓ} : {A : Type ℓ} (a : A) → ok a ≢ panic
ok-ne-panic a = λ p. cc

pub err-ne-panic {ℓ} : (A : Type ℓ) (e : Error) → ◌≢◌ {A = Outcome A} (err e) panic
err-ne-panic A e = λ p. cc

pub Outcome-cases {ℓ} :
    {A : Type ℓ} (x : Outcome A)
    → ((a : A) × (x ≡ ok a)) ⊎ ((e : Error) × (x ≡ err e)) ⊎ (x ≡ panic)
Outcome-cases (ok a) = inl (a, refl)
Outcome-cases (err e) = inr (inl (e, refl))
Outcome-cases panic = inr (inr refl)
