-- ===== src/Prelude/Results.antt =====
-- The result of Go code that returns a value and an error: one of the two.
use mathlib.Core.Path.{◌≡◌, refl}
use mathlib.Core.Bool.{Bool, true, false}

pub data Result {ℓ κ} (E : Type ℓ) (A : Type κ) : Type (ℓ ⊔ κ) where
  ok : A → Result E A
  err : E → Result E A

abbrev pub is_ok {ℓ κ} : {E : Type ℓ} {A : Type κ} → Result E A → Bool
is_ok (ok a) = true
is_ok (err e) = false

infixl 5 ◌>>=◌ ◌>>◌
abbrev pub ◌>>=◌ {ℓ κ μ} :
    {E : Type ℓ} {A : Type κ} {B : Type μ} → Result E A → (A → Result E B) → Result E B
ok a >>= f = f a
err e >>= f = err e

abbrev pub ◌>>◌ {ℓ κ} : {E : Type ℓ} {B : Type κ} → Result E (Unit {0}) → Result E B → Result E B
m >> k = m >>= λ _. k

-- if !b { return e }
abbrev pub guard {ℓ} : {E : Type ℓ} → Bool → E → Result E (Unit {0})
guard true e = ok tt
guard false e = err e

-- A successful bind had a successful first part.
pub bind_ok {ℓ κ μ} :
    {E : Type ℓ} {A : Type κ} {B : Type μ} (m : Result E A) (f : A → Result E B) {b : B}
    → (m >>= f) ≡ ok b
    → (a : A) × (m ≡ ok a) × (f a ≡ ok b)
bind_ok (ok a) f h = (a, refl, h)
bind_ok (err e) f h = cc

pub guard_ok {ℓ} : {E : Type ℓ} (b : Bool) (e : E) {u : Unit {0}} → guard b e ≡ ok u → b ≡ true
guard_ok true e h = refl
guard_ok false e h = cc

-- A property of the value, if there is one.
abbrev pub OnOk {ℓ κ μ} : {E : Type ℓ} {A : Type κ} → (A → Type μ) → Result E A → Type μ
OnOk P (ok a) = P a
OnOk P (err e) = Unit

pub OnOk-bind {ℓ κ κ' μ μ'} :
    {E : Type ℓ} {A : Type κ} {B : Type κ'} (P : A → Type μ) (Q : B → Type μ') (m : Result E A)
    (f : A → Result E B)
    → OnOk P m
    → ((a : A) → P a → OnOk Q (f a))
    → OnOk Q (m >>= f)
OnOk-bind P Q (ok a) f h k = k a h
OnOk-bind P Q (err e) f h k = tt

pub OnOk-trivial {ℓ κ} : {E : Type ℓ} {A : Type κ} (m : Result E A) → OnOk (λ _. Unit {0}) m
OnOk-trivial (ok a) = tt
OnOk-trivial (err e) = tt

-- A guard that passes shows its test.
pub OnOk-guard {ℓ κ μ} :
    {E : Type ℓ} {B : Type κ} (Q : B → Type μ) (b : Bool) (e : E) (m : Result E B)
    → (b ≡ true → OnOk Q m)
    → OnOk Q (guard b e >> m)
OnOk-guard Q true e m k = k refl
OnOk-guard Q false e m k = tt

pub OnOk_apply {ℓ κ μ} :
    {E : Type ℓ} {A : Type κ} (P : A → Type μ) (m : Result E A) (a : A) → OnOk P m → m ≡ ok a → P a
OnOk_apply P m a h e = rw e at h

-- A guard at the end.
pub OnOk-guard_last {ℓ μ} :
    {E : Type ℓ} (Q : Unit {0} → Type μ) (b : Bool) (e : E) → (b ≡ true → Q tt) → OnOk Q (guard b e)
OnOk-guard_last Q true e k = k refl
OnOk-guard_last Q false e k = tt

-- The first part of a bind, with the equation that it succeeded.
pub OnOk-bind_eq {ℓ κ κ' μ} :
    {E : Type ℓ} {A : Type κ} {B : Type κ'} (Q : B → Type μ) (m : Result E A) (f : A → Result E B)
    → ((a : A) → m ≡ ok a → OnOk Q (f a))
    → OnOk Q (m >>= f)
OnOk-bind_eq Q (ok a) f k = k a refl
OnOk-bind_eq Q (err e) f k = tt

pub OnOk-weaken {ℓ κ μ ν} :
    {E : Type ℓ} {A : Type κ} (P : A → Type μ) (Q : A → Type ν) (m : Result E A)
    → OnOk P m
    → ((a : A) → P a → Q a)
    → OnOk Q m
OnOk-weaken P Q (ok a) h f = f a h
OnOk-weaken P Q (err e) h f = tt
