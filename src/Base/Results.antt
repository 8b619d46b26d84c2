-- ===== src/Base/Results.antt =====
-- Go's (value, error) pairs. `panic` is the run-time fault of an index or a slice out of range, or
-- of a nil dereference, which ends the process where the source has no recover. `stuck` is no Go value:
-- a loop ran out of the fuel that the model gives it.
use mathlib.Core.Path.{◌≡◌, refl}
use mathlib.Core.Logic.{◌≢◌}
use mathlib.Core.Bool.{Bool, true, false}
use mathlib.Core.Option.{Option, none, some}

pub data Result {ℓ} (E : Type 0) (A : Type ℓ) : Type ℓ where
  ok : A → Result E A
  err : E → Result E A
  panic : Result E A
  stuck : Result E A

infixl 5 ◌>>=◌ ◌>>◌
abbrev pub ◌>>=◌ {ℓ κ} :
    {E : Type 0} {A : Type ℓ} {B : Type κ} (step : Result E A) (next : A → Result E B) → Result E B
stuck >>= next = stuck
panic >>= next = panic
err e >>= next = err e
ok value >>= next = next value

abbrev pub ◌>>◌ {ℓ} :
    {E : Type 0} {B : Type ℓ} (check : Result E (Unit {0})) (rest : Result E B) → Result E B
check >> rest = check >>= λ done. rest

-- `if !b { return e }`.
abbrev pub guard : {E : Type 0} (test : Bool) (e : E) → Result E (Unit {0})
guard false e = err e
guard true e = ok tt

-- `x, ok := m[k]` followed by a return of `e` when `ok` is false.
abbrev pub or_err {ℓ} : {E : Type 0} {A : Type ℓ} → Option A → E → Result E A
or_err none e = err e
or_err (some a) e = ok a

-- A dereference: a nil pointer faults.
abbrev pub deref {ℓ} : {E : Type 0} {A : Type ℓ} → Option A → Result E A
deref none = panic
deref (some a) = ok a

-- Wrapping by `fmt.Errorf`, or by the caller's own error.
abbrev pub map_err {ℓ} : {E F : Type 0} {A : Type ℓ} → (E → F) → Result E A → Result F A
map_err g (ok a) = ok a
map_err g (err e) = err (g e)
map_err g panic = panic
map_err g stuck = stuck

-- A chain that returns has a first step that returns.
pub >>=-eq-ok {ℓ κ} :
    {E : Type 0} {A : Type ℓ} {B : Type κ} (step : Result E A) (next : A → Result E B) {last : B}
    → (step >>= next) ≡ ok last
    → (value : A) × (step ≡ ok value) × (next value ≡ ok last)
>>=-eq-ok stuck next returned = cc
>>=-eq-ok panic next returned = cc
>>=-eq-ok (err e) next returned = cc
>>=-eq-ok (ok value) next returned = (value, refl, returned)

-- The computation ends with a value or an error: no fault, and no loop without end.
abbrev pub Ends {ℓ} : {E : Type 0} {A : Type ℓ} → Result E A → Type 0
Ends (ok a) = Unit {0}
Ends (err e) = Unit {0}
Ends panic = ⊥
Ends stuck = ⊥

-- A chain ends if its first step ends, and so does the rest for each value that the step returns.
pub >>=-Ends {ℓ κ} :
    {E : Type 0} {A : Type ℓ} {B : Type κ} (m : Result E A) (f : A → Result E B)
    → Ends m
    → ((a : A) → m ≡ ok a → Ends (f a))
    → Ends (m >>= f)
>>=-Ends (ok a) f h k = k a refl
>>=-Ends (err e) f h k = tt
>>=-Ends panic f h k = h
>>=-Ends stuck f h k = h

pub guard-Ends : {E : Type 0} (b : Bool) (e : E) → Ends (guard b e)
guard-Ends true e = tt
guard-Ends false e = tt

-- What a guarded step may use of its guard.
pub guarded-Ends {ℓ} :
    {E : Type 0} {B : Type ℓ} (b : Bool) (e : E) (k : Result E B)
    → (b ≡ true → Ends k)
    → Ends (guard b e >> k)
guarded-Ends true e k h = h refl
guarded-Ends false e k h = tt

pub Ends-of_ne {ℓ} : {E : Type 0} {A : Type ℓ} (r : Result E A) → r ≢ panic → r ≢ stuck → Ends r
Ends-of_ne (ok a) p q = tt
Ends-of_ne (err e) p q = tt
Ends-of_ne panic p q = p refl
Ends-of_ne stuck p q = q refl

pub ok_inj {ℓ} : {E : Type 0} {A : Type ℓ} {a b : A} → ◌≡◌ {A = Result E A} (ok a) (ok b) → a ≡ b
ok_inj h = cc

pub guarded-eq-ok {ℓ} :
    {E : Type 0} {B : Type ℓ} (b : Bool) (e : E) (k : Result E B) {a : B}
    → (guard b e >> k) ≡ ok a
    → (b ≡ true) × (k ≡ ok a)
guarded-eq-ok true e k h = (refl, h)
guarded-eq-ok false e k h = cc
