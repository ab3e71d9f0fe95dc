-- ===== src/Prelude/Results.antt =====
-- What a call gives: a value, or the exception that leaves it.
use mathlib.Core.Path.{◌≡◌, refl}
use mathlib.Core.Bool.{Bool, true, false}

-- The exceptions that the sources throw or let pass, undefined behaviour, and the end of a loop's
-- fuel.
pub data Fault : Type 0 where
  invalid_argument out_of_range runtime_error stream_failure undefined no_fuel : Fault

pub data Result {κ} (X : Type κ) : Type κ where
  err : Fault → Result X
  ok : X → Result X

infixl 5 ◌>>◌ ◌>>=◌
-- The rest of a function runs on a value and is left out after an exception.
abbrev pub ◌>>=◌ {κ μ} : {X : Type κ} → {Y : Type μ} → Result X → (X → Result Y) → Result Y
err fault >>= next = err fault
ok x >>= next = next x

-- A check in front of the rest of a function.
abbrev pub ◌>>◌ {μ} : {Y : Type μ} → Result (Unit {0}) → Result Y → Result Y
check >> next = check >>= λ passed. next

abbrev pub guard : Bool → Fault → Result (Unit {0})
guard false fault = err fault
guard true fault = ok tt

-- Two continuations that agree on every value.
pub >>=-congr {κ μ} :
    {X : Type κ} {Y : Type μ} (call : Result X) (next other : X → Result Y)
    → ((x : X) → next x ≡ other x)
    → (call >>= next) ≡ (call >>= other)
>>=-congr (err fault) next other same = refl
>>=-congr (ok x) next other same = same x

-- A call whose rest gives a value gave one itself.
pub >>=-eq-ok {κ μ} :
    {X : Type κ}
    → {Y : Type μ} → (call : Result X) (next : X → Result Y) {y : Y} → (call >>= next) ≡ ok y
    → (x : X) × (call ≡ ok x) × (next x ≡ ok y)
>>=-eq-ok (err fault) next done = cc
>>=-eq-ok (ok x) next done = (x, refl, done)
