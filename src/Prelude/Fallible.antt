-- ===== src/Prelude/Fallible.antt =====
-- What a call of the program ends in. `err` is an `anyhow` error: the format of its outermost
-- message, with the texts that are put into it. `panic` is an unwinding stop, such as a slice out
-- of range. `unfinished` is no outcome of the program: a loop's fuel ran out before the loop
-- ended.
use Prim.Native.Nat.{ℕ}
use Prim.Native.String.{String}
use mathlib.Core.Path.{◌≡◌, refl}
use mathlib.Core.Option.{Option, none, some}
use mathlib.Core.List.{List}
use mathlib.Core.Logic.{◌⊎◌, inl, inr}

pub data Error : Type 0 where
  message : String → Error
  detail : String → List (List ℕ) → Error

pub data Outcome {ℓ} (A : Type ℓ) : Type ℓ where
  ok : A → Outcome A
  err : Error → Outcome A
  panic : Outcome A
  unfinished : Outcome A

-- The next step runs on a result; a panic and an error end the call.
infixl 5 ◌>>=◌
abbrev pub ◌>>=◌ {ℓ κ} : {A : Type ℓ} {B : Type κ} → Outcome A → (A → Outcome B) → Outcome B
panic >>= next = panic
unfinished >>= next = unfinished
err why >>= next = err why
ok value >>= next = next value

-- A step whose value carries nothing.
infixl 5 ◌>>◌
abbrev pub ◌>>◌ {κ} : {B : Type κ} → Outcome (Unit {0}) → Outcome B → Outcome B
step >> next = step >>= λ _. next

-- `Option::context`.
abbrev pub context {ℓ} : {A : Type ℓ} → Option A → String → Outcome A
context (some a) m = ok a
context none m = err (message m)

pub >>=-eq-ok {ℓ κ} :
    {A : Type ℓ} {B : Type κ} (step : Outcome A) (next : A → Outcome B) {value : B}
    → (step >>= next) ≡ ok value
    → (a : A) × (step ≡ ok a) × (next a ≡ ok value)
>>=-eq-ok panic next eq = cc
>>=-eq-ok unfinished next eq = cc
>>=-eq-ok (err why) next eq = cc
>>=-eq-ok (ok a) next eq = (a, refl, eq)

pub Outcome-cases {ℓ} :
    {A : Type ℓ} (o : Outcome A)
    → ((a : A) × (o ≡ ok a)) ⊎ (((e : Error) × (o ≡ err e)) ⊎ ((o ≡ panic) ⊎ (o ≡ unfinished)))
Outcome-cases (ok a) = inl (a, refl)
Outcome-cases (err e) = inr (inl (e, refl))
Outcome-cases panic = inr (inr (inl refl))
Outcome-cases unfinished = inr (inr (inr refl))
