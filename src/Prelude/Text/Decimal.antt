-- ===== src/Prelude/Text/Decimal.antt =====
-- `{}` of an unsigned number: its decimal digits.
use Prim.Native.Nat.{ℕ, zero, suc, ◌+◌, ◌-◌, ◌*◌, ◌/◌, ◌%◌, ◌<◌, ◌≤◌}
use mathlib.Core.Path.{◌≡◌, refl, ap, sym, ◌∙◌}
use mathlib.Core.List.{[], ◌∷◌}
use native.Mathlib.Omega.{arith}
use vocdoni_passport_prover.Prelude.Tests.{ltb, if◌then◌else◌}
use vocdoni_passport_prover.Prelude.Lists.{All}
use vocdoni_passport_prover.Prelude.Text.Literal.{Text, codes}

-- The fuel is more than the number, and so more than its digits.
digits : ℕ → ℕ → Text → Text
digits zero n out = out
digits (suc f) n out =
    let rest = digits f (n / 10) ((b'0' + n % 10) ∷ out) in
    if ltb n 10 then (b'0' + n) ∷ out else rest

unfoldable pub show_nat : ℕ → Text
unfolding digits
show_nat n = digits (suc n) n []

-- The number that a text of digits spells behind the number before it.
abbrev value : ℕ → Text → ℕ
value n [] = n
value n (c ∷ s) = value (n * 10 + (c - b'0')) s

value-digits : (f n : ℕ) (out : Text) → n < f → value 0 (digits f n out) ≡ value n out
unfolding digits
value-digits zero n out h = absurd (omega arith)
value-digits (suc f) n out h = ground (arith, value-digits f (n / 10) ((b'0' + n % 10) ∷ out))

pub show_nat-injective : (m n : ℕ) → show_nat m ≡ show_nat n → m ≡ n
unfolding show_nat
show_nat-injective m n e =
    sym (value-digits (suc m) m [] (omega arith))
    ∙ ap (value 0) e
    ∙ value-digits (suc n) n [] (omega arith)

abbrev pub IsDigit : ℕ → Type 0
IsDigit c = (b'0' ≤ c) × (c ≤ b'9')

digits-All-IsDigit : (f n : ℕ) (out : Text) → All IsDigit out → All IsDigit (digits f n out)
unfolding digits
digits-All-IsDigit zero n out h = h
digits-All-IsDigit (suc f) n out h =
    ground (arith, digits-All-IsDigit f (n / 10) ((b'0' + n % 10) ∷ out))

pub show_nat-All-IsDigit : (n : ℕ) → All IsDigit (show_nat n)
unfolding show_nat
show_nat-All-IsDigit n = digits-All-IsDigit (suc n) n [] tt

show_nat_test : show_nat 2048 ≡ codes "2048"
unfolding show_nat
show_nat_test = refl
