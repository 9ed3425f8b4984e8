-- ===== src/Prelude/Text/Laws.antt =====
-- Two texts that are joined by a separator which their fronts, or their backs, do not hold.
use Prim.Native.Nat.{ℕ, ◌<◌}
use mathlib.Core.Path.{◌≡◌, subst, refl}
use mathlib.Core.List.{[], ◌∷◌, ◌++◌}
use mathlib.Core.Logic.{◌≢◌}
use native.Mathlib.Omega.{arith}
use vocdoni_passport_prover.Prelude.Lists.{All}
use vocdoni_passport_prover.Prelude.Text.Literal.{Text}
use vocdoni_passport_prover.Prelude.Text.Decimal.{IsDigit}

abbrev pub Lacks : ℕ → Text → Type 0
Lacks b = All (λ c. c ≢ b)

pub append-cancel_left : (p s t : Text) → p ++ s ≡ p ++ t → s ≡ t
append-cancel_left [] s t e = e
append-cancel_left (c ∷ p) s t e = append-cancel_left p s t (cc)

pub front_of_sep :
    (b : ℕ) (s t x y : Text) → Lacks b s → Lacks b t → s ++ b ∷ x ≡ t ++ b ∷ y → (s ≡ t) × (x ≡ y)
front_of_sep b [] [] x y hs ht e = (refl, cc)
front_of_sep b [] (d ∷ t) x y hs ht e = absurd (ht.0 (cc))
front_of_sep b (c ∷ s) [] x y hs ht e = absurd (hs.0 (cc))
front_of_sep b (c ∷ s) (d ∷ t) x y hs ht e =
    let ih = front_of_sep b s t x y hs.1 ht.1 (cc) in (cc ih.0, ih.1)

not-Lacks-sep : (b : ℕ) (s x : Text) → ¬ (Lacks b (s ++ b ∷ x))
not-Lacks-sep b [] x h = h.0 refl
not-Lacks-sep b (c ∷ s) x h = not-Lacks-sep b s x h.1

pub back_of_sep :
    (b : ℕ) (s t x y : Text) → Lacks b x → Lacks b y → s ++ b ∷ x ≡ t ++ b ∷ y → (s ≡ t) × (x ≡ y)
back_of_sep b [] [] x y hx hy e = (refl, cc)
back_of_sep b [] (d ∷ t) x y hx hy e =
    let same : x ≡ t ++ b ∷ y = cc in absurd (not-Lacks-sep b t y (subst (Lacks b) same hx))
back_of_sep b (c ∷ s) [] x y hx hy e =
    let same : y ≡ s ++ b ∷ x = cc in absurd (not-Lacks-sep b s x (subst (Lacks b) same hy))
back_of_sep b (c ∷ s) (d ∷ t) x y hx hy e =
    let ih = back_of_sep b s t x y hx hy (cc) in (cc ih.0, ih.1)

pub IsDigit-Lacks : (b : ℕ) (s : Text) → b'9' < b → All IsDigit s → Lacks b s
IsDigit-Lacks b [] l h = tt
IsDigit-Lacks b (c ∷ s) l h = (omega arith, IsDigit-Lacks b s l h.1)
