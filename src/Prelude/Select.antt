-- ===== src/Prelude/Select.antt =====
-- `filter`, `first` and the stable `sort_by_key` of the standard library.
use Prim.Native.Nat.{ℕ, ◌≤◌, ◌<◌}
use native.Mathlib.Omega.{arith}
use mathlib.Core.Path.{◌≡◌, refl}
use mathlib.Core.Logic.{◌≢◌, inl, inr}
use mathlib.Core.Bool.{Bool, true, false, ◌&&◌}
use mathlib.Core.Option.{Option, none, some}
use mathlib.Core.List.{List, [], ◌∷◌}
use vocdoni_passport_prover.Prelude.Tests.{
  ◌==◌, leb, if◌then◌else◌, Bool-cases, Option-cases, ==_iff, le→leb, lt→leb,
}

positive_of : (n : ℕ) → (n == 0) ≡ false → 0 < n
positive_of n h = ground arith

module _ {ℓ} {A : Type ℓ} where
  abbrev pub first : List A → Option A
  first [] = none
  first (x ∷ xs) = some x

  unfoldable pub filter : (A → Bool) → List A → List A
  filter test [] = []
  filter test (x ∷ xs) = let rest = filter test xs in if test x then x ∷ rest else rest

  -- The first entry that the test takes.
  unfoldable pub find : (A → Bool) → List A → Option A
  find test [] = none
  find test (x ∷ xs) = let rest = find test xs in if test x then some x else rest

  abbrev pub or_else : Option A → Option A → Option A
  or_else (some a) o = some a
  or_else none o = o

  pub first-filter : (test : A → Bool) (xs : List A) → first (filter test xs) ≡ find test xs
  unfolding filter find
  first-filter test [] = refl
  first-filter test (x ∷ xs) = elim (Bool-cases (test x)) [
    | inl h ↦ rw h
    | inr h ↦ rw (h, first-filter test xs)
  ]

  pub find-filter :
      (p q : A → Bool) (xs : List A) → find q (filter p xs) ≡ find (λ x. p x && q x) xs
  unfolding filter find
  find-filter p q [] = refl
  find-filter p q (x ∷ xs) = elim (Bool-cases (p x)) [
    | inl h ↦ rw (h, find-filter p q xs)
    | inr h ↦ rw (h, find-filter p q xs)
  ]

  pub find-eq-some : (test : A → Bool) (xs : List A) {x : A} → find test xs ≡ some x → test x ≡ true
  unfolding find
  find-eq-some test [] h = cc
  find-eq-some test (y ∷ ys) h = elim (Bool-cases (test y)) [
    | inl e ↦ cc (rw e at h, e)
    | inr e ↦ find-eq-some test ys (rw e at h)
  ]

  module _ (key : A → ℕ) where
    -- Before the first entry with the same key or a larger one.
    unfoldable pub insert_by_key : A → List A → List A
    insert_by_key x [] = x ∷ []
    insert_by_key x (y ∷ ys) =
        let rest = insert_by_key x ys in if leb (key x) (key y) then x ∷ y ∷ ys else y ∷ rest

    unfoldable pub sort_by_key : List A → List A
    sort_by_key [] = []
    sort_by_key (x ∷ xs) = insert_by_key x (sort_by_key xs)

    -- The one of the two that comes first.
    abbrev lesser : A → Option A → Option A
    lesser x none = some x
    lesser x (some y) = if leb (key x) (key y) then some x else some y

    first-insert_by_key : (x : A) (ys : List A) → first (insert_by_key x ys) ≡ lesser x (first ys)
    unfolding insert_by_key
    first-insert_by_key x [] = refl
    first-insert_by_key x (y ∷ ys) = elim (Bool-cases (leb (key x) (key y))) [
      | inl h ↦ rw h
      | inr h ↦ rw h
    ]

    lesser-least : (x : A) (o : Option A) → key x ≡ 0 → lesser x o ≡ some x
    lesser-least x none h = refl
    lesser-least x (some y) h = rw (le→leb (key x) (key y) (omega arith))

    lesser-first :
        (x : A) (xs : List A)
        → ((y : A) → key y ≤ 1)
        → find (λ y. key y == 0) xs ≡ none
        → lesser x (first xs) ≡ some x
    unfolding find
    lesser-first x [] small h = refl
    lesser-first x (y ∷ ys) small h = elim (Bool-cases (key y == 0)) [
      | inl e ↦ cc (rw e at h)
      | inr e ↦ rw (le→leb (key x) (key y) (omega (arith, small x, positive_of (key y) e)))
    ]

    lesser-find :
        (x : A) (xs : List A)
        → ((y : A) → key y ≤ 1)
        → key x ≢ 0
        → lesser x (or_else (find (λ y. key y == 0) xs) (first xs))
          ≡ or_else (find (λ y. key y == 0) xs) (some x)
    lesser-find x xs small h = elim (Option-cases (find (λ y. key y == 0) xs)) [
      | inl e ↦ rw (e, lesser-first x xs small e)
      | inr (y, e) ↦
          rw (e, lt→leb (key x) (key y) (omega (arith, (==_iff (key y) 0).0 (find-eq-some _ xs e))))
    ]

    -- Of a list sorted by a key that is 0 or 1 the first entry is the first one with the key 0,
    -- and the list's first entry if none has it.
    pub first-sort_by_key :
        ((x : A) → key x ≤ 1)
        → (xs : List A) → first (sort_by_key xs) ≡ or_else (find (λ x. key x == 0) xs) (first xs)
    unfolding sort_by_key find
    first-sort_by_key small [] = refl
    first-sort_by_key small (x ∷ xs) = elim (Bool-cases (key x == 0)) [
      | inl h ↦
          rw (h, first-insert_by_key x (sort_by_key xs)) (lesser-least x _ ((==_iff (key x) 0).0 h))
      | inr h ↦
          rw (h, first-insert_by_key x (sort_by_key xs), first-sort_by_key small xs)
            (lesser-find x xs small (λ e. omega (arith, positive_of (key x) h)))
    ]
