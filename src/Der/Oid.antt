-- ===== src/Der/Oid.antt =====
-- `parse_oid_raw` against the encoding of object identifiers in X.690.
use vocdoni_passport_prover.Prelude.{
  ℕ, zero, suc, ◌+◌, ◌*◌, ◌/◌, ◌%◌, ◌≤◌, ◌<◌, List, [], ◌∷◌, ◌==◌, lt→ltb, le→ltb, if◌then◌else◌,
  All, Bool-cases, inl, inr, arith, ◌≡◌, refl, ap, ◌∙◌, usize_values, ==_iff,
}
use vocdoni_passport_prover.Der.{Bytes, oid_parts, join_dots, parse_oid_raw}

-- The septets of a number that have others behind them, before those in `out`.
high_septets : ℕ → ℕ → Bytes → Bytes
high_septets zero n out = out
high_septets (suc f) n out =
    let rest = high_septets f (n / 128) ((128 + n % 128) ∷ out) in if n == 0 then out else rest

-- One arc behind the first two: the fuel is more than the septets.
unfoldable pub encode_arc : ℕ → Bytes → Bytes
unfolding high_septets
encode_arc n rest = high_septets (suc n) (n / 128) ((n % 128) ∷ rest)

unfoldable pub encode_arcs : List ℕ → Bytes
encode_arcs [] = []
encode_arcs (n ∷ ns) = encode_arc n (encode_arcs ns)

-- The first two arcs share a subidentifier, which is written as the others are.
unfoldable pub encode_oid : ℕ → ℕ → List ℕ → Bytes
encode_oid a b arcs = encode_arc (40 * a + b) (encode_arcs arcs)

oid_parts_more :
    (v b m : ℕ) (out : Bytes)
    → 128 ≤ b
    → (v * 128) % usize_values + b % 128 ≡ m
    → oid_parts v (b ∷ out) ≡ oid_parts m out
unfolding oid_parts
oid_parts_more v b m out h e = rw (le→ltb b 128 h, oid_parts, e)

oid_parts_last :
    (v b m : ℕ) (out : Bytes)
    → b < 128
    → (v * 128) % usize_values + b % 128 ≡ m
    → oid_parts v (b ∷ out) ≡ m ∷ oid_parts 0 out
unfolding oid_parts
oid_parts_last v b m out h e = rw (lt→ltb b 128 h, oid_parts, e)

oid_parts-high_septets :
    (f n : ℕ) (out : Bytes)
    → n < f
    → n < usize_values
    → oid_parts 0 (high_septets f n out) ≡ oid_parts n out
unfolding high_septets
oid_parts-high_septets zero n out h l = absurd (omega arith)
oid_parts-high_septets (suc f) n out h l = elim (Bool-cases (n == 0)) [
  | inl e ↦ let z : n ≡ 0 = (==_iff n 0).0 e in rw (e, z)
  | inr e ↦ rw e (
      oid_parts-high_septets f (n / 128) ((128 + n % 128) ∷ out) (ground arith) (omega arith)
      ∙ oid_parts_more (n / 128) (128 + n % 128) n out (omega arith) (omega arith))
]

oid_parts-encode_arc :
    (n : ℕ) (rest : Bytes)
    → n < usize_values
    → oid_parts 0 (encode_arc n rest) ≡ n ∷ oid_parts 0 rest
unfolding encode_arc
oid_parts-encode_arc n rest h =
    oid_parts-high_septets (suc n) (n / 128) ((n % 128) ∷ rest) (omega arith) (omega arith)
    ∙ oid_parts_last (n / 128) (n % 128) n rest (omega arith) (omega arith)

oid_parts-encode_arcs :
    (arcs : List ℕ) → All (λ n. n < usize_values) arcs → oid_parts 0 (encode_arcs arcs) ≡ arcs
unfolding encode_arcs oid_parts
oid_parts-encode_arcs [] h = refl
oid_parts-encode_arcs (n ∷ ns) h =
    oid_parts-encode_arc n (encode_arcs ns) h.0 ∙ ap (◌∷◌ n) (oid_parts-encode_arcs ns h.1)

encode_arc_short : (n : ℕ) (rest : Bytes) → n < 128 → encode_arc n rest ≡ n ∷ rest
unfolding encode_arc high_septets
encode_arc_short n rest h =
    let none_high : n / 128 ≡ 0 = omega arith in
    let low : n % 128 ≡ n = omega arith in rw (none_high, low)

-- An encoded object identifier is read back as its dotted text, if its first arc is 0, 1 or 2, its
-- second arc is below 40 and every further arc fits in 64 bits.
pub parse_oid_raw-encode_oid :
    (a b : ℕ) (arcs : List ℕ)
    → a ≤ 2
    → b < 40
    → All (λ n. n < usize_values) arcs
    → parse_oid_raw (encode_oid a b arcs) ≡ join_dots (a ∷ b ∷ arcs)
unfolding parse_oid_raw encode_oid
parse_oid_raw-encode_oid a b arcs k h l =
    let first : (40 * a + b) / 40 ≡ a = omega arith in
    let second : (40 * a + b) % 40 ≡ b = omega arith in
    rw (encode_arc_short (40 * a + b) (encode_arcs arcs) (omega arith))
      (rw (first, second, oid_parts-encode_arcs arcs l))

-- The first byte of septets that have others behind them.
high_septets_first :
    (f n x : ℕ) (out : Bytes)
    → n < f
    → 128 ≤ x
    → x < 256
    → (first : ℕ) × (rest : Bytes) × (high_septets f n (x ∷ out) ≡ first ∷ rest)
      × (128 ≤ first)
      × (first < 256)
unfolding high_septets
high_septets_first zero n x out h l u = absurd (omega arith)
high_septets_first (suc f) n x out h l u = elim (Bool-cases (n == 0)) [
  | inl e ↦ (x, out, rw e, l, u)
  | inr e ↦ rw e (
      high_septets_first f (n / 128) (128 + n % 128) (x ∷ out) (ground arith) (omega arith)
        (omega arith))
]

encode_arc_first :
    (n : ℕ) (rest : Bytes)
    → 128 ≤ n
    → (first : ℕ) × (more : Bytes) × (encode_arc n rest ≡ first ∷ more)
      × (128 ≤ first)
      × (first < 256)
unfolding encode_arc high_septets
encode_arc_first n rest h = elim (Bool-cases (n / 128 == 0)) [
  | inl e ↦ let z : n / 128 ≡ 0 = (==_iff (n / 128) 0).0 e in absurd (omega arith)
  | inr e ↦ rw e (
      high_septets_first n (n / 128 / 128) (128 + n / 128 % 128) ((n % 128) ∷ rest) (omega arith)
        (omega arith) (omega arith))
]

-- A second arc of 40 or more, which only the first arc 2 allows, is not read back: the text that
-- comes out has a first arc from 3 to 6, which no object identifier has.
pub parse_oid_raw_second_arc :
    (b : ℕ) (arcs : List ℕ)
    → 40 ≤ b
    → (first : ℕ) × (parts : List ℕ) × (3 ≤ first)
      × (first ≤ 6)
      × (parse_oid_raw (encode_oid 2 b arcs) ≡ join_dots (first ∷ parts))
unfolding parse_oid_raw encode_oid
parse_oid_raw_second_arc b arcs h = elim (Bool-cases ((80 + b) / 128 == 0)) [
  | inl e ↦
      let z : (80 + b) / 128 ≡ 0 = (==_iff ((80 + b) / 128) 0).0 e in
      (
        (80 + b) / 40,
        ((80 + b) % 40) ∷ oid_parts 0 (encode_arcs arcs),
        omega arith,
        omega arith,
        rw (encode_arc_short (80 + b) (encode_arcs arcs) (omega arith)),
      )
  | inr n ↦
      let (first, more, e, low, high) =
        encode_arc_first (80 + b) (encode_arcs arcs) (ground arith) in
      (first / 40, (first % 40) ∷ oid_parts 0 more, omega arith, omega arith, rw e)
]
