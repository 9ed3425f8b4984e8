-- ===== src/PublicInputs/Spelling.antt =====
-- The bytes that the fields of a buffer spell.
use vocdoni_passport_prover.Prelude.{
  ℕ, zero, suc, ◌%◌, ◌≤◌, ◌<◌, List, [], ◌∷◌, ◌++◌, map, length, take, drop, length-drop, ◌==◌,
  Bool-cases, inl, inr, ◌≡◌, refl, sym, ap, ap₂, ◌∙◌, arith, All, ok, ==_iff,
}
use vocdoni_passport_prover.Prelude.Text.{Text, unhex, unhex-hex_bytes}
use vocdoni_passport_prover.Der.{Bytes}
use vocdoni_passport_prover.PublicInputs.{chunks, field_text, split_hex_fields}
use vocdoni_passport_prover.PublicInputs.Nullifier.{concat}

abbrev pub AreBytes : Bytes → Type 0
AreBytes bs = All (λ b. b < 256) bs

take-drop : (n : ℕ) (bs : Bytes) → take n bs ++ drop n bs ≡ bs
take-drop zero bs = refl
take-drop (suc n) [] = refl
take-drop (suc n) (b ∷ bs) = ap (◌∷◌ b) (take-drop n bs)

take-AreBytes : (n : ℕ) (bs : Bytes) → AreBytes bs → AreBytes (take n bs)
take-AreBytes zero bs h = tt
take-AreBytes (suc n) [] h = tt
take-AreBytes (suc n) (b ∷ bs) (p, h) = (p, take-AreBytes n bs h)

drop-AreBytes : (n : ℕ) (bs : Bytes) → AreBytes bs → AreBytes (drop n bs)
drop-AreBytes zero bs h = h
drop-AreBytes (suc n) [] h = tt
drop-AreBytes (suc n) (b ∷ bs) (p, h) = drop-AreBytes n bs h

-- The bytes behind the prefix of a field.
abbrev pub field_bytes : Text → Bytes
field_bytes field = unhex (drop 2 field)

concat-chunks :
    (k : ℕ) (bs : Bytes)
    → length bs ≤ k
    → AreBytes bs
    → concat (map field_bytes (map field_text (chunks k bs))) ≡ bs
unfolding chunks
concat-chunks zero [] l h = refl
concat-chunks (suc k) [] l h = refl
concat-chunks zero (b ∷ bs) l h = absurd (omega (arith, l))
concat-chunks (suc k) (b ∷ bs) l h =
    ap₂ ◌++◌ (unhex-hex_bytes (take 32 (b ∷ bs)) (take-AreBytes 32 (b ∷ bs) h)) (
      concat-chunks k (drop 32 (b ∷ bs)) (omega (arith, length-drop 32 (b ∷ bs), l))
        (drop-AreBytes 32 (b ∷ bs) h))
    ∙ take-drop 32 (b ∷ bs)

-- A buffer is split exactly when its length is a multiple of 32, and the fields spell the bytes of
-- the buffer, all of them and in their order.
pub split_hex_fields-bytes :
    (bytes : Bytes)
    → AreBytes bytes
    → ((fields : List Text)
        → split_hex_fields bytes ≡ ok fields
        → (length bytes % 32 ≡ 0) × (concat (map field_bytes fields) ≡ bytes))
      × (length bytes % 32 ≡ 0 → (fields : List Text) × (split_hex_fields bytes ≡ ok fields))
unfolding split_hex_fields
split_hex_fields-bytes bytes h = elim (Bool-cases (length bytes % 32 == 0)) [
  | inl e ↦ (
    λ fields k.
        let same : map field_text (chunks (length bytes) bytes) ≡ fields =
          cc (rw (split_hex_fields, e) at k) in
        (
          (==_iff _ 0).0 e,
          ap (λ fs. concat (map field_bytes fs)) (sym same)
              ∙ concat-chunks (length bytes) bytes (omega arith) h,
        ),
    λ z. (map field_text (chunks (length bytes) bytes), rw e),
  )
  | inr e ↦ (
    λ fields k. cc (rw (split_hex_fields, e) at k),
    λ z. cc ((==_iff (length bytes % 32) 0).1 z, e),
  )
]
