-- ===== src/PublicInputs/Nullifier.antt =====
-- The fields of a buffer, and where the nullifier stands in them.
use vocdoni_passport_prover.Prelude.{
  ℕ, zero, suc, ◌+◌, ◌-◌, ◌*◌, ◌%◌, ◌≤◌, some, List, [], ◌∷◌, ◌++◌, map, length, take, drop,
  length-append, length-map, take-append, drop-append, get_elem?-append, ◌≡◌, refl, ap, ap₂, ◌∙◌,
  subst, arith, All, le→ltb, ok,
}
use vocdoni_passport_prover.Prelude.Text.{Text, codes, hex_bytes}
use vocdoni_passport_prover.Der.{Bytes}
use vocdoni_passport_prover.PublicInputs.{chunks, field_text, split_hex_fields, outer_nullifier}

-- The buffer that is made of some fields.
abbrev pub concat : List Bytes → Bytes
concat [] = []
concat (f ∷ fs) = f ++ concat fs

-- Every field has 32 bytes.
abbrev pub AreFields : List Bytes → Type 0
AreFields fs = All (λ f. length f ≡ 32) fs

length-concat : (fs : List Bytes) → AreFields fs → length (concat fs) ≡ 32 * length fs
length-concat [] h = omega arith
length-concat (f ∷ fs) (p, h) = omega (arith, length-append f (concat fs), p, length-concat fs h)

take_field : (f rest : Bytes) → length f ≡ 32 → take 32 (f ++ rest) ≡ f
take_field f rest h = subst (λ n. take n (f ++ rest) ≡ f) h (take-append f rest)

drop_field : (f rest : Bytes) → length f ≡ 32 → drop 32 (f ++ rest) ≡ rest
drop_field f rest h = subst (λ n. drop n (f ++ rest) ≡ rest) h (drop-append f rest)

chunks-field :
    (k : ℕ) (f rest : Bytes) → length f ≡ 32 → chunks (suc k) (f ++ rest) ≡ f ∷ chunks k rest
unfolding chunks
chunks-field k [] rest h = cc
chunks-field k (b ∷ f) rest h =
    ap₂ ◌∷◌ (take_field (b ∷ f) rest h) (ap (chunks k) (drop_field (b ∷ f) rest h))

chunks-concat : (k : ℕ) (fs : List Bytes) → length fs ≤ k → AreFields fs → chunks k (concat fs) ≡ fs
unfolding chunks
chunks-concat zero [] l h = refl
chunks-concat (suc k) [] l h = refl
chunks-concat zero (f ∷ fs) l h = absurd (omega (arith, l))
chunks-concat (suc k) (f ∷ fs) l (p, h) =
    chunks-field k f (concat fs) p ∙ ap (◌∷◌ f) (chunks-concat k fs (omega (arith, l)) h)

whole : (n : ℕ) → (32 * n) % 32 ≡ 0
whole n = omega arith

-- A buffer of fields is split into these fields, each written in hexadecimal digits.
split_hex_fields-concat :
    (fs : List Bytes) → AreFields fs → split_hex_fields (concat fs) ≡ ok (map field_text fs)
unfolding split_hex_fields
split_hex_fields-concat fs h =
    rw (length-concat fs h, whole (length fs), chunks-concat (32 * length fs) fs (omega arith) h)

map-append :
    (fs gs : List Bytes) → map field_text (fs ++ gs) ≡ map field_text fs ++ map field_text gs
map-append [] gs = refl
map-append (f ∷ fs) gs = ap (◌∷◌ (field_text f)) (map-append fs gs)

less_two : (n : ℕ) → n + 2 - 2 ≡ n
less_two n = omega arith

outer_nullifier-append :
    (front : List Text) (n last : Text) → outer_nullifier (front ++ n ∷ last ∷ []) ≡ some n
unfolding outer_nullifier
outer_nullifier-append front n last =
    rw
      (
        length-append front (n ∷ last ∷ []),
        le→ltb (length front + 2) 2 (omega arith),
        less_two (length front),
      )
      (get_elem?-append front n (last ∷ []))

-- The nullifier of a buffer of public inputs is its second-to-last field, in hexadecimal digits,
-- whatever stands in front of it and whatever the last field is.
pub outer_nullifier-split_hex_fields :
    (front : List Bytes) (nullifier last : Bytes)
    → AreFields (front ++ nullifier ∷ last ∷ [])
    → (fields : List Text) × (split_hex_fields (concat (front ++ nullifier ∷ last ∷ []))
        ≡ ok fields)
      × (length fields ≡ length front + 2)
      × (outer_nullifier fields ≡ some (codes "0x" ++ hex_bytes nullifier))
outer_nullifier-split_hex_fields front n last h =
    let fs = front ++ n ∷ last ∷ [] in
    (
      map field_text fs,
      split_hex_fields-concat fs h,
      length-map fs field_text ∙ length-append front (n ∷ last ∷ []),
      ap outer_nullifier (map-append front (n ∷ last ∷ []))
          ∙ outer_nullifier-append (map field_text front) (field_text n) (field_text last),
    )
