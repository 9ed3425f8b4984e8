-- ===== src/PublicInputs/Tests.antt =====
-- A buffer of three fields, and the theorems at it.
use vocdoni_passport_prover.Prelude.{
  ◌%◌, some, List, [], ◌∷◌, ◌++◌, map, replicate, length, ◌≡◌, refl, arith, ok,
}
use vocdoni_passport_prover.Prelude.Text.{Text, codes, hex_bytes}
use vocdoni_passport_prover.Der.{Bytes}
use vocdoni_passport_prover.PublicInputs.{split_hex_fields, outer_nullifier}
use vocdoni_passport_prover.PublicInputs.Nullifier.{concat, outer_nullifier-split_hex_fields}
use vocdoni_passport_prover.PublicInputs.Spelling.{field_bytes, split_hex_fields-bytes}

abbrev scoped : Bytes
scoped = replicate 32 0xab

outer_nullifier-split_hex_fields_example :
    (fields : List Text) × (split_hex_fields
        (concat ((replicate 32 1 ∷ []) ++ scoped ∷ replicate 32 0 ∷ []))
      ≡ ok fields)
    × (length fields ≡ 3)
    × (outer_nullifier fields ≡ some (codes "0x" ++ hex_bytes scoped))
outer_nullifier-split_hex_fields_example =
    outer_nullifier-split_hex_fields (replicate 32 1 ∷ []) scoped (replicate 32 0)
      (refl, (refl, (refl, tt)))

split_hex_fields-bytes_example :
    ((fields : List Text)
      → split_hex_fields scoped ≡ ok fields
      → (length scoped % 32 ≡ 0) × (concat (map field_bytes fields) ≡ scoped))
    × (length scoped % 32 ≡ 0 → (fields : List Text) × (split_hex_fields scoped ≡ ok fields))
split_hex_fields-bytes_example = split_hex_fields-bytes scoped (omega arith)
