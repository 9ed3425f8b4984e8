-- ===== src/PublicInputs.antt =====
-- crates/prover-cli/src/main.rs: the public inputs of a proof, from the bytes that the prover
-- returns to the nullifier that the command line reports.
pub mod Nullifier
pub mod Spelling
mod Tests
use vocdoni_passport_prover.Prelude.{
  ℕ, zero, suc, ◌-◌, ◌%◌, Option, none, List, [], ◌∷◌, ◌++◌, map, length, take, drop, get_elem?,
  ltb, ◌==◌, if◌then◌else◌, detail, Outcome, ok, err,
}
use vocdoni_passport_prover.Prelude.Text.{Text, codes, hex_bytes, show_nat}
use vocdoni_passport_prover.Der.{Bytes}

-- `chunks(32)`, with rounds enough for one byte each.
unfoldable pub chunks : ℕ → Bytes → List Bytes
chunks zero bs = []
chunks (suc k) [] = []
chunks (suc k) (b ∷ bs) = take 32 (b ∷ bs) ∷ chunks k (drop 32 (b ∷ bs))

abbrev pub bytes_to_hex : Bytes → Text
bytes_to_hex bytes = hex_bytes bytes

abbrev pub field_text : Bytes → Text
field_text chunk = codes "0x" ++ bytes_to_hex chunk

unfoldable pub split_hex_fields : Bytes → Outcome (List Text)
split_hex_fields bytes =
    if length bytes % 32 == 0
    then ok (map field_text (chunks (length bytes) bytes))
    else err
        (detail "buffer length {} is not a multiple of 32 bytes" (show_nat (length bytes) ∷ []))

unfoldable pub outer_nullifier : List Text → Option Text
outer_nullifier public_inputs =
    if ltb (length public_inputs) 2
    then none
    else get_elem? public_inputs (length public_inputs - 2)
