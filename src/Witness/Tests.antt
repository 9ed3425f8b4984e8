-- ===== src/Witness/Tests.antt =====
-- A Noir whose serialization shows the format, and the theorems at it.
use vocdoni_passport_prover.Prelude.{◌≡◌, ◌⊎◌, refl, none, some, List, [], ◌∷◌, map}
use vocdoni_passport_prover.Prelude.Text.{Text, codes}
use vocdoni_passport_prover.Json.{null}
use vocdoni_passport_prover.Witness.{
  Attempt, good, WitnessPayload, msgpack_compact, solve_compressed_witness, solve_legacy_witness,
}
use vocdoni_passport_prover.Witness.Example.{noir}
use vocdoni_passport_prover.Witness.History.{Call, serialized, legacy, acir, call, run, run-map}
use vocdoni_passport_prover.Witness.Jni.{JniPayload, solve_compressed_witness_from_json_utf8}
use vocdoni_passport_prover.Witness.Agreement.{
  bytes_of, solved_bytes, solve_compressed_witness_from_json_utf8-solve_compressed_witness,
}

abbrev payload : WitnessPayload
payload = record { bytecode = codes "p"; abi = null; inputs = null }

abbrev read_payload : Text → Attempt (JniPayload noir)
read_payload text = good (record { bytecode = codes "p"; abi = tt; inputs = null })

abbrev calls : List Call
calls = serialized payload ∷ legacy payload ∷ acir [] ∷ legacy payload ∷ []

run-map_example : run noir calls none ≡ map (λ c. (call noir c none).0) calls
run-map_example = run-map noir calls none

solve_compressed_witness_from_json_utf8-solve_compressed_witness_example :
    (solved_bytes (
        solve_compressed_witness_from_json_utf8 noir read_payload
          (some msgpack_compact)
          (codes "{}"))
      ≡ bytes_of (solve_compressed_witness noir payload none).0)
    × (solved_bytes (solve_compressed_witness_from_json_utf8 noir read_payload none (codes "{}"))
        ≡ bytes_of (solve_legacy_witness noir payload none).0)
    × ((bytes_of (solve_compressed_witness noir payload none).0 ≡ none)
        ⊎ ((solve_compressed_witness noir payload none).1 ≡ some msgpack_compact))
solve_compressed_witness_from_json_utf8-solve_compressed_witness_example =
    solve_compressed_witness_from_json_utf8-solve_compressed_witness noir read_payload (codes "{}")
      payload tt none refl refl
