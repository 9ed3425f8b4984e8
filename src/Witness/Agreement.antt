-- ===== src/Witness/Agreement.antt =====
-- The solver of the applications and the solver of the prover, stage by stage.
use vocdoni_passport_prover.Prelude.{
  ◌≡◌, refl, ◌∙◌, ap, sym, inl, inr, ◌⊎◌, Option, none, some, Outcome, ok, err, panic, unfinished,
  ◌>>=◌, Outcome-cases,
}
use vocdoni_passport_prover.Prelude.Text.{Text}
use vocdoni_passport_prover.Der.{Bytes}
use vocdoni_passport_prover.Witness.{
  Noir, Env, Attempt, good, bad, WitnessPayload, or_error, msgpack_compact, solve_stack,
  solve_compressed_witness_with_format, solve_serialized_witness, solve_compressed_witness,
  solve_serialized_legacy_witness, solve_legacy_witness, decompress_witness_stack,
}
use vocdoni_passport_prover.Witness.Jni.{
  JniPayload, SolveError, Solved, solved, failed, solve_inner,
  solve_compressed_witness_from_json_utf8,
}

-- The bytes of a success.
abbrev pub bytes_of : Outcome Bytes → Option Bytes
bytes_of (ok bytes) = some bytes
bytes_of (err e) = none
bytes_of panic = none
bytes_of unfinished = none

abbrev pub solved_bytes : Attempt Bytes → Option Bytes
solved_bytes (good bytes) = some bytes
solved_bytes (bad e) = none

Solved-cases {ℓ} :
    {A : Type ℓ} (s : Solved A) → ((a : A) × (s ≡ solved a)) ⊎ ((e : SolveError) × (s ≡ failed e))
Solved-cases (solved a) = inl (a, refl)
Solved-cases (failed e) = inr (e, refl)

abbrev result_of : Solved Bytes → Option Bytes
result_of (solved bytes) = some bytes
result_of (failed e) = none

pub Attempt-cases {ℓ} :
    {A : Type ℓ} (a : Attempt A) → ((x : A) × (a ≡ good x)) ⊎ ((e : Text) × (a ≡ bad e))
Attempt-cases (good x) = inl (x, refl)
Attempt-cases (bad e) = inr (e, refl)

module _ (noir : Noir) (payload : WitnessPayload) (env : Env) where
  serialize_stage : Env → noir.WitnessStack → Outcome Bytes
  serialize_stage format w =
      or_error "witness serialization failed: {error}" (noir.serialize format w)
      >>= decompress_witness_stack noir

  solve_legacy_witness-solve_stack :
      (solve_legacy_witness noir payload env).0
      ≡ (solve_stack noir payload >>= serialize_stage none)
  unfolding solve_legacy_witness solve_serialized_legacy_witness
      solve_compressed_witness_with_format serialize_stage
  solve_legacy_witness-solve_stack = elim (Outcome-cases (solve_stack noir payload)) [
    | inl (a, e) ↦ rw (solve_compressed_witness_with_format, e)
    | inr (inl (a, e)) ↦ rw (solve_compressed_witness_with_format, e)
    | inr (inr (inl e)) ↦ rw (solve_compressed_witness_with_format, e)
    | inr (inr (inr e)) ↦ rw (solve_compressed_witness_with_format, e)
  ]

  -- A solver of the prover that fails is one that may not have come to set the variable.
  solve_compressed_witness_env :
      (bytes_of (solve_compressed_witness noir payload env).0 ≡ none)
      ⊎ ((solve_compressed_witness noir payload env).1 ≡ some msgpack_compact)
  unfolding solve_compressed_witness solve_serialized_witness solve_compressed_witness_with_format
  solve_compressed_witness_env = elim (Outcome-cases (solve_stack noir payload)) [
    | inl (a, e) ↦ inr (rw (solve_compressed_witness_with_format, e))
    | inr (inl (a, e)) ↦ inl (rw (solve_compressed_witness_with_format, e))
    | inr (inr (inl e)) ↦ inl (rw (solve_compressed_witness_with_format, e))
    | inr (inr (inr e)) ↦ inl (rw (solve_compressed_witness_with_format, e))
  ]

  solve_compressed_witness-solve_stack :
      (solve_compressed_witness noir payload env).0
      ≡ (solve_stack noir payload >>= serialize_stage (some msgpack_compact))
  unfolding solve_compressed_witness solve_serialized_witness solve_compressed_witness_with_format
      serialize_stage
  solve_compressed_witness-solve_stack = elim (Outcome-cases (solve_stack noir payload)) [
    | inl (a, e) ↦ rw (solve_compressed_witness_with_format, e)
    | inr (inl (a, e)) ↦ rw (solve_compressed_witness_with_format, e)
    | inr (inr (inl e)) ↦ rw (solve_compressed_witness_with_format, e)
    | inr (inr (inr e)) ↦ rw (solve_compressed_witness_with_format, e)
  ]

module _ (noir : Noir) (read_payload : Text → Attempt (JniPayload noir)) (text : Text)
    (payload : WitnessPayload) (abi : noir.Abi) (env format : Env) where
  stages :
      noir.parse_abi payload.abi ≡ good abi
      → read_payload text
        ≡ good (record { bytecode = payload.bytecode; abi = abi; inputs = payload.inputs })
      → result_of (solve_inner noir read_payload format text)
        ≡ bytes_of (solve_stack noir payload >>= serialize_stage noir payload env format)
  unfolding solve_inner solve_stack serialize_stage decompress_witness_stack
  stages a r = elim (Attempt-cases (noir.decode_base64 payload.bytecode)) [
    | inr (why, e1) ↦ rw (r, a, e1)
    | inl (program_bytes, e1) ↦ elim (Attempt-cases (noir.to_string payload.inputs)) [
      | inr (why, e2) ↦ rw (r, a, e1, e2)
      | inl (inputs_str, e2) ↦ elim (Attempt-cases (noir.parse_inputs inputs_str abi)) [
        | inr (why, e3) ↦ rw (r, a, e1, e2, e3)
        | inl (input_map, e3) ↦ elim (Attempt-cases (noir.encode abi input_map)) [
          | inr (why, e4) ↦ rw (r, a, e1, e2, e3, e4)
          | inl (witness_map, e4) ↦ elim (Attempt-cases (noir.deserialize_program program_bytes)) [
            | inr (why, e5) ↦ rw (r, a, e1, e2, e3, e4, e5)
            | inl (program, e5) ↦ elim (Attempt-cases (noir.execute_program program witness_map)) [
              | inr (why, e6) ↦ rw (r, a, e1, e2, e3, e4, e5, e6)
              | inl (witness_stack, e6) ↦
                  elim (Attempt-cases (noir.serialize format witness_stack)) [
                    | inr (why, e7) ↦ rw (r, a, e1, e2, e3, e4, e5, e6, e7)
                    | inl (compressed, e7) ↦ elim (Attempt-cases (noir.gunzip compressed)) [
                      | inr (why, e8) ↦ rw (r, a, e1, e2, e3, e4, e5, e6, e7, e8)
                      | inl (bytes, e8) ↦ rw (r, a, e1, e2, e3, e4, e5, e6, e7, e8)
                    ]
                  ]
            ]
          ]
        ]
      ]
    ]
  ]

solved_bytes-result_of :
    (noir : Noir) (read_payload : Text → Attempt (JniPayload noir)) (env : Env) (text : Text)
    → solved_bytes (solve_compressed_witness_from_json_utf8 noir read_payload env text)
      ≡ result_of (solve_inner noir read_payload env text)
unfolding solve_compressed_witness_from_json_utf8
solved_bytes-result_of noir read_payload env text =
    elim (Solved-cases (solve_inner noir read_payload env text)) [
      | inl (a, e) ↦ rw (solve_compressed_witness_from_json_utf8, e)
      | inr (a, e) ↦ rw (solve_compressed_witness_from_json_utf8, e)
    ]

-- The two solvers of the repository, where the JSON text reads as a payload with the ABI that the
-- prover's payload parses to, and with its bytecode and inputs. If the variable
-- `NOIR_SERIALIZATION_FORMAT` asks for the compact format, the application's solver agrees with the
-- prover's `solve_compressed_witness`: both solve the witness, to the same bytes, or neither does.
-- If it is unset, the application's solver agrees in the same way with `solve_legacy_witness`
-- instead. And a run of `solve_compressed_witness` fails or leaves the variable on the compact
-- format.
pub solve_compressed_witness_from_json_utf8-solve_compressed_witness :
    (noir : Noir) (read_payload : Text → Attempt (JniPayload noir)) (text : Text)
    (payload : WitnessPayload) (abi : noir.Abi) (env : Env)
    → noir.parse_abi payload.abi ≡ good abi
    → read_payload text
      ≡ good (record { bytecode = payload.bytecode; abi = abi; inputs = payload.inputs })
    → (solved_bytes
          (solve_compressed_witness_from_json_utf8 noir read_payload (some msgpack_compact) text)
        ≡ bytes_of (solve_compressed_witness noir payload env).0)
      × (solved_bytes (solve_compressed_witness_from_json_utf8 noir read_payload none text)
          ≡ bytes_of (solve_legacy_witness noir payload env).0)
      × ((bytes_of (solve_compressed_witness noir payload env).0 ≡ none)
          ⊎ ((solve_compressed_witness noir payload env).1 ≡ some msgpack_compact))
solve_compressed_witness_from_json_utf8-solve_compressed_witness noir read_payload text payload abi
      env a r =
    (
      solved_bytes-result_of noir read_payload (some msgpack_compact) text
          ∙ stages noir read_payload text payload abi env (some msgpack_compact) a r
          ∙ ap bytes_of (sym (solve_compressed_witness-solve_stack noir payload env)),
      solved_bytes-result_of noir read_payload none text
          ∙ stages noir read_payload text payload abi env none a r
          ∙ ap bytes_of (sym (solve_legacy_witness-solve_stack noir payload env)),
      solve_compressed_witness_env noir payload env,
    )
