-- ===== src/Witness/Jni.antt =====
-- crates/acvm-witness-jni/src/lib.rs: the solver of the Android and iOS applications, which reads
-- its payload from a JSON text, and its JNI function.
use vocdoni_passport_prover.Prelude.{ℕ, List, [], ◌∷◌, length, Bool, ◌++◌}
use vocdoni_passport_prover.Prelude.Text.{Text, codes, show_nat}
use vocdoni_passport_prover.Json.{Value}
use vocdoni_passport_prover.Der.{Bytes}
use vocdoni_passport_prover.Witness.{Noir, Env, Attempt, good, bad}

-- The crate's own `WitnessPayload`, whose ABI is read already.
pub record JniPayload (noir : Noir) : Type 0 where
  pub bytecode : Text
  pub abi : noir.Abi
  pub inputs : Value

-- Each with the text that its message carries.
pub data SolveError : Type 0 where
  json base64 input_parse abi_encode deserialize acvm serialize_error : Text → SolveError

pub data Solved {ℓ} (A : Type ℓ) : Type ℓ where
  solved : A → Solved A
  failed : SolveError → Solved A

infixl 5 ◌>>=◌
abbrev pub ◌>>=◌ {ℓ κ} : {A : Type ℓ} {B : Type κ} → Solved A → (A → Solved B) → Solved B
solved a >>= next = next a
failed e >>= next = failed e

-- `?` with the conversion of the library's error, and `map_err`.
abbrev pub or_failed {ℓ} : {A : Type ℓ} → (Text → SolveError) → Attempt A → Solved A
or_failed why (good a) = solved a
or_failed why (bad e) = failed (why e)

-- `Display` of the error.
unfoldable pub to_string : SolveError → Text
to_string (json e) = codes "JSON: " ++ e
to_string (base64 e) = codes "Base64: " ++ e
to_string (input_parse e) = codes "Input parse: " ++ e
to_string (abi_encode e) = codes "ABI encode: " ++ e
to_string (deserialize e) = codes "Program deserialize: " ++ e
to_string (acvm e) = codes "ACVM: " ++ e
to_string (serialize_error e) = codes "Witness serialize: " ++ e

module _ (noir : Noir) (read_payload : Text → Attempt (JniPayload noir)) where
  -- This crate never sets the environment variable.
  unfoldable pub solve_inner : Env → Text → Solved Bytes
  solve_inner env text = do
    payload ← or_failed json (read_payload text)
    program_bytes ← or_failed base64 (noir.decode_base64 payload.bytecode)
    inputs_str ← or_failed json (noir.to_string payload.inputs)
    input_map ← or_failed input_parse (noir.parse_inputs inputs_str payload.abi)
    witness_map ← or_failed abi_encode (noir.encode payload.abi input_map)
    program ←
        or_failed (λ e. deserialize (codes "Program::deserialize_program failed: " ++ e))
          (noir.deserialize_program program_bytes)
    witness_stack ← or_failed acvm (noir.execute_program program witness_map)
    compressed ← or_failed serialize_error (noir.serialize env witness_stack)
    or_failed (λ e. serialize_error (codes "gzip decompress: " ++ e)) (noir.gunzip compressed)

  unfoldable pub solve_compressed_witness_from_json_utf8 : Env → Text → Attempt Bytes
  solve_compressed_witness_from_json_utf8 env text = elim (solve_inner env text) [
    | solved bytes ↦ good bytes
    | failed e ↦ bad (to_string e)
  ]

-- What the function uses of the Java virtual machine. `throw_new` may fail.
pub record JniEnv : Type 1 where
  pub JString : Type 0
  pub Reference : Type 0
  pub get_string : JString → Attempt Text
  pub byte_array_from_slice : Bytes → Attempt Reference
  pub throw_new : Text → Bool

-- Where the function ends: with an array, or with the null pointer and the message of the
-- exception that was asked for, with whether it was raised.
pub data Return (jni : JniEnv) : Type 0 where
  array : jni.Reference → Return jni
  null_array : Text → Bool → Return jni

unfoldable pub thrown : (jni : JniEnv) → Text → Return jni
thrown jni why = null_array why (jni.throw_new why)

module _ (noir : Noir) (read_payload : Text → Attempt (JniPayload noir)) (jni : JniEnv) where
  unfoldable pub native_solve_from_json_utf8 : Env → jni.JString → Return jni
  native_solve_from_json_utf8 env json_string = elim (jni.get_string json_string) [
    | bad e ↦ thrown jni (codes "JNI get_string: " ++ e)
    | good text ↦ elim (solve_inner noir read_payload env text) [
      | failed e ↦ thrown jni (to_string e)
      | solved bytes ↦ elim (jni.byte_array_from_slice bytes) [
        | bad e ↦ thrown jni (codes "byte_array_from_slice: " ++ e)
        | good reference ↦ array reference
      ]
    ]
  ]

-- src/bin/acvm_witness_cli.rs: the exit status and what is printed. The file is read by a
-- parameter.
unfoldable pub acvm_witness_cli :
    (noir : Noir)
    → (Text → Attempt (JniPayload noir))
    → Env
    → (Text → Attempt Text)
    → List Text
    → ℕ × Text
acvm_witness_cli noir read_payload env read_file (program ∷ path ∷ []) = elim (read_file path) [
  | bad e ↦ (2, codes "read " ++ path ++ codes ": " ++ e)
  | good text ↦ elim (solve_compressed_witness_from_json_utf8 noir read_payload env text) [
    | good bytes ↦ (0, codes "ok: witness bytes=" ++ show_nat (length bytes))
    | bad e ↦ (1, codes "error: " ++ e)
  ]
]
acvm_witness_cli noir read_payload env read_file args =
    (2, codes "usage: acvm_witness_cli <payload.json>")
