-- ===== src/Witness.antt =====
-- The witness solver: crates/prover-core/src/witness.rs and crates/prover-core/src/circuit.rs.
-- Noir's own types and functions are parameters. The environment variable
-- `NOIR_SERIALIZATION_FORMAT` is a state: a call takes it and returns it.
pub mod History
pub mod Jni
pub mod Example
pub mod Agreement
mod Tests
use vocdoni_passport_prover.Prelude.{
  ℕ, Option, none, some, List, [], ◌∷◌, ◌++◌, Error, message, detail, Outcome, ok, err, panic,
  unfinished, ◌>>=◌, String, context,
}
use vocdoni_passport_prover.Prelude.Text.{Text, codes}
use vocdoni_passport_prover.Json.{Value}
use vocdoni_passport_prover.Der.{Bytes}
use vocdoni_passport_prover.Registry.{PackagedCircuit}

-- A result of a library, or the text of its error.
pub data Attempt {ℓ} (A : Type ℓ) : Type ℓ where
  good : A → Attempt A
  bad : Text → Attempt A

-- Noir and what is used with it. `serialize` and `serialize_program` read the environment
-- variable; both compress.
pub record Noir : Type 1 where
  pub Abi : Type 0
  pub InputMap : Type 0
  pub WitnessMap : Type 0
  pub Program : Type 0
  pub WitnessStack : Type 0
  pub decode_base64 : Text → Attempt Bytes
  pub to_string : Value → Attempt Text
  pub parse_abi : Value → Attempt Abi
  pub parse_inputs : Text → Abi → Attempt InputMap
  pub encode : Abi → InputMap → Attempt WitnessMap
  pub deserialize_program : Bytes → Attempt Program
  pub execute_program : Program → WitnessMap → Attempt WitnessStack
  pub serialize : Option Text → WitnessStack → Attempt Bytes
  pub serialize_program : Option Text → Program → Bytes
  pub gunzip : Bytes → Attempt Bytes

-- `NOIR_SERIALIZATION_FORMAT`, if it is set.
abbrev pub Env : Type 0
Env = Option Text

-- `.context(…)`: the library's own message is behind the new one.
abbrev pub expecting {ℓ} : {A : Type ℓ} → String → Attempt A → Outcome A
expecting m (good a) = ok a
expecting m (bad e) = err (message m)

-- `.map_err(|error| anyhow!("…: {error}"))`.
abbrev pub or_error {ℓ} : {A : Type ℓ} → String → Attempt A → Outcome A
or_error m (good a) = ok a
or_error m (bad e) = err (detail m (e ∷ []))

pub record WitnessPayload : Type 0 where
  pub bytecode : Text
  pub abi : Value
  pub inputs : Value

abbrev pub msgpack_compact : Text
msgpack_compact = codes "msgpack-compact"

module _ (noir : Noir) where
  -- The steps in front of the serialization.
  unfoldable pub solve_stack : WitnessPayload → Outcome noir.WitnessStack
  solve_stack payload = do
    abi ← expecting "failed to parse Noir ABI" (noir.parse_abi payload.abi)
    program_bytes ←
        expecting "failed to decode circuit bytecode" (noir.decode_base64 payload.bytecode)
    inputs_str ← expecting "failed to serialize inputs" (noir.to_string payload.inputs)
    input_map ← or_error "input parse failed: {error}" (noir.parse_inputs inputs_str abi)
    witness_map ← or_error "ABI encode failed: {error}" (noir.encode abi input_map)
    program ←
        or_error "Program::deserialize_program failed: {error}"
          (noir.deserialize_program program_bytes)
    or_error "ACVM execution failed: {error}" (noir.execute_program program witness_map)

  -- The variable is set, or removed, just before it is read. A call that fails earlier leaves it.
  unfoldable pub solve_compressed_witness_with_format :
      WitnessPayload → Option Text → Env → Outcome Bytes × Env
  solve_compressed_witness_with_format payload serialization_format env =
      elim (solve_stack payload) [
        | ok witness_stack ↦ (
          or_error "witness serialization failed: {error}"
              (noir.serialize serialization_format witness_stack),
          serialization_format,
        )
        | err e ↦ (err e, env)
        | panic ↦ (panic, env)
        | unfinished ↦ (unfinished, env)
      ]

  unfoldable pub decompress_witness_stack : Bytes → Outcome Bytes
  decompress_witness_stack serialized =
      or_error "witness gzip decompression failed: {error}" (noir.gunzip serialized)

  unfoldable pub solve_serialized_witness : WitnessPayload → Env → Outcome Bytes × Env
  solve_serialized_witness payload env =
      solve_compressed_witness_with_format payload (some msgpack_compact) env

  unfoldable pub solve_serialized_legacy_witness : WitnessPayload → Env → Outcome Bytes × Env
  solve_serialized_legacy_witness payload env =
      solve_compressed_witness_with_format payload none env

  unfoldable pub solve_compressed_witness : WitnessPayload → Env → Outcome Bytes × Env
  solve_compressed_witness payload env =
      let (serialized, env') = solve_serialized_witness payload env in
      (serialized >>= decompress_witness_stack, env')

  unfoldable pub solve_legacy_witness : WitnessPayload → Env → Outcome Bytes × Env
  solve_legacy_witness payload env =
      let (serialized, env') = solve_serialized_legacy_witness payload env in
      (serialized >>= decompress_witness_stack, env')

  abbrev pub payload_of : PackagedCircuit → Value → WitnessPayload
  payload_of circuit inputs = record {
    bytecode = circuit.bytecode;
    abi = circuit.abi;
    inputs = inputs;
  }

  unfoldable pub solve_serialized_witness_for_circuit :
      PackagedCircuit → Value → Env → Outcome Bytes × Env
  solve_serialized_witness_for_circuit circuit inputs env =
      solve_serialized_witness (payload_of circuit inputs) env

  unfoldable pub solve_serialized_legacy_witness_for_circuit :
      PackagedCircuit → Value → Env → Outcome Bytes × Env
  solve_serialized_legacy_witness_for_circuit circuit inputs env =
      solve_serialized_legacy_witness (payload_of circuit inputs) env

  unfoldable pub solve_compressed_witness_for_circuit :
      PackagedCircuit → Value → Env → Outcome Bytes × Env
  solve_compressed_witness_for_circuit circuit inputs env =
      solve_compressed_witness (payload_of circuit inputs) env

  unfoldable pub solve_legacy_witness_for_circuit :
      PackagedCircuit → Value → Env → Outcome Bytes × Env
  solve_legacy_witness_for_circuit circuit inputs env =
      solve_legacy_witness (payload_of circuit inputs) env

  unfoldable pub get_acir_buffer : Text → Outcome Bytes
  get_acir_buffer circuit_bytecode =
      expecting "failed to decode circuit bytecode from base64"
        (noir.decode_base64 circuit_bytecode)

  unfoldable pub uncompress_acir_buffer : Bytes → Outcome Bytes
  uncompress_acir_buffer acir_buffer =
      expecting "failed to decompress ACIR buffer" (noir.gunzip acir_buffer)

  unfoldable pub acir_program : Text → Outcome noir.Program
  acir_program circuit_bytecode = do
    acir_buffer ← get_acir_buffer circuit_bytecode
    or_error "failed to deserialize program: {error}" (noir.deserialize_program acir_buffer)

  unfoldable pub get_acir_buffer_uncompressed : Text → Env → Outcome Bytes × Env
  get_acir_buffer_uncompressed circuit_bytecode env = elim (acir_program circuit_bytecode) [
    | ok program ↦ (
      uncompress_acir_buffer (noir.serialize_program (some msgpack_compact) program),
      some msgpack_compact,
    )
    | err e ↦ (err e, env)
    | panic ↦ (panic, env)
    | unfinished ↦ (unfinished, env)
  ]
