-- ===== src/Proving.antt =====
-- crates/prover-core/src/proving.rs with the feature `native-prover`: proofs by the command `bb` of
-- Barretenberg, in a temporary directory. The search for the command is in Proving/Binary.antt.
pub mod Binary
pub mod Laws
pub mod Proofs
pub mod Verification
pub mod Leftovers
pub mod Fetching
pub mod Cache
mod Downloads
mod Tests
use vocdoni_passport_prover.Prelude.{
  ℕ, ◌/◌, ◌%◌, ◌^◌, Bool, true, false, Option, none, some, List, [], ◌∷◌, ◌++◌, length, Error,
  message, detail, Outcome, ok, err, ◌==◌, if◌then◌else◌,
}
use vocdoni_passport_prover.Prelude.Text.{Text, codes, trim, show_nat}
use vocdoni_passport_prover.Der.{Bytes}
use vocdoni_passport_prover.Registry.{PackagedCircuit, RegistryJson}
use vocdoni_passport_prover.Config.{ConfigJson}
use vocdoni_passport_prover.Witness.{Attempt, good, bad}
use vocdoni_passport_prover.Io.{
  World, Os, Command, Output, Action, ◌>>=◌, ◌>>◌, return, lift, bail, read, write, create_dir_all,
  output, with_temp_dir,
}
use vocdoni_passport_prover.Proving.Binary.{run_command, ensure_bb_binary}

pub data ProofOracleHash : Type 0 where
  poseidon2 keccak : ProofOracleHash

pub record ProofOptions : Type 0 where
  pub oracle_hash : ProofOracleHash
  pub ipa_accumulation : Bool
  pub disable_zk : Bool
  pub low_memory_mode : Bool
  pub max_storage_usage : Option ℕ

abbrev pub ultra_honk_poseidon2 : ProofOptions
ultra_honk_poseidon2 = record {
  oracle_hash = poseidon2;
  ipa_accumulation = false;
  disable_zk = false;
  low_memory_mode = false;
  max_storage_usage = none;
}

abbrev pub ultra_honk_keccak : ProofOptions
ultra_honk_keccak = record {
  oracle_hash = keccak;
  ipa_accumulation = false;
  disable_zk = false;
  low_memory_mode = false;
  max_storage_usage = none;
}

pub record ProofArtifacts : Type 0 where
  pub proof : Bytes
  pub public_inputs : Bytes
  pub verification_key : Bytes
  pub public_inputs_count : ℕ

abbrev pub oracle_hash_arg : ProofOracleHash → Text
oracle_hash_arg poseidon2 = codes "poseidon2"
oracle_hash_arg keccak = codes "keccak"

unfoldable pub read_required_file : Text → Text → Action Bytes
read_required_file path description =
    read path (detail "failed to read {description}: {}" (description ∷ path ∷ []))

-- The cast to `u32` drops the bits above.
unfoldable pub public_inputs_count : Bytes → Outcome ℕ
public_inputs_count public_inputs =
    if length public_inputs % 32 == 0
    then ok (length public_inputs / 32 % 2 ^ 32)
    else err (
        detail "public inputs buffer length {} is not a multiple of 32 bytes"
          (show_nat (length public_inputs) ∷ []))

abbrev flag : Bool → Text → List Text
flag test name = if test then name ∷ [] else []

abbrev storage_budget : Option ℕ → List Text
storage_budget none = []
storage_budget (some n) = codes "--storage_budget" ∷ show_nat n ∷ []

-- What a proving command is given: the paths of its three inputs and of its output.
pub record ProveFiles : Type 0 where
  pub circuit_path : Text
  pub witness_path : Text
  pub vk_path : Text
  pub output_dir : Text

unfoldable pub prove_command : Text → ProveFiles → ProofOptions → Command
prove_command bb paths options = record {
  program = bb;
  args =
      (codes "prove"
        ∷ codes "--scheme"
        ∷ codes "ultra_honk"
        ∷ codes "-b"
        ∷ paths.circuit_path
        ∷ codes "-w"
        ∷ paths.witness_path
        ∷ codes "-o"
        ∷ paths.output_dir
        ∷ codes "--oracle_hash"
        ∷ oracle_hash_arg options.oracle_hash
        ∷ codes "--vk_path"
        ∷ paths.vk_path
        ∷ [])
      ++ flag options.ipa_accumulation (codes "--ipa_accumulation")
      ++ flag options.disable_zk (codes "--disable_zk")
      ++ flag options.low_memory_mode (codes "--slow_low_memory")
      ++ storage_budget options.max_storage_usage;
  current_dir = none;
}

unfoldable pub verify_command : Text → Text → Text → Text → ProofOptions → Command
verify_command bb proof_path public_inputs_path vk_path options = record {
  program = bb;
  args =
      (codes "verify"
        ∷ codes "--scheme"
        ∷ codes "ultra_honk"
        ∷ codes "-p"
        ∷ proof_path
        ∷ codes "-i"
        ∷ public_inputs_path
        ∷ codes "-k"
        ∷ vk_path
        ∷ codes "--oracle_hash"
        ∷ oracle_hash_arg options.oracle_hash
        ∷ [])
      ++ flag options.ipa_accumulation (codes "--ipa_accumulation")
      ++ flag options.disable_zk (codes "--disable_zk");
  current_dir = none;
}

abbrev pub name_or_unknown : PackagedCircuit → Text
name_or_unknown circuit = elim circuit.name [ some name ↦ name | none ↦ codes "<unknown>" ]

module _ (os : Os) (config : ConfigJson) (json : RegistryJson)
    (decode_base64 : Text → Attempt Bytes) (platform : Text × Text) where
  unfoldable pub write_circuit_artifact : Text → PackagedCircuit → Action Text
  write_circuit_artifact temp_dir circuit = do
    write os (os.fs.join temp_dir (codes "circuit.json")) (json.write_circuit circuit) (
        detail "failed to write circuit artifact: {}"
          (os.fs.join temp_dir (codes "circuit.json") ∷ []))
    return (os.fs.join temp_dir (codes "circuit.json"))

  unfoldable pub write_witness : Text → Bytes → Action Text
  write_witness temp_dir witness = do
    write os (os.fs.join temp_dir (codes "witness.gz")) witness
        (detail "failed to write witness file: {}" (os.fs.join temp_dir (codes "witness.gz") ∷ []))
    return (os.fs.join temp_dir (codes "witness.gz"))

  unfoldable pub decode_vkey : PackagedCircuit → Outcome Bytes
  decode_vkey circuit = elim (decode_base64 circuit.vkey) [
    | good bytes ↦ ok bytes
    | bad e ↦ err (
        detail "failed to decode packaged verification key for circuit {:?}"
          (name_or_unknown circuit ∷ []))
  ]

  unfoldable pub write_packaged_verification_key : Text → PackagedCircuit → Action (Text × Bytes)
  write_packaged_verification_key temp_dir circuit = do
    vk_bytes ← lift (decode_vkey circuit)
    write os (os.fs.join temp_dir (codes "vk")) vk_bytes
        (detail "failed to write packaged vk file: {}" (os.fs.join temp_dir (codes "vk") ∷ []))
    return (os.fs.join temp_dir (codes "vk"), vk_bytes)

  -- What follows the command.
  unfoldable pub collect_proof : Text → Bytes → Action ProofArtifacts
  collect_proof output_dir packaged_verification_key = do
    proof ← read_required_file (os.fs.join output_dir (codes "proof")) (codes "proof output")
    public_inputs ←
        read_required_file (os.fs.join output_dir (codes "public_inputs"))
          (codes "public inputs output")
    count ← lift (public_inputs_count public_inputs)
    return (record {
      proof = proof;
      public_inputs = public_inputs;
      verification_key = packaged_verification_key;
      public_inputs_count = count;
    })

  -- What happens in the temporary directory.
  unfoldable pub prove_in :
      Text → PackagedCircuit → Bytes → ProofOptions → Text → Action ProofArtifacts
  prove_in bb circuit witness options temp_dir = do
    circuit_path ← write_circuit_artifact temp_dir circuit
    witness_path ← write_witness temp_dir witness
    (vk_path, packaged_verification_key) ← write_packaged_verification_key temp_dir circuit
    create_dir_all os (os.fs.join temp_dir (codes "proof")) (
        detail "failed to create proof output directory: {}"
          (os.fs.join temp_dir (codes "proof") ∷ []))
    run_command os
        (prove_command bb
          (record {
            circuit_path = circuit_path;
            witness_path = witness_path;
            vk_path = vk_path;
            output_dir = os.fs.join temp_dir (codes "proof");
          })
          options)
        (codes "bb prove")
    collect_proof (os.fs.join temp_dir (codes "proof")) packaged_verification_key

  unfoldable pub prove_circuit_with_witness :
      PackagedCircuit → Bytes → ProofOptions → Action ProofArtifacts
  prove_circuit_with_witness circuit witness options = do
    bb ← ensure_bb_binary os config platform
    with_temp_dir os (message "failed to create temporary proving directory")
        (prove_in bb circuit witness options)

  -- What happens in the temporary directory of a verification.
  unfoldable pub verify_in : Text → Bytes → Bytes → Bytes → ProofOptions → Text → Action Bool
  verify_in bb proof public_inputs verification_key options temp_dir = do
    write os (os.fs.join temp_dir (codes "proof")) proof
        (detail "failed to write proof file: {}" (os.fs.join temp_dir (codes "proof") ∷ []))
    write os (os.fs.join temp_dir (codes "public_inputs")) public_inputs (
        detail "failed to write public inputs file: {}"
          (os.fs.join temp_dir (codes "public_inputs") ∷ []))
    write os (os.fs.join temp_dir (codes "vk")) verification_key
        (detail "failed to write vk file: {}" (os.fs.join temp_dir (codes "vk") ∷ []))
    out ←
        output os
          (verify_command bb (os.fs.join temp_dir (codes "proof"))
            (os.fs.join temp_dir (codes "public_inputs")) (os.fs.join temp_dir (codes "vk"))
            options)
          (message "failed to execute bb verify command")
    return out.success

  unfoldable pub verify_circuit_proof : Bytes → Bytes → Bytes → ProofOptions → Action Bool
  verify_circuit_proof proof public_inputs verification_key options = do
    bb ← ensure_bb_binary os config platform
    with_temp_dir os (message "failed to create temporary verification directory")
        (verify_in bb proof public_inputs verification_key options)

unfoldable pub split_flattened_proof : Bytes → Outcome (List Bytes × List Bytes)
split_flattened_proof proof =
    err (message "proof splitting is not implemented in the v2 prover yet")
