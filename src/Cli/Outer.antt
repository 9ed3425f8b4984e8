-- ===== src/Cli/Outer.antt =====
-- crates/prover-cli/src/main.rs: the outer proof, of a fixture directory and of a request.
use vocdoni_passport_prover.Prelude.{
  ℕ, Bool, true, false, Option, none, some, List, [], ◌∷◌, ◌++◌, length, detail,
}
use vocdoni_passport_prover.Prelude.Text.{Text, codes}
use vocdoni_passport_prover.Der.{Bytes}
use vocdoni_passport_prover.Types.{OuterProofResult}
use vocdoni_passport_prover.Registry.{PackagedCircuit}
use vocdoni_passport_prover.Artifacts.{ArtifactStore}
use vocdoni_passport_prover.Config.{load_compatibility_matrix, load_fixture_dir}
use vocdoni_passport_prover.Proving.{ProofArtifacts, ProofOptions, ultra_honk_keccak}
use vocdoni_passport_prover.PublicInputs.{bytes_to_hex, split_hex_fields, outer_nullifier}
use vocdoni_passport_prover.Io.{Action, ◌>>=◌, ◌>>◌, return, lift, within_io, create_dir_all}
use vocdoni_passport_prover.Cli.{
  Setting, OuterReferenceFile, WitnessFormatArg, legacy, compact, verification_keys_match,
  packaged_verification_key, verify_inner_proof, circuit_of, artifact_store_from_options,
  local_artifacts_dir_for_version, output_dir_or, solve_serialized_witness_for_circuit_with_format,
}
use vocdoni_passport_prover.Cli.Scripts.{run_outer_inputs_script, run_aggregate_inputs_script}
use vocdoni_passport_prover.Cli.Jobs.{write_file, persist_proof_artifacts, prove}

-- The options that both commands set.
unfoldable pub outer_options : Bool → Option ℕ → ProofOptions
outer_options low_memory_mode max_storage_usage = record {
  oracle_hash = ultra_honk_keccak.oracle_hash;
  ipa_accumulation = false;
  disable_zk = true;
  low_memory_mode = low_memory_mode;
  max_storage_usage = max_storage_usage;
}

-- `bool::to_string`.
abbrev pub bool_text : Bool → Text
bool_text true = codes "true"
bool_text false = codes "false"

abbrev pub format_text : WitnessFormatArg → Text
format_text legacy = codes "legacy"
format_text compact = codes "compact"

-- The metadata, in the order of the map's keys.
unfoldable pub outer_metadata : WitnessFormatArg → ProofOptions → Bool → Bool → List (Text × Text)
outer_metadata witness_format options matches verified =
    (codes "disable_zk", bool_text options.disable_zk)
    ∷ (codes "generated_vk_matches_packaged", bool_text matches)
    ∷ (codes "ipa_accumulation", bool_text options.ipa_accumulation)
    ∷ (codes "oracle_hash", codes "keccak")
    ∷ (codes "proof_verified", bool_text verified)
    ∷ (codes "prover_backend", codes "zkpassport-bb-cli-v4.2.0-aztecnr-rc.2")
    ∷ (codes "witness_format", format_text witness_format)
    ∷ []

-- A proof with what the command found out about it.
pub record Checked : Type 0 where
  pub proof : ProofArtifacts
  pub packaged_vk : Bytes
  pub matches : Bool
  pub verified : Bool

unfoldable pub outer_result_of :
    Text
    → Text
    → PackagedCircuit
    → WitnessFormatArg
    → ProofOptions
    → Checked
    → List Text
    → OuterProofResult
outer_result_of version name outer_circuit witness_format options checked public_inputs = record {
  version = version;
  name = name;
  proof = bytes_to_hex checked.proof.proof;
  public_inputs = public_inputs;
  vkey_hash = outer_circuit.vkey_hash;
  nullifier = outer_nullifier public_inputs;
  metadata = outer_metadata witness_format options checked.matches checked.verified;
}

module _ (s : Setting) where
  -- The proof and its verification, the same in both commands.
  unfoldable pub prove_and_check : Text → PackagedCircuit → Bytes → ProofOptions → Action Checked
  prove_and_check name outer_circuit witness options = do
    proof ←
        within_io (detail "failed to generate outer proof for {}" (name ∷ []))
          (prove s outer_circuit witness options)
    packaged_vk ← lift (packaged_verification_key s outer_circuit)
    verified ←
        within_io (detail "failed to verify outer proof for {}" (name ∷ []))
          (verify_inner_proof s proof packaged_vk options)
    return (record {
      proof = proof;
      packaged_vk = packaged_vk;
      matches = verification_keys_match packaged_vk proof.verification_key;
      verified = verified;
    })

  abbrev pub solve_outer : OuterReferenceFile → PackagedCircuit → WitnessFormatArg → Action Bytes
  solve_outer reference outer_circuit witness_format =
      within_io (detail "failed to solve outer witness for {}" (reference.outer_circuit_name ∷ []))
        (solve_serialized_witness_for_circuit_with_format s outer_circuit reference.outer_inputs
          witness_format)

  -- `AggregateRequest`, from the loaded inputs to the result.
  unfoldable pub aggregate :
      ArtifactStore → OuterReferenceFile → WitnessFormatArg → ProofOptions → Action OuterProofResult
  aggregate store reference witness_format options = do
    outer_circuit ← circuit_of s store reference.version reference.outer_circuit_name
    witness ← solve_outer reference outer_circuit witness_format
    checked ← prove_and_check reference.outer_circuit_name outer_circuit witness options
    public_inputs ← lift (split_hex_fields checked.proof.public_inputs)
    return (
        outer_result_of reference.version reference.outer_circuit_name outer_circuit witness_format
          options checked public_inputs)

  unfoldable pub create_parent : Option Text → Action (Unit {0})
  create_parent none = return tt
  create_parent (some parent) =
      create_dir_all s.os parent (detail "failed to create output directory: {}" (parent ∷ []))

  unfoldable pub write_output : Option Text → OuterProofResult → Action (Unit {0})
  write_output none result = return tt
  write_output (some output) result = do
    create_parent (s.os.parent output)
    write_file s output (s.cli_json.write_outer_result result)
        (detail "failed to write aggregate output file: {}" (output ∷ []))

  unfoldable pub aggregate_request :
      Text
      → Option Text
      → Text
      → Option Text
      → WitnessFormatArg
      → Bool
      → Option ℕ
      → Action OuterProofResult
  aggregate_request input artifacts_dir matrix_path output witness_format low_memory max_storage =
      do
        matrix ← load_compatibility_matrix s.config_json matrix_path
        dir ← local_artifacts_dir_for_version s matrix.registry.circuit_version artifacts_dir
        reference ← run_aggregate_inputs_script s input dir
        result ←
            aggregate (artifact_store_from_options s matrix (some dir)) reference witness_format
              (outer_options low_memory max_storage)
        write_output output result
        return result

  -- What `ProveFixtureOuter` prints.
  pub record OuterSummary : Type 0 where
    pub outer_circuit_name : Text
    pub proof_verified : Bool
    pub proof_bytes : ℕ
    pub public_inputs_count : ℕ
    pub summary_path : Text

  abbrev within_dir : Text → Text → Text
  within_dir dir name = s.os.fs.join dir name

  -- `ProveFixtureOuter`, from the computed inputs to the end.
  unfoldable pub prove_outer_in :
      ArtifactStore
      → Text
      → Text
      → OuterReferenceFile
      → WitnessFormatArg
      → ProofOptions
      → Action OuterSummary
  prove_outer_in store version output_dir reference witness_format options = do
    write_file s (within_dir output_dir (codes "inner_bundle.json"))
        (s.cli_json.write_inner_bundle reference.inner_bundle)
        (detail "failed to write inner bundle file: {}"
          (within_dir output_dir (codes "inner_bundle.json") ∷ []))
    write_file s (within_dir output_dir (codes "outer_inputs.json"))
        (s.cli_json.write_value reference.outer_inputs)
        (detail "failed to write outer inputs file: {}"
          (within_dir output_dir (codes "outer_inputs.json") ∷ []))
    outer_circuit ← circuit_of s store version reference.outer_circuit_name
    witness ← solve_outer reference outer_circuit witness_format
    write_file s (within_dir output_dir (reference.outer_circuit_name ++ codes ".witness.bin"))
        witness
        (detail "failed to write outer witness file: {}"
          (within_dir output_dir (reference.outer_circuit_name ++ codes ".witness.bin") ∷ []))
    checked ← prove_and_check reference.outer_circuit_name outer_circuit witness options
    persist_proof_artifacts s output_dir reference.outer_circuit_name checked.proof
        checked.packaged_vk checked.matches
    public_inputs ← lift (split_hex_fields checked.proof.public_inputs)
    write_file s (within_dir output_dir (codes "outer_result.json"))
        (s.cli_json.write_outer_result (
          outer_result_of version reference.outer_circuit_name outer_circuit witness_format options
            checked public_inputs))
        (detail "failed to write outer result file: {}"
          (within_dir output_dir (codes "outer_result.json") ∷ []))
    return (record {
      outer_circuit_name = reference.outer_circuit_name;
      proof_verified = checked.verified;
      proof_bytes = length checked.proof.proof;
      public_inputs_count = checked.proof.public_inputs_count;
      summary_path = within_dir output_dir (codes "outer_result.json");
    })

  unfoldable pub prove_fixture_outer :
      Text
      → Option Text
      → Text
      → Option Text
      → Option Text
      → WitnessFormatArg
      → Bool
      → Option ℕ
      → Action OuterSummary
  prove_fixture_outer dir artifacts_dir matrix_path proofs_dir output_dir witness_format low_memory
        max_storage =
      do
        matrix ← load_compatibility_matrix s.config_json matrix_path
        fixture ← load_fixture_dir s.config_json s.os.fs.join dir
        outer_artifacts_dir ←
            local_artifacts_dir_for_version s fixture.request.circuit_version artifacts_dir
        proofs ← output_dir_or s proofs_dir dir (codes "proofs")
        outputs ← output_dir_or s output_dir dir (codes "outer")
        create_dir_all s.os outputs
            (detail "failed to create outer output directory: {}" (outputs ∷ []))
        reference ← run_outer_inputs_script s dir proofs outer_artifacts_dir
        prove_outer_in (artifact_store_from_options s matrix artifacts_dir)
            fixture.request.circuit_version outputs reference witness_format
            (outer_options low_memory max_storage)
