-- ===== src/Cli.antt =====
-- crates/prover-cli/src/main.rs: the files that the commands read, the scripts that they run and
-- the parts that they share. A command returns what it prints.
pub mod Scripts
pub mod Jobs
pub mod Outer
pub mod Commands
pub mod Fixtures
pub mod Entries
pub mod Results
pub mod Inputs
pub mod Example
pub mod Requests
mod Tests
use vocdoni_passport_prover.Prelude.{
  ℕ, Bool, Option, none, some, List, [], ◌∷◌, ◌++◌, Error, message, detail, Outcome, ok, err, panic,
  unfinished,
}
use vocdoni_passport_prover.Prelude.Text.{Text, codes, text_eq}
use vocdoni_passport_prover.Json.{Value}
use vocdoni_passport_prover.Der.{Bytes}
use vocdoni_passport_prover.Web.{Http}
use vocdoni_passport_prover.Types.{FixtureBundle, InnerProofBundle, OuterProofResult}
use vocdoni_passport_prover.Resolution.{Manifest, DocumentCircuitContext}
use vocdoni_passport_prover.Analysis.{Libraries}
use vocdoni_passport_prover.Certificates.{PackagedCertificatesFile, CertificateJson}
use vocdoni_passport_prover.Registry.{PackagedCircuit, RegistryJson, RegistrySnapshot}
use vocdoni_passport_prover.Artifacts.{
  ArtifactStore, local_with_registry_fallback, registry_only, load_manifest, load_packaged_circuit,
}
use vocdoni_passport_prover.Pipeline.{
  Step, done, failed, panicked, running, invalid_fixture, not_implemented,
}
use vocdoni_passport_prover.Config.{
  CompatibilityMatrix, ConfigJson, load_json, load_fixture_bundle, load_fixture_dir,
  registry_from_matrix,
}
use vocdoni_passport_prover.Witness.{
  Noir, Env, Attempt, good, bad, WitnessPayload, solve_serialized_witness_for_circuit,
  solve_serialized_legacy_witness_for_circuit,
}
use vocdoni_passport_prover.Proving.{
  ProofArtifacts, ProofOptions, name_or_unknown, verify_circuit_proof,
}
use vocdoni_passport_prover.Io.{World, Os, Action, ◌>>=◌, return, lift, bail, workspace_root}

pub record ReferenceDisclosureInputs : Type 0 where
  pub circuit_name : Text
  pub inputs : Value

pub record ReferenceInputsFile : Type 0 where
  pub dsc_inputs : Value
  pub id_data_inputs : Value
  pub integrity_inputs : Value
  pub disclosures : List ReferenceDisclosureInputs

pub record OuterReferenceFile : Type 0 where
  pub version : Text
  pub current_date : ℕ
  pub outer_circuit_name : Text
  pub inner_bundle : InnerProofBundle
  pub outer_inputs : Value

-- `serde_json` at the other types, and `to_string` of an error.
pub record CliJson : Type 0 where
  pub read_reference : Text → Option ReferenceInputsFile
  pub read_outer_reference : Text → Option OuterReferenceFile
  pub read_snapshot : Text → Option RegistrySnapshot
  pub read_context : Text → Option DocumentCircuitContext
  pub read_payload : Text → Option WitnessPayload
  pub write_value : Value → Bytes
  pub write_snapshot : RegistrySnapshot → Bytes
  pub write_certificates : PackagedCertificatesFile → Bytes
  pub write_inner_bundle : InnerProofBundle → Bytes
  pub write_outer_result : OuterProofResult → Bytes
  pub show_error : Error → Text

-- All that the program takes from outside: overflow checks, the platform and the libraries.
pub record Setting : Type 1 where
  pub checks : Bool
  pub platform : Text × Text
  pub os : Os
  pub http : Http
  pub noir : Noir
  pub libraries : Libraries
  pub registry_json : RegistryJson
  pub certificate_json : CertificateJson
  pub config_json : ConfigJson
  pub cli_json : CliJson

pub data WitnessFormatArg : Type 0 where
  legacy compact : WitnessFormatArg

pub record CircuitSolveJob : Type 0 where
  pub circuit_name : Text
  pub inputs : Value

-- A call that reads and sets `NOIR_SERIALIZATION_FORMAT`.
abbrev pub with_format : {A : Type 0} → (Env → Outcome A × Env) → Action A
with_format call w = let (o, format) = call w.format in (record w { format = format }, o)

unfoldable pub verification_keys_match : Bytes → Bytes → Bool
verification_keys_match packaged generated = text_eq packaged generated

module _ (s : Setting) where
  -- `?` on a step of the pipeline.
  unfoldable pub of_step : {A : Type 0} → Step A → Outcome A
  of_step (done a) = ok a
  of_step (failed (invalid_fixture e)) =
      err (detail "invalid fixture: {0}" (s.cli_json.show_error e ∷ []))
  of_step (failed (not_implemented m)) = err (detail "not implemented yet: {0}" (codes m ∷ []))
  of_step panicked = panic
  of_step running = unfinished

  unfoldable pub solve_serialized_witness_for_circuit_with_format :
      PackagedCircuit → Value → WitnessFormatArg → Action Bytes
  solve_serialized_witness_for_circuit_with_format circuit inputs legacy =
      with_format (solve_serialized_legacy_witness_for_circuit s.noir circuit inputs)
  solve_serialized_witness_for_circuit_with_format circuit inputs compact =
      with_format (solve_serialized_witness_for_circuit s.noir circuit inputs)

  unfoldable pub packaged_verification_key : PackagedCircuit → Outcome Bytes
  packaged_verification_key circuit = elim (s.noir.decode_base64 circuit.vkey) [
    | good bytes ↦ ok bytes
    | bad e ↦ err (detail "failed to decode packaged vkey for {}" (name_or_unknown circuit ∷ []))
  ]

  unfoldable pub verify_inner_proof : ProofArtifacts → Bytes → ProofOptions → Action Bool
  verify_inner_proof proof verification_key proof_options =
      verify_circuit_proof s.os s.config_json s.registry_json s.noir.decode_base64 s.platform
        proof.proof proof.public_inputs verification_key proof_options

  unfoldable pub load_input : Option Text → Option Text → Action FixtureBundle
  load_input (some file) none = load_fixture_bundle s.config_json file
  load_input none (some dir) = load_fixture_dir s.config_json s.os.fs.join dir
  load_input none none = bail (message "provide exactly one of --file or --dir")
  load_input (some file) (some dir) = bail (message "provide exactly one of --file or --dir")

  unfoldable pub load_manifest_file : Text → Action Manifest
  load_manifest_file path =
      load_json s.registry_json.read_manifest
        (detail "failed to read manifest file: {}" (path ∷ []))
        (detail "failed to parse manifest file: {}" (path ∷ [])) path

  unfoldable pub load_packaged_circuit_file : Text → Action PackagedCircuit
  load_packaged_circuit_file path =
      load_json s.registry_json.read_circuit
        (detail "failed to read packaged circuit file: {}" (path ∷ []))
        (detail "failed to parse packaged circuit file: {}" (path ∷ [])) path

  unfoldable pub load_certificates_file : Text → Action PackagedCertificatesFile
  load_certificates_file path =
      load_json s.certificate_json.read_certificates
        (detail "failed to read certificates file: {}" (path ∷ []))
        (detail "failed to parse certificates file: {}" (path ∷ [])) path

  unfoldable pub load_json_value_file : Text → Action Value
  load_json_value_file path =
      load_json s.certificate_json.read_value
        (detail "failed to read JSON value file: {}" (path ∷ []))
        (detail "failed to parse JSON value file: {}" (path ∷ [])) path

  unfoldable pub artifact_store_from_options : CompatibilityMatrix → Option Text → ArtifactStore
  artifact_store_from_options matrix none = registry_only (registry_from_matrix s.http matrix)
  artifact_store_from_options matrix (some dir) =
      local_with_registry_fallback dir (registry_from_matrix s.http matrix)

  unfoldable pub fixture_id_for_dir : Text → Text
  fixture_id_for_dir dir = elim (s.os.file_name dir) [ some name ↦ name | none ↦ codes "fixture" ]

  -- The store reads the disk and leaves it.
  abbrev pub manifest_of : ArtifactStore → Text → Action Manifest
  manifest_of store version w =
      (w, load_manifest s.registry_json s.os.fs.join store w.files.disk version)

  abbrev pub circuit_of : ArtifactStore → Text → Text → Action PackagedCircuit
  circuit_of store version name w =
      (w, load_packaged_circuit s.registry_json s.os.fs.join store w.files.disk version name)

  unfoldable pub local_artifacts_dir_for_version : Text → Option Text → Action Text
  local_artifacts_dir_for_version version (some dir) = return dir
  local_artifacts_dir_for_version version none = do
    root ← workspace_root s.os
    return (
        s.os.fs.join (s.os.fs.join (s.os.fs.join root (codes "artifacts")) (codes "registry"))
          (codes "minimal-default-" ++ version))

  -- `unwrap_or_else(|| workspace_root().join("outputs")…)`.
  unfoldable pub output_dir_or : Option Text → Text → Text → Action Text
  output_dir_or (some dir) fixture_dir part = return dir
  output_dir_or none fixture_dir part = do
    root ← workspace_root s.os
    return (
        s.os.fs.join
          (s.os.fs.join (s.os.fs.join root (codes "outputs")) (fixture_id_for_dir fixture_dir))
          part)
