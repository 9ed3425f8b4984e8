-- ===== src/Cli/Scripts.antt =====
-- crates/prover-cli/src/main.rs: the Node scripts that compute the inputs of circuits, and the
-- temporary files that they are given.
use vocdoni_passport_prover.Prelude.{
  Option, none, some, List, [], ◌∷◌, String, message, detail, if◌then◌else◌,
}
use vocdoni_passport_prover.Prelude.Text.{Text, codes, trim}
use vocdoni_passport_prover.Certificates.{PackagedCertificatesFile, fetch_certificates}
use vocdoni_passport_prover.Config.{CompatibilityMatrix, load_json, certificates_from_matrix}
use vocdoni_passport_prover.Io.{
  Action, ◌>>=◌, ◌>>◌, return, lift, bail, write, output, workspace_root, with_temp_file,
}
use vocdoni_passport_prover.Cli.{
  Setting, ReferenceInputsFile, OuterReferenceFile, load_certificates_file,
}

module _ (s : Setting) where
  -- `node` on a script of the workspace, with the message for a failure.
  unfoldable pub run_script : Text → List Text → String → Action (Unit {0})
  run_script script_path args failure = do
    result ←
        output s.os
          (record { program = codes "node"; args = script_path ∷ args; current_dir = none })
          (detail "failed to execute node script: {}" (script_path ∷ []))
    if result.success then return tt else bail (detail failure (trim result.stderr ∷ []))

  abbrev script_path_of : Text → Action Text
  script_path_of name = do root ← workspace_root s.os; return (s.os.fs.join root name)

  unfoldable pub reference_inputs_at : Text → Text → Text → Text → Action ReferenceInputsFile
  reference_inputs_at script_path fixture_dir certificates_path output_path = do
    run_script script_path
        (codes "--fixture-dir"
          ∷ fixture_dir
          ∷ codes "--certificates"
          ∷ certificates_path
          ∷ codes "--out"
          ∷ output_path
          ∷ [])
        "reference input generation failed: {}"
    load_json s.cli_json.read_reference
        (detail "failed to read reference inputs file: {}" (output_path ∷ []))
        (detail "failed to parse reference inputs file: {}" (output_path ∷ [])) output_path

  unfoldable pub run_reference_inputs_script :
      Text → Text → Option Text → Action ReferenceInputsFile
  run_reference_inputs_script fixture_dir certificates_path (some path) = do
    script_path ← script_path_of (codes "scripts/reference-inputs.cjs")
    reference_inputs_at script_path fixture_dir certificates_path path
  run_reference_inputs_script fixture_dir certificates_path none = do
    script_path ← script_path_of (codes "scripts/reference-inputs.cjs")
    with_temp_file s.os (message "failed to create temporary reference output file")
        (reference_inputs_at script_path fixture_dir certificates_path)

  unfoldable pub outer_inputs_at : Text → Text → Text → Text → Text → Action OuterReferenceFile
  outer_inputs_at script_path fixture_dir proof_dir artifacts_dir output_path = do
    run_script script_path
        (codes "--fixture-dir"
          ∷ fixture_dir
          ∷ codes "--proof-dir"
          ∷ proof_dir
          ∷ codes "--artifacts-dir"
          ∷ artifacts_dir
          ∷ codes "--out"
          ∷ output_path
          ∷ [])
        "outer input generation failed: {}"
    load_json s.cli_json.read_outer_reference
        (detail "failed to read outer input file: {}" (output_path ∷ []))
        (detail "failed to parse outer input file: {}" (output_path ∷ [])) output_path

  unfoldable pub run_outer_inputs_script : Text → Text → Text → Action OuterReferenceFile
  run_outer_inputs_script fixture_dir proof_dir artifacts_dir = do
    script_path ← script_path_of (codes "scripts/outer-inputs.cjs")
    with_temp_file s.os (message "failed to create temporary outer input output file")
        (outer_inputs_at script_path fixture_dir proof_dir artifacts_dir)

  unfoldable pub aggregate_inputs_at : Text → Text → Text → Text → Action OuterReferenceFile
  aggregate_inputs_at script_path request_path artifacts_dir output_path = do
    run_script script_path
        (codes "--request"
          ∷ request_path
          ∷ codes "--artifacts-dir"
          ∷ artifacts_dir
          ∷ codes "--out"
          ∷ output_path
          ∷ [])
        "aggregate input generation failed: {}"
    load_json s.cli_json.read_outer_reference
        (detail "failed to read aggregate input file: {}" (output_path ∷ []))
        (detail "failed to parse aggregate input file: {}" (output_path ∷ [])) output_path

  unfoldable pub run_aggregate_inputs_script : Text → Text → Action OuterReferenceFile
  run_aggregate_inputs_script request_path artifacts_dir = do
    script_path ← script_path_of (codes "scripts/aggregate-inputs.cjs")
    with_temp_file s.os (message "failed to create temporary aggregate output file")
        (aggregate_inputs_at script_path request_path artifacts_dir)

  unfoldable pub written_certificates :
      {A : Type 0}
      → PackagedCertificatesFile
      → (PackagedCertificatesFile → Text → Action A)
      → Text
      → Action A
  written_certificates packaged rest path = do
    write s.os path (s.cli_json.write_certificates packaged)
        (message "failed to write temporary certificates file")
    rest packaged path

  -- `materialize_certificates_path`, with what the command does next: its temporary file is
  -- dropped at the end of the command.
  unfoldable pub materialize_certificates_path :
      {A : Type 0}
      → CompatibilityMatrix
      → Option Text
      → Option Text
      → (PackagedCertificatesFile → Text → Action A)
      → Action A
  materialize_certificates_path matrix (some path) cert_root rest = do
    packaged ← load_certificates_file s path
    rest packaged path
  materialize_certificates_path matrix none cert_root rest = do
    packaged ←
        lift
          (fetch_certificates s.certificate_json (certificates_from_matrix s.http matrix) cert_root)
    with_temp_file s.os (message "failed to create temporary certificates file")
        (written_certificates packaged rest)
