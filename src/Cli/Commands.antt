-- ===== src/Cli/Commands.antt =====
-- crates/prover-cli/src/main.rs: the other commands, one function for each. It returns what the
-- command prints.
use vocdoni_passport_prover.Prelude.{true, Option, none, some, List, [], ◌∷◌, ◌++◌, message, detail}
use vocdoni_passport_prover.Prelude.Text.{Text, codes}
use vocdoni_passport_prover.Web.{expect}
use vocdoni_passport_prover.Types.{FixtureBundle}
use vocdoni_passport_prover.Json.{object, field, bool, end}
use vocdoni_passport_prover.Planning.{ProofPlan, required_circuit_names}
use vocdoni_passport_prover.Resolution.{
  Manifest, ResolvedDocumentCircuits, resolve_document_circuits,
}
use vocdoni_passport_prover.Analysis.{DocumentAnalysis, analyze_document}
use vocdoni_passport_prover.Certificates.{
  PackagedCertificate, PackagedCertificatesFile, fetch_certificates, resolve_csca,
}
use vocdoni_passport_prover.Registry.{
  PackagedCircuit, RegistrySnapshot, fetch_manifest, snapshot_circuits, materialize_snapshot,
}
use vocdoni_passport_prover.Pipeline.{validate_fixture, plan_fixture}
use vocdoni_passport_prover.Pipeline.Summary.{compatibility_matrix_summary}
use vocdoni_passport_prover.Config.{
  CompatibilityMatrix, load_json, load_compatibility_matrix, registry_from_matrix,
  certificates_from_matrix,
}
use vocdoni_passport_prover.Io.{Action, ◌>>=◌, ◌>>◌, return, lift, bail, within_io}
use vocdoni_passport_prover.Cli.{
  Setting, of_step, load_input, load_manifest_file, load_certificates_file,
  artifact_store_from_options, manifest_of, circuit_of,
}
use vocdoni_passport_prover.Cli.Jobs.{write_file}

-- `version.unwrap_or_else(|| matrix.registry.circuit_version.clone())`.
abbrev version_or : Option Text → CompatibilityMatrix → Text
version_or (some version) matrix = version
version_or none matrix = matrix.registry.circuit_version

module _ (s : Setting) where
  abbrev pub matrix_at : Text → Action CompatibilityMatrix
  matrix_at path = load_compatibility_matrix s.config_json path

  unfoldable pub validate_fixture_command : Option Text → Option Text → Action FixtureBundle
  validate_fixture_command file dir = do
    fixture ← load_input s file dir
    within_io (message "fixture validation failed in pipeline")
        (lift (of_step s (validate_fixture fixture)))
    return fixture

  unfoldable pub show_matrix : Action (List (Text × Text))
  show_matrix = do
    matrix ← matrix_at (codes "config/compatibility-matrix.json")
    return (compatibility_matrix_summary matrix)

  unfoldable pub fetch_manifest_command : Option Text → Text → Option Text → Action Manifest
  fetch_manifest_command version matrix_path artifacts_dir = do
    matrix ← matrix_at matrix_path
    manifest_of s (artifact_store_from_options s matrix artifacts_dir) (version_or version matrix)

  unfoldable pub inspect_circuit :
      Text → Option Text → Text → Option Text → Action (Manifest × Text × PackagedCircuit)
  inspect_circuit name version matrix_path artifacts_dir = do
    matrix ← matrix_at matrix_path
    manifest ←
        manifest_of s (artifact_store_from_options s matrix artifacts_dir)
          (version_or version matrix)
    circuit ←
        circuit_of s (artifact_store_from_options s matrix artifacts_dir)
          (version_or version matrix) name
    return (manifest, name, circuit)

  unfoldable pub plan_request : Option Text → Option Text → Action ProofPlan
  plan_request file dir = do
    fixture ← load_input s file dir
    lift (of_step s (plan_fixture fixture))

  -- The circuits of a fixture, if one is given.
  unfoldable pub names_of_fixture : Option Text → Option Text → Action (List Text)
  names_of_fixture none none = return []
  names_of_fixture (some file) dir = do
    plan ← plan_request (some file) dir
    return (required_circuit_names plan)
  names_of_fixture none (some dir) = do
    plan ← plan_request none (some dir)
    return (required_circuit_names plan)

  abbrev some_names : List Text → Action (Unit {0})
  some_names (name ∷ names) = return tt
  some_names [] = bail (
      message
        "provide at least one --circuit or a fixture via --file/--dir to derive query circuits")

  abbrev write_snapshot_if : Option Text → RegistrySnapshot → Action (Unit {0})
  write_snapshot_if none snapshot = return tt
  write_snapshot_if (some output) snapshot =
      write_file s output (s.cli_json.write_snapshot snapshot)
        (detail "failed to write snapshot file: {}" (output ∷ []))

  unfoldable pub snapshot_registry :
      Option Text
      → Text
      → Option Text
      → Option Text
      → List Text
      → Option Text
      → Action RegistrySnapshot
  snapshot_registry version matrix_path file dir circuit output = do
    matrix ← matrix_at matrix_path
    more ← names_of_fixture file dir
    some_names (circuit ++ more)
    snapshot ← lift (
        snapshot_circuits s.registry_json (registry_from_matrix s.http matrix)
          (version_or version matrix) (circuit ++ more))
    write_snapshot_if output snapshot
    return snapshot

  -- The files of the snapshot are added to the disk.
  abbrev materialize : CompatibilityMatrix → RegistrySnapshot → Text → Action (Unit {0})
  materialize matrix snapshot out_dir w =
      let (disk, o) =
        materialize_snapshot s.registry_json (registry_from_matrix s.http matrix) s.os.fs snapshot
          out_dir w.files.disk in
      (record w { files = record { disk = disk; dirs = w.files.dirs } }, o)

  unfoldable pub materialize_snapshot_command : Text → Text → Text → Action RegistrySnapshot
  materialize_snapshot_command snapshot_path out_dir matrix_path = do
    matrix ← matrix_at matrix_path
    snapshot ←
        load_json s.cli_json.read_snapshot
          (detail "failed to read snapshot file: {}" (snapshot_path ∷ []))
          (detail "failed to parse snapshot file: {}" (snapshot_path ∷ [])) snapshot_path
    materialize matrix snapshot out_dir
    return snapshot

  abbrev manifest_or_fetch : Option Text → Option Text → Text → Action Manifest
  manifest_or_fetch (some path) version matrix_path = load_manifest_file s path
  manifest_or_fetch none version matrix_path = do
    matrix ← matrix_at matrix_path
    lift (
        fetch_manifest s.registry_json (registry_from_matrix s.http matrix)
          (version_or version matrix))

  unfoldable pub resolve_circuits :
      Text → Option Text → Option Text → Text → Action ResolvedDocumentCircuits
  resolve_circuits context_path manifest_path version matrix_path = do
    context ←
        load_json s.cli_json.read_context
          (detail "failed to read context file: {}" (context_path ∷ []))
          (detail "failed to parse context file: {}" (context_path ∷ [])) context_path
    manifest ← manifest_or_fetch manifest_path version matrix_path
    lift (resolve_document_circuits manifest context)

  unfoldable pub analyze_document_command : Option Text → Option Text → Action DocumentAnalysis
  analyze_document_command file dir = do
    fixture ← load_input s file dir
    lift (analyze_document s.checks s.libraries fixture.document)

  unfoldable pub fetch_certificates_command : Option Text → Text → Action PackagedCertificatesFile
  fetch_certificates_command root matrix_path = do
    matrix ← matrix_at matrix_path
    lift (fetch_certificates s.certificate_json (certificates_from_matrix s.http matrix) root)

  abbrev pub certificates_or_fetch :
      CompatibilityMatrix → Option Text → Option Text → Action PackagedCertificatesFile
  certificates_or_fetch matrix (some path) cert_root = load_certificates_file s path
  certificates_or_fetch matrix none cert_root =
      lift
        (fetch_certificates s.certificate_json (certificates_from_matrix s.http matrix) cert_root)

  abbrev pub csca_of : DocumentAnalysis → PackagedCertificatesFile → Action PackagedCertificate
  csca_of analysis packaged = lift (
      expect (resolve_csca analysis packaged)
        (message "failed to match CSCA certificate from packaged registry"))

  abbrev pub manifest_or_store :
      CompatibilityMatrix → Option Text → Option Text → Option Text → Action Manifest
  manifest_or_store matrix (some path) version artifacts_dir = load_manifest_file s path
  manifest_or_store matrix none version artifacts_dir =
      manifest_of s (artifact_store_from_options s matrix artifacts_dir) (version_or version matrix)

-- `PrintExampleFixture`.
abbrev pub example_fixture : FixtureBundle
example_fixture = record {
  document = record {
    dg1_base64 = codes "<dg1-base64>";
    sod_der_base64 = codes "<sod-der-base64>";
    dg2_base64 = none;
    document_type = some (codes "passport");
  };
  request = record {
    circuit_version = codes "0.18.0";
    chain_id = 11155111;
    service_scope = codes "vocdoni-passport";
    service_subscope = codes "petition";
    current_date = 1775041600;
    query =
        object
          (field (codes "nationality") (object (field (codes "disclose") (bool true) end)) end);
    petition_id = some (codes "demo-1");
    aggregate_mode = some (codes "server");
  };
  expected_inner = none;
  expected_outer = none;
  metadata = record {
    fixture_id = some (codes "example");
    source = some (codes "manual");
    notes = some (codes "replace placeholders with real captured data");
  };
}
