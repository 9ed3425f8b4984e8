-- ===== src/Cli/Example.antt =====
-- A setting on the example machine: one circuit in a local store, one fixture, one request.
use vocdoni_passport_prover.Prelude.{false, none, some, List, [], ◌∷◌}
use vocdoni_passport_prover.Prelude.Text.{codes}
use vocdoni_passport_prover.Json.{null}
use vocdoni_passport_prover.Web.{unreachable}
use vocdoni_passport_prover.Types.{FixtureBundle, RecursiveProof}
use vocdoni_passport_prover.Registry.{PackagedCircuit}
use vocdoni_passport_prover.Artifacts.{ArtifactStore, local}
use vocdoni_passport_prover.Witness.Example.{noir}
use vocdoni_passport_prover.Io.Example.{os}
use vocdoni_passport_prover.Cli.{Setting, CircuitSolveJob, OuterReferenceFile}
use vocdoni_passport_prover.Config.{CompatibilityMatrix}

abbrev pub circuit : PackagedCircuit
circuit = record {
  name = some (codes "outer");
  noir_version = none;
  bb_version = none;
  size = none;
  abi = null;
  bytecode = codes "p";
  vkey = codes "v";
  vkey_hash = codes "h";
  hash = none;
}

abbrev pub setting : Setting
setting = record {
  checks = false;
  platform = (codes "linux", codes "x86_64");
  os = os;
  http = record { get = λ u. unreachable; post = λ u v. unreachable; gunzip = λ b. none };
  noir = noir;
  libraries = record { decode_base64 = λ t. none; parse_x509 = λ b. none; alpha3 = λ t. none };
  registry_json = record {
    read_manifest = λ b. none;
    read_circuit = λ b. some circuit;
    write_manifest = λ m. [];
    write_circuit = λ c. c.vkey;
    now = none;
    debug = λ o. [];
  };
  certificate_json = record {
    read_value = λ b. none;
    read_certificates = λ b. none;
    show_value = λ v. [];
  };
  config_json = record {
    read_matrix = λ t. none;
    read_bundle = λ t. none;
    read_document = λ t. none;
    read_request = λ t. none;
    read_outer = λ t. none;
  };
  cli_json = record {
    read_reference = λ t. none;
    read_outer_reference = λ t. none;
    read_snapshot = λ t. none;
    read_context = λ t. none;
    read_payload = λ t. none;
    write_value = λ v. codes "null";
    write_snapshot = λ v. [];
    write_certificates = λ c. [];
    write_inner_bundle = λ b. [];
    write_outer_result = λ r. [];
    show_error = λ e. [];
  };
}

abbrev pub store : ArtifactStore
store = local (codes "r")

abbrev pub jobs : List CircuitSolveJob
jobs = record { circuit_name = codes "outer"; inputs = null } ∷ []

abbrev pub recursive : RecursiveProof
recursive = record {
  circuit_name = [];
  proof = [];
  public_inputs = [];
  vkey = [];
  key_hash = [];
  tree_hash_path = [];
  tree_index = [];
}

abbrev pub reference : OuterReferenceFile
reference = record {
  version = codes "1";
  current_date = 1;
  outer_circuit_name = codes "outer";
  inner_bundle = record {
    version = codes "1";
    current_date = 1;
    dsc = recursive;
    id_data = recursive;
    integrity = recursive;
    disclosures = [];
    metadata = [];
  };
  outer_inputs = null;
}

abbrev pub fixture : FixtureBundle
fixture = record {
  document = record {
    dg1_base64 = codes "a";
    sod_der_base64 = codes "b";
    dg2_base64 = none;
    document_type = none;
  };
  request = record {
    circuit_version = codes "1";
    chain_id = 1;
    service_scope = codes "s";
    service_subscope = codes "t";
    current_date = 1;
    query = null;
    petition_id = none;
    aggregate_mode = none;
  };
  expected_inner = none;
  expected_outer = none;
  metadata = record { fixture_id = none; source = none; notes = none };
}

abbrev pub fixtures : Setting
fixtures = record setting {
  config_json = record {
    read_matrix = λ t. none;
    read_bundle = λ t. some fixture;
    read_document = λ t. none;
    read_request = λ t. none;
    read_outer = λ t. none;
  };
}

abbrev pub matrix : CompatibilityMatrix
matrix = record {
  status = [];
  source_of_truth_policy = [];
  registry = record {
    chain_id = 1;
    rpc_url = [];
    root_registry = [];
    certificate_base_url = [];
    manifest_base_url = [];
    artifact_base_url = [];
    circuit_version = codes "1";
    manifest_root = none;
  };
  proving = record {
    canonical_backend = [];
    preferred_fork = [];
    noir_version = [];
    bb_version = [];
    bb_binary_source = none;
    inner_oracle_hash = [];
    outer_evm_oracle_hash = [];
    outer_evm_ipa_accumulation = [];
  };
  mobile = record { target_mode = []; ffi_surface = [] };
  server = record { target_mode = []; integration_mode = [] };
  notes = [];
}

abbrev pub requests : Setting
requests = record setting {
  config_json = record {
    read_matrix = λ t. some matrix;
    read_bundle = λ t. none;
    read_document = λ t. none;
    read_request = λ t. none;
    read_outer = λ t. none;
  };
  cli_json = record {
    read_reference = λ t. none;
    read_outer_reference = λ t. some reference;
    read_snapshot = λ t. none;
    read_context = λ t. none;
    read_payload = λ t. none;
    write_value = λ v. codes "null";
    write_snapshot = λ v. [];
    write_certificates = λ c. [];
    write_inner_bundle = λ b. [];
    write_outer_result = λ r. r.vkey_hash;
    show_error = λ e. [];
  };
}
