-- ===== src/Config.antt =====
-- crates/prover-core/src/config.rs and crates/prover-core/src/fixture.rs: the compatibility
-- matrix and the fixtures, read from files; and the clients that the matrix configures.
pub mod Laws
use vocdoni_passport_prover.Prelude.{
  ℕ, Option, none, some, List, [], ◌∷◌, Error, message, detail, if◌then◌else◌,
}
use vocdoni_passport_prover.Prelude.Text.{Text, codes}
use vocdoni_passport_prover.Web.{Http, expect}
use vocdoni_passport_prover.Types.{
  DocumentInput, ProofRequest, FixtureBundle, OuterProofResult, validate,
}
use vocdoni_passport_prover.Registry.{RegistryClient}
use vocdoni_passport_prover.Certificates.{CertificateRegistryClient}
use vocdoni_passport_prover.Io.{
  Action, ◌>>=◌, ◌>>◌, return, lift, within_io, exists, read_to_string,
}

pub record RegistryConfig : Type 0 where
  pub chain_id : ℕ
  pub rpc_url : Text
  pub root_registry : Text
  pub certificate_base_url : Text
  pub manifest_base_url : Text
  pub artifact_base_url : Text
  pub circuit_version : Text
  pub manifest_root : Option Text

pub record ProvingConfig : Type 0 where
  pub canonical_backend : Text
  pub preferred_fork : Text
  pub noir_version : Text
  pub bb_version : Text
  pub bb_binary_source : Option Text
  pub inner_oracle_hash : Text
  pub outer_evm_oracle_hash : Text
  pub outer_evm_ipa_accumulation : Text

pub record MobileConfig : Type 0 where
  pub target_mode : Text
  pub ffi_surface : List Text

pub record ServerConfig : Type 0 where
  pub target_mode : Text
  pub integration_mode : Text

pub record CompatibilityMatrix : Type 0 where
  pub status : Text
  pub source_of_truth_policy : Text
  pub registry : RegistryConfig
  pub proving : ProvingConfig
  pub mobile : MobileConfig
  pub server : ServerConfig
  pub notes : List Text

-- `serde_json::from_str` at the types that are read here.
pub record ConfigJson : Type 0 where
  pub read_matrix : Text → Option CompatibilityMatrix
  pub read_bundle : Text → Option FixtureBundle
  pub read_document : Text → Option DocumentInput
  pub read_request : Text → Option ProofRequest
  pub read_outer : Text → Option OuterProofResult

-- `read_to_string`, `from_str` and their two contexts.
unfoldable pub load_json : {A : Type 0} → (Text → Option A) → Error → Error → Text → Action A
load_json read at_read at_parse path = do
  raw ← read_to_string path at_read
  lift (expect (read raw) at_parse)

-- The fixture of a directory.
abbrev pub bundle_of : DocumentInput → ProofRequest → Option OuterProofResult → FixtureBundle
bundle_of document request expected_outer = record {
  document = document;
  request = request;
  expected_inner = none;
  expected_outer = expected_outer;
  metadata = record { fixture_id = none; source = none; notes = none };
}

module _ (json : ConfigJson) where
  unfoldable pub load_compatibility_matrix : Text → Action CompatibilityMatrix
  load_compatibility_matrix path =
      load_json json.read_matrix (detail "failed to read compatibility matrix: {}" (path ∷ []))
        (detail "failed to parse compatibility matrix: {}" (path ∷ [])) path

  unfoldable pub load_fixture_bundle : Text → Action FixtureBundle
  load_fixture_bundle path = do
    bundle ←
        load_json json.read_bundle (detail "failed to read fixture bundle: {}" (path ∷ []))
          (detail "failed to parse fixture bundle: {}" (path ∷ [])) path
    within_io (message "fixture bundle validation failed") (lift (validate bundle))
    return bundle

  abbrev pub part : {A : Type 0} → (Text → Option A) → Text → Action A
  part read path =
      load_json read (detail "failed to read {}" (path ∷ []))
        (detail "failed to parse {}" (path ∷ [])) path

  unfoldable pub load_expected_outer : Text → Action (Option OuterProofResult)
  load_expected_outer path = do
    there ← exists path
    if there then (do result ← part json.read_outer path; return (some result)) else return none

  unfoldable pub load_fixture_dir : (Text → Text → Text) → Text → Action FixtureBundle
  load_fixture_dir join dir = do
    document ← part json.read_document (join dir (codes "document.json"))
    request ← part json.read_request (join dir (codes "request.json"))
    expected_outer ← load_expected_outer (join dir (codes "expected_outer.json"))
    within_io (message "fixture directory validation failed")
        (lift (validate (bundle_of document request expected_outer)))
    return (bundle_of document request expected_outer)

-- `RegistryClient::from_matrix`.
unfoldable pub registry_from_matrix : Http → CompatibilityMatrix → RegistryClient
registry_from_matrix http matrix = record {
  http = http;
  manifest_base_url = matrix.registry.manifest_base_url;
  artifact_base_url = matrix.registry.artifact_base_url;
}

-- `CertificateRegistryClient::from_matrix`.
unfoldable pub certificates_from_matrix : Http → CompatibilityMatrix → CertificateRegistryClient
certificates_from_matrix http matrix = record {
  http = http;
  rpc_url = matrix.registry.rpc_url;
  root_registry = matrix.registry.root_registry;
  certificate_base_url = matrix.registry.certificate_base_url;
}
