-- ===== src/Pipeline/Tests.antt =====
-- A sample fixture that goes through the pipeline, and the theorems at it.
use vocdoni_passport_prover.Prelude.{[], ◌∷◌, none, some}
use vocdoni_passport_prover.Prelude.Text.{codes}
use vocdoni_passport_prover.Json.{null}
use vocdoni_passport_prover.Types.{FixtureBundle}
use vocdoni_passport_prover.Planning.{disclose_circuit, default_query}
use vocdoni_passport_prover.Planning.Success.{plan}
use vocdoni_passport_prover.Resolution.{
  sha256, rsa_pkcs, ecdsa, nist_p256, Manifest, DocumentCircuitContext,
}
use vocdoni_passport_prover.Certificates.{PackagedCertificate, ec}
use vocdoni_passport_prover.Pipeline.{ResolvedProofPlan}
use vocdoni_passport_prover.Analysis.Example.{analysis, document}
use vocdoni_passport_prover.Resolution.{ManifestCircuit}
use vocdoni_passport_prover.Pipeline.Resolved.{Resolved}

abbrev fixture : FixtureBundle
fixture = record {
  document = document;
  request = record {
    circuit_version = codes "0.18.0";
    chain_id = 1;
    service_scope = codes "vocdoni-passport";
    service_subscope = codes "petition";
    current_date = 1;
    query = null;
    petition_id = none;
    aggregate_mode = none;
  };
  expected_inner = none;
  expected_outer = none;
  metadata = record { fixture_id = none; source = none; notes = none };
}

abbrev elliptic : PackagedCertificate
elliptic = record {
  country = codes "zkr";
  signature_algorithm = codes "ECDSA";
  hash_algorithm = [];
  public_key = ec (codes "P-256") 256 [] [];
  validity = record { not_before = 0; not_after = 9 };
  private_key_usage_period = none;
  subject_key_identifier = some (codes "ab");
  authority_key_identifier = none;
  fingerprint = none;
  tags = [];
  type = none;
}

abbrev node : ManifestCircuit
node = record { hash = []; size = 0 }

abbrev manifest : Manifest
manifest = record {
  version = codes "0.18.0";
  root = codes "0xroot";
  circuits =
      (codes "outer_evm_count_4", node)
      ∷ (codes "sig_check_dsc_tbs_1000_ecdsa_nist_p256_sha256", node)
      ∷ (codes "sig_check_id_data_tbs_1000_rsa_pkcs_16_sha256", node)
      ∷ (codes "data_check_integrity_sa_sha256_dg_sha256", node)
      ∷ [];
}

abbrev context : DocumentCircuitContext
context = record {
  dsc = record { tbs_bucket = 1000; key = ecdsa nist_p256; hash = sha256 };
  id_data = record { tbs_bucket = 1000; key = rsa_pkcs 16; hash = sha256 };
  dg_hash = sha256;
  outer_circuit = codes "outer_evm_count_4";
}

abbrev resolved : ResolvedProofPlan
resolved = record {
  proof_plan = plan fixture default_query (disclose_circuit ∷ []);
  analysis = analysis;
  csca = elliptic;
  document_context = context;
  circuits = record {
    dsc_name = codes "sig_check_dsc_tbs_1000_ecdsa_nist_p256_sha256";
    id_data_name = codes "sig_check_id_data_tbs_1000_rsa_pkcs_16_sha256";
    integrity_name = codes "data_check_integrity_sa_sha256_dg_sha256";
    outer_name = codes "outer_evm_count_4";
  };
}
