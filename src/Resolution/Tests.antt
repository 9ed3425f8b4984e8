-- ===== src/Resolution/Tests.antt =====
-- Circuit names of sample contexts, and the theorems at them.
use vocdoni_passport_prover.Prelude.{[], ◌∷◌, ◌≡◌, refl, ok, ◌==◌}
use vocdoni_passport_prover.Prelude.Text.{
  codes, match_text, text_eq, show_nat, remove, to_ascii_lowercase, to_ascii_uppercase,
}
use vocdoni_passport_prover.Resolution.{
  sha256, sha384, normalize, hash_suffix, nist_p256, curve_suffix, ecdsa, rsa_pss, key_suffix,
  DocumentCircuitContext, ResolvedDocumentCircuits, ManifestCircuit, Manifest, spec_suffix,
  dsc_circuit_name, id_data_circuit_name, integrity_circuit_name, check_names,
  resolve_document_circuits,
}
use vocdoni_passport_prover.Resolution.Names.{
  Resolves, resolve_document_circuits-Resolves, resolve_document_circuits-injective,
}
use vocdoni_passport_prover.Resolution.Tokens.{normalize_spelling}

abbrev node : ManifestCircuit
node = record { hash = codes "0x1"; size = 1 }

abbrev sample_manifest : Manifest
sample_manifest = record {
  version = codes "0.18.0";
  root = codes "0xroot";
  circuits =
      (codes "data_check_integrity_sa_sha384_dg_sha256", node)
      ∷ (codes "outer_evm_count_4", node)
      ∷ (codes "sig_check_dsc_tbs_1000_ecdsa_nist_p256_sha256", node)
      ∷ (codes "sig_check_id_data_tbs_700_rsa_pss_2048_sha384", node)
      ∷ [];
}

abbrev sample_context : DocumentCircuitContext
sample_context = record {
  dsc = record { tbs_bucket = 1000; key = ecdsa nist_p256; hash = sha256 };
  id_data = record { tbs_bucket = 700; key = rsa_pss 2048; hash = sha384 };
  dg_hash = sha256;
  outer_circuit = codes "outer_evm_count_4";
}

abbrev sample_names : ResolvedDocumentCircuits
sample_names = record {
  dsc_name = codes "sig_check_dsc_tbs_1000_ecdsa_nist_p256_sha256";
  id_data_name = codes "sig_check_id_data_tbs_700_rsa_pss_2048_sha384";
  integrity_name = codes "data_check_integrity_sa_sha384_dg_sha256";
  outer_name = codes "outer_evm_count_4";
}

sample_resolved : resolve_document_circuits sample_manifest sample_context ≡ ok sample_names
unfolding resolve_document_circuits check_names dsc_circuit_name id_data_circuit_name
    integrity_circuit_name spec_suffix key_suffix curve_suffix hash_suffix show_nat match_text
    text_eq
sample_resolved = refl

resolve_document_circuits-injective_example : sample_context ≡ sample_context
resolve_document_circuits-injective_example =
    resolve_document_circuits-injective sample_manifest sample_manifest sample_context
      sample_context sample_names sample_resolved sample_resolved

resolve_document_circuits-Resolves_example :
    Resolves sample_manifest sample_context
      (resolve_document_circuits sample_manifest sample_context)
resolve_document_circuits-Resolves_example =
    resolve_document_circuits-Resolves sample_manifest sample_context

normalize_spelling_example :
    (normalize (to_ascii_uppercase (codes "Sha-384")) ≡ normalize (codes "Sha-384"))
    × (normalize (remove (λ c. c == b'-') (codes "Sha-384")) ≡ normalize (codes "Sha-384"))
    × (remove (λ c. c == b'-') (to_ascii_lowercase (codes "Sha-384")) ≡ hash_suffix sha384
        → normalize (codes "Sha-384") ≡ sha384)
normalize_spelling_example = normalize_spelling sha384 (codes "Sha-384")
