-- ===== src/Pipeline/Resolved.antt =====
-- What `resolve_proof_plan` of crates/prover-core/src/pipeline.rs has found out when it returns.
use vocdoni_passport_prover.Prelude.{List, [], ◌∷◌, ℕ, ◌+◌, ◌≤◌, ◌++◌, ◌≡◌, Bool, All, ok}
use vocdoni_passport_prover.Prelude.Text.{codes, show_nat}
use vocdoni_passport_prover.Types.{FixtureBundle, IsValid}
use vocdoni_passport_prover.Planning.Success.{Normalizes}
use vocdoni_passport_prover.Resolution.{Manifest, DocumentCircuitContext, ResolvedDocumentCircuits}
use vocdoni_passport_prover.Resolution.Names.{InManifest, resolved_of}
use vocdoni_passport_prover.Analysis.{Libraries, DocumentAnalysis, bucket_tbs_len}
use vocdoni_passport_prover.Certificates.{PackagedCertificate, key_of}
use vocdoni_passport_prover.Pipeline.{ResolvedProofPlan}

-- The context that the names are made from.
pub record ContextOf (a : DocumentAnalysis) (csca : PackagedCertificate)
    (c : DocumentCircuitContext) : Type 0 where
  pub dsc_key : key_of csca ≡ ok c.dsc.key
  pub dsc_bucket : c.dsc.tbs_bucket ≡ bucket_tbs_len a.tbs_len
  pub dsc_hash : c.dsc.hash ≡ a.dsc_signature_hash
  pub id_data_key : c.id_data.key ≡ a.id_data_public_key
  pub id_data_bucket : c.id_data.tbs_bucket ≡ bucket_tbs_len a.tbs_len
  pub id_data_hash : c.id_data.hash ≡ a.sod_signature_hash
  pub data_group_hash : c.dg_hash ≡ a.dg_hash

-- The four names.
abbrev pub circuit_names : ResolvedDocumentCircuits → List (List ℕ)
circuit_names n = n.dsc_name ∷ n.id_data_name ∷ n.integrity_name ∷ n.outer_name ∷ []

module _ (checks : Bool) (libs : Libraries) where
  pub record Resolved (f : FixtureBundle) (m : Manifest) (csca : PackagedCertificate)
      (r : ResolvedProofPlan) : Type 0 where
    pub valid : IsValid f
    pub query : Normalizes f.request.query r.proof_plan.normalized_query
    pub at_least : 1 ≤ r.proof_plan.disclosure_count
    pub at_most : r.proof_plan.disclosure_count ≤ 6
    pub context : ContextOf r.analysis csca r.document_context
    pub names : r.circuits ≡ resolved_of r.document_context
    pub outer_name :
        r.circuits.outer_name
        ≡ codes "outer_evm_count_" ++ show_nat (3 + r.proof_plan.disclosure_count)
    pub listed : All (InManifest m) (circuit_names r.circuits)
