-- ===== src/Pipeline.antt =====
-- crates/prover-core/src/pipeline.rs: the steps from a fixture to the circuits it needs. The
-- pipeline keeps no state.
pub mod Steps
pub mod Resolved
pub mod Summary
mod Tests
use vocdoni_passport_prover.Prelude.{
  ℕ, Bool, Option, List, [], ◌∷◌, Error, message, Outcome, ok, err, panic, unfinished, ◌>>=◌, ◌>>◌,
  String, if◌then◌else◌,
}
use vocdoni_passport_prover.Types.{FixtureBundle, validate, InnerProofBundle, OuterProofResult}
use vocdoni_passport_prover.Planning.{ProofPlan, build_proof_plan}
use vocdoni_passport_prover.Resolution.{
  Manifest, DocumentCircuitContext, ResolvedDocumentCircuits, resolve_document_circuits,
}
use vocdoni_passport_prover.Analysis.{Libraries, DocumentAnalysis, analyze_document}
use vocdoni_passport_prover.Certificates.{PackagedCertificate, derive_document_circuit_context}

-- `PipelineError`; the text of an invalid fixture is that of the error within.
pub data PipelineError : Type 0 where
  invalid_fixture : Error → PipelineError
  not_implemented : String → PipelineError

-- What a step of the pipeline ends in.
pub data Step {ℓ} (A : Type ℓ) : Type ℓ where
  done : A → Step A
  failed : PipelineError → Step A
  panicked : Step A
  running : Step A

abbrev pub and_then {ℓ κ} : {A : Type ℓ} {B : Type κ} → Step A → (A → Step B) → Step B
and_then (done a) next = next a
and_then (failed e) next = failed e
and_then panicked next = panicked
and_then running next = running

-- `map_err(|error| PipelineError::InvalidFixture(error.to_string()))`.
abbrev pub lift {ℓ} : {A : Type ℓ} → Outcome A → Step A
lift (ok a) = done a
lift (err e) = failed (invalid_fixture e)
lift panic = panicked
lift unfinished = running

pub record ResolvedProofPlan : Type 0 where
  pub proof_plan : ProofPlan
  pub analysis : DocumentAnalysis
  pub csca : PackagedCertificate
  pub document_context : DocumentCircuitContext
  pub circuits : ResolvedDocumentCircuits

unfoldable pub validate_fixture : FixtureBundle → Step (Unit {0})
validate_fixture fixture = lift (validate fixture)

unfoldable pub plan_fixture : FixtureBundle → Step ProofPlan
plan_fixture fixture = and_then (validate_fixture fixture) (λ _. lift (build_proof_plan fixture))

module _ (checks : Bool) (libs : Libraries) where
  unfoldable pub analyze_fixture : FixtureBundle → Step DocumentAnalysis
  analyze_fixture fixture =
      and_then (validate_fixture fixture)
        (λ _. lift (analyze_document checks libs fixture.document))

  unfoldable pub resolve_proof_plan :
      FixtureBundle → Manifest → PackagedCertificate → Step ResolvedProofPlan
  resolve_proof_plan fixture manifest csca = and_then (plan_fixture fixture) (λ plan.
      and_then (analyze_fixture fixture) (λ analysis.
        and_then (lift (derive_document_circuit_context analysis csca plan.outer_circuit))
          (λ context. and_then (lift (resolve_document_circuits manifest context)) (λ circuits.
            done (record {
              proof_plan = plan;
              analysis = analysis;
              csca = csca;
              document_context = context;
              circuits = circuits;
            })))))

-- The message of `prove_inner`.
unfoldable pub blocked_message : List (List ℕ) → String
blocked_message [] = "inner proof generation is not wired yet"
blocked_message (r ∷ rs) =
    "inner proof generation is blocked until document-derived circuit resolution is implemented"

unfoldable pub prove_inner : FixtureBundle → Step InnerProofBundle
prove_inner fixture =
    and_then (plan_fixture fixture)
      (λ plan. failed (not_implemented (blocked_message plan.unresolved_requirements)))

unfoldable pub prove_outer : FixtureBundle → Step OuterProofResult
prove_outer fixture = and_then (plan_fixture fixture) (λ plan. failed (
    not_implemented
      "outer proof generation will be implemented after the canonical backend is wrapped in Rust"))
