-- ===== src/Pipeline/Steps.antt =====
-- What the steps of the pipeline come to, by the modules that they call.
use vocdoni_passport_prover.Prelude.{
  ◌≡◌, ◌↔◌, refl, sym, ap, subst, Bool, Outcome, ok, err, panic, unfinished,
}
use vocdoni_passport_prover.Types.{FixtureBundle, IsValid, validate-eq-ok}
use vocdoni_passport_prover.Planning.{ProofPlan, build_proof_plan}
use vocdoni_passport_prover.Planning.Success.{build_proof_plan-eq-ok}
use vocdoni_passport_prover.Resolution.{Manifest, resolve_document_circuits}
use vocdoni_passport_prover.Analysis.{Libraries, DocumentAnalysis, analyze_document}
use vocdoni_passport_prover.Certificates.{PackagedCertificate, derive_document_circuit_context}
use vocdoni_passport_prover.Pipeline.{
  Step, done, failed, panicked, running, and_then, lift, ResolvedProofPlan, validate_fixture,
  plan_fixture, analyze_fixture, resolve_proof_plan,
}

and_then-eq-done {ℓ κ} :
    {A : Type ℓ} {B : Type κ} (s : Step A) (next : A → Step B) {b : B}
    → and_then s next ≡ done b
    → (a : A) × (s ≡ done a) × (next a ≡ done b)
and_then-eq-done (done a) next h = (a, refl, h)
and_then-eq-done (failed e) next h = cc
and_then-eq-done panicked next h = cc
and_then-eq-done running next h = cc

lift-eq-done {ℓ} : {A : Type ℓ} (o : Outcome A) {a : A} → (lift o ≡ done a) ↔ (o ≡ ok a)
lift-eq-done (ok x) = (λ h. cc, λ h. cc)
lift-eq-done (err e) = (λ h. cc, λ h. cc)
lift-eq-done panic = (λ h. cc, λ h. cc)
lift-eq-done unfinished = (λ h. cc, λ h. cc)

validate_fixture-done : (f : FixtureBundle) → IsValid f → validate_fixture f ≡ done tt
unfolding validate_fixture
validate_fixture-done f v = rw ((validate-eq-ok f).1 v)

plan_fixture-eq-done :
    (f : FixtureBundle) (p : ProofPlan) → (plan_fixture f ≡ done p) ↔ (build_proof_plan f ≡ ok p)
unfolding plan_fixture
plan_fixture-eq-done f p = (
  λ h.
      let (_, _, k) = and_then-eq-done (validate_fixture f) _ h in
      (lift-eq-done (build_proof_plan f)).0 k,
  λ h. let (v, _, _, _) = build_proof_plan-eq-ok f p h in rw (validate_fixture-done f v, h),
)

module _ (checks : Bool) (libs : Libraries) where
  analyze_fixture-eq-done :
      (f : FixtureBundle) (a : DocumentAnalysis)
      → IsValid f
      → (analyze_fixture checks libs f ≡ done a) ↔ (analyze_document checks libs f.document ≡ ok a)
  unfolding analyze_fixture
  analyze_fixture-eq-done f a v = (
    λ h.
        (lift-eq-done (analyze_document checks libs f.document)).0
          (rw (validate_fixture-done f v) at h),
    λ h. rw (validate_fixture-done f v, h),
  )

  -- What the four components say about a fixture, each on its own.
  pub record Agrees (f : FixtureBundle) (m : Manifest) (csca : PackagedCertificate)
      (r : ResolvedProofPlan) : Type 0 where
    pub planned : build_proof_plan f ≡ ok r.proof_plan
    pub analyzed : analyze_document checks libs f.document ≡ ok r.analysis
    pub same_csca : r.csca ≡ csca
    pub derived :
        derive_document_circuit_context r.analysis csca r.proof_plan.outer_circuit
        ≡ ok r.document_context
    pub resolved : resolve_document_circuits m r.document_context ≡ ok r.circuits

  resolve_proof_plan-Agrees :
      (f : FixtureBundle) (m : Manifest) (csca : PackagedCertificate) (r : ResolvedProofPlan)
      → resolve_proof_plan checks libs f m csca ≡ done r
      → Agrees f m csca r
  unfolding resolve_proof_plan
  resolve_proof_plan-Agrees f m csca r h =
      let (p, h1, k1) = and_then-eq-done (plan_fixture f) _ h in
      let (a, h2, k2) = and_then-eq-done (analyze_fixture checks libs f) _ k1 in
      let (c, h3, k3) =
        and_then-eq-done (lift (derive_document_circuit_context a csca p.outer_circuit)) _ k2 in
      let (n, h4, k4) = and_then-eq-done (lift (resolve_document_circuits m c)) _ k3 in
      let built : build_proof_plan f ≡ ok p = (plan_fixture-eq-done f p).0 h1 in
      let (v, _, _, _) = build_proof_plan-eq-ok f p built in
      let same : record {
        proof_plan = p;
        analysis = a;
        csca = csca;
        document_context = c;
        circuits = n;
      }
          ≡ r =
        cc k4 in
      subst (λ r. Agrees f m csca r) same
        (record {
          planned = built;
          analyzed = (analyze_fixture-eq-done f a v).0 h2;
          same_csca = refl;
          derived = (lift-eq-done _).0 h3;
          resolved = (lift-eq-done _).0 h4;
        })

  Agrees-resolve_proof_plan :
      (f : FixtureBundle) (m : Manifest) (csca : PackagedCertificate) (r : ResolvedProofPlan)
      → Agrees f m csca r
      → resolve_proof_plan checks libs f m csca ≡ done r
  unfolding resolve_proof_plan
  Agrees-resolve_proof_plan f m csca r g =
      let (v, _, _, _) = build_proof_plan-eq-ok f r.proof_plan g.planned in
      rw
        (
          (plan_fixture-eq-done f r.proof_plan).1 g.planned,
          (analyze_fixture-eq-done f r.analysis v).1 g.analyzed,
          g.derived,
          g.resolved,
        )
        (ap (λ c. done (record r { csca = c })) (sym g.same_csca))

  pub resolve_proof_plan_iff :
      (f : FixtureBundle) (m : Manifest) (csca : PackagedCertificate) (r : ResolvedProofPlan)
      → (resolve_proof_plan checks libs f m csca ≡ done r) ↔ Agrees f m csca r
  resolve_proof_plan_iff f m csca r =
      (resolve_proof_plan-Agrees f m csca r, Agrees-resolve_proof_plan f m csca r)
