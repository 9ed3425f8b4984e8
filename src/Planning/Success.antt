-- ===== src/Planning/Success.antt =====
-- What `build_proof_plan` returns: when there is a plan, its size, its outer circuit.
use vocdoni_passport_prover.Prelude.{
  ◌+◌, ◌-◌, ◌≤◌, true, List, [], ◌∷◌, ◌++◌, length, length-append, ◌≡◌, subst, sym, ap, le→ltb, ◌≢◌,
  ◌↔◌, inl, inr, refl, arith, ok, >>=-eq-ok, Bool-cases,
}
use vocdoni_passport_prover.Prelude.Text.{Text, codes, show_nat}
use vocdoni_passport_prover.Json.{
  Value, null, object, bool, number, string, array, Fields, end, field,
}
use vocdoni_passport_prover.Types.{FixtureBundle, validate, IsValid, validate-eq-ok}
use vocdoni_passport_prover.Planning.{
  PlannedCircuit, ProofPlan, has_text, supported_query_keys, validate_supported_query_keys,
  normalize_query, default_query, disclosure_circuits, push_if, finish_plan, build_proof_plan,
  outer_name, unresolved, outer_of,
}

-- Every key of the object is one that the program supports.
abbrev pub AllSupported : Fields → Type 0
AllSupported end = Unit
AllSupported (field k v m) = (has_text supported_query_keys k ≡ true) × AllSupported m

-- The queries that the program takes, beside the query that it plans for.
pub data Normalizes : Value → Value → Type 0 where
  absent : Normalizes null default_query
  empty : Normalizes (object end) default_query
  given :
      {k : Text} {v : Value} {m : Fields}
      → AllSupported (field k v m)
      → Normalizes (object (field k v m)) (object (field k v m))

validate_supported_query_keys-eq-ok :
    (m : Fields) → (validate_supported_query_keys m ≡ ok tt) ↔ AllSupported m
unfolding validate_supported_query_keys
validate_supported_query_keys-eq-ok end = (λ _. tt, λ _. refl)
validate_supported_query_keys-eq-ok (field k v m) =
    let ih = validate_supported_query_keys-eq-ok m in
    elim (Bool-cases (has_text supported_query_keys k)) [
      | inl h ↦ (λ e. (h, ih.0 (rw h at e)), λ a. rw h (ih.1 a.1))
      | inr h ↦ (λ e. cc (rw h at e), λ a. cc (a.0, h))
    ]

normalize_query-eq-ok : (q r : Value) → normalize_query q ≡ ok r → Normalizes q r
unfolding normalize_query
normalize_query-eq-ok null r e = subst (λ x. Normalizes null x) (cc) absent
normalize_query-eq-ok (bool b) r e = cc
normalize_query-eq-ok (number n) r e = cc
normalize_query-eq-ok (string s) r e = cc
normalize_query-eq-ok (array a) r e = cc
normalize_query-eq-ok (object end) r e = subst (λ x. Normalizes (object end) x) (cc) empty
normalize_query-eq-ok (object (field k v m)) r e =
    let (u, valid, rest) = >>=-eq-ok (validate_supported_query_keys (field k v m)) _ e in
    subst (λ x. Normalizes (object (field k v m)) x) (cc rest)
      (given ((validate_supported_query_keys-eq-ok (field k v m)).0 valid))

normalize_query-Normalizes : {q r : Value} → Normalizes q r → normalize_query q ≡ ok r
unfolding normalize_query
normalize_query-Normalizes absent = refl
normalize_query-Normalizes empty = refl
normalize_query-Normalizes (given {k} {v} {m} a) =
    rw ((validate_supported_query_keys-eq-ok (field k v m)).1 a)

-- The six tests push six circuits at most.
length-disclosure_circuits : (q : Value) → length (disclosure_circuits q) ≤ 6
unfolding disclosure_circuits push_if
length-disclosure_circuits q = ground arith

-- The plan for a list of disclosure circuits that is not empty.
abbrev pub plan : FixtureBundle → Value → List PlannedCircuit → ProofPlan
plan b q cs = record {
  circuit_version = b.request.circuit_version;
  normalized_query = q;
  disclosure_count = length (cs ++ outer_of (length cs) ∷ []) - 1;
  outer_circuit = outer_name (length cs);
  resolved_circuits = cs ++ outer_of (length cs) ∷ [];
  unresolved_requirements = unresolved;
}

finish_plan_lem :
    (b : FixtureBundle) (q : Value) (cs : List PlannedCircuit)
    → cs ≢ []
    → length cs ≤ 6
    → finish_plan b q cs ≡ ok (plan b q cs)
unfolding finish_plan
finish_plan_lem b q [] h l = absurd (h refl)
finish_plan_lem b q (c ∷ cs) h l = rw (le→ltb 10 (length (c ∷ cs)) (omega arith))

finish_plan-eq-ok :
    (b : FixtureBundle) (q : Value) (cs : List PlannedCircuit) (p : ProofPlan)
    → length cs ≤ 6
    → finish_plan b q cs ≡ ok p
    → (cs ≢ []) × (p ≡ plan b q cs)
unfolding finish_plan
finish_plan-eq-ok b q [] p l e = cc
finish_plan-eq-ok b q (c ∷ cs) p l e =
    let made = finish_plan_lem b q (c ∷ cs) (cc) l in (cc, cc (made, e))

-- The shape of a plan for one to six disclosures.
abbrev PlanBounds : FixtureBundle → ProofPlan → Type 0
PlanBounds b p =
    (1 ≤ p.disclosure_count)
    × (p.disclosure_count ≤ 6)
    × (p.outer_circuit ≡ codes "outer_evm_count_" ++ show_nat (3 + p.disclosure_count))
    × (length p.resolved_circuits ≡ p.disclosure_count + 1)
    × (p.circuit_version ≡ b.request.circuit_version)

plan-PlanBounds :
    (b : FixtureBundle) (q : Value) (cs : List PlannedCircuit)
    → cs ≢ []
    → length cs ≤ 6
    → PlanBounds b (plan b q cs)
plan-PlanBounds b q [] h l = absurd (h refl)
plan-PlanBounds b q (c ∷ cs) h l =
    let more : length ((c ∷ cs) ++ outer_of (length (c ∷ cs)) ∷ []) ≡ length (c ∷ cs) + 1 =
      length-append (c ∷ cs) (outer_of (length (c ∷ cs)) ∷ []) in
    let count : length ((c ∷ cs) ++ outer_of (length (c ∷ cs)) ∷ []) - 1 ≡ length (c ∷ cs) =
      omega arith in
    (omega arith, omega arith, rw count, omega arith, refl)

pub build_proof_plan_lem :
    (b : FixtureBundle) {q : Value}
    → IsValid b
    → Normalizes b.request.query q
    → disclosure_circuits q ≢ []
    → build_proof_plan b ≡ ok (plan b q (disclosure_circuits q))
unfolding build_proof_plan
build_proof_plan_lem b {q} v n h =
    rw ((validate-eq-ok b).1 v, normalize_query-Normalizes n)
      (finish_plan_lem b q (disclosure_circuits q) h (length-disclosure_circuits q))

-- What a plan tells: the bundle is valid, the query is one that the program takes, and the plan is
-- the one for that query.
pub build_proof_plan-eq-ok :
    (b : FixtureBundle) (p : ProofPlan)
    → build_proof_plan b ≡ ok p
    → IsValid b
      × Normalizes b.request.query p.normalized_query
      × (disclosure_circuits p.normalized_query ≢ [])
      × (p ≡ plan b p.normalized_query (disclosure_circuits p.normalized_query))
unfolding build_proof_plan
build_proof_plan-eq-ok b p e =
    let (u, valid, e1) = >>=-eq-ok (validate b) _ e in
    let (q, norm, e2) = >>=-eq-ok (normalize_query b.request.query) _ e1 in
    let (some_circuit, same) =
      finish_plan-eq-ok b q (disclosure_circuits q) p (length-disclosure_circuits q) e2 in
    let at : q ≡ p.normalized_query = ap (λ (x : ProofPlan). x.normalized_query) (sym same) in
    let v : validate b ≡ ok tt = valid in
    (
      (validate-eq-ok b).0 v,
      subst (λ x. Normalizes b.request.query x) at (normalize_query-eq-ok _ q norm),
      subst (λ x. disclosure_circuits x ≢ []) at some_circuit,
      subst (λ x. p ≡ plan b x (disclosure_circuits x)) at same,
    )

-- A plan has one to six disclosure circuits, so the limit of ten is never met, and its outer
-- circuit is the one that aggregates three more proofs than there are disclosures. The list of
-- circuits has just one more entry, and the plan is for the request's circuit version.
pub build_proof_plan_bounds :
    (b : FixtureBundle) (p : ProofPlan)
    → build_proof_plan b ≡ ok p
    → (1 ≤ p.disclosure_count)
      × (p.disclosure_count ≤ 6)
      × (p.outer_circuit ≡ codes "outer_evm_count_" ++ show_nat (3 + p.disclosure_count))
      × (length p.resolved_circuits ≡ p.disclosure_count + 1)
      × (p.circuit_version ≡ b.request.circuit_version)
build_proof_plan_bounds b p e =
    let (v, n, h, same) = build_proof_plan-eq-ok b p e in
    subst (λ x. PlanBounds b x) (sym same)
      (plan-PlanBounds b p.normalized_query (disclosure_circuits p.normalized_query) h
        (length-disclosure_circuits p.normalized_query))
