-- ===== src/Planning/Tests.antt =====
-- Plans for sample bundles, and the theorems at them.
use vocdoni_passport_prover.Prelude.{
  ◌+◌, ◌≤◌, true, none, some, List, [], ◌∷◌, ◌++◌, ◌≡◌, ◌↔◌, inl, refl, arith, length, ok, err,
  detail,
}
use vocdoni_passport_prover.Prelude.Text.{codes, trim, is_empty, text_eq, show_nat}
use vocdoni_passport_prover.Json.{
  Value, null, bool, number, object, Fields, end, field, get, contains_key, as_object, as_bool,
}
use vocdoni_passport_prover.Types.{FixtureBundle, validate, IsValid}
use vocdoni_passport_prover.Planning.{
  PlannedCircuit, ProofPlan, has_text, validate_supported_query_keys, normalize_query, discloses,
  any_discloses, has_disclose_bytes_requirement, section_of, contains_any, has_age_requirement,
  has_nested_key, push_if, disclosure_circuits, build_proof_plan, disclose_circuit, age_circuit,
  outer_of,
}
use vocdoni_passport_prover.Planning.Success.{Normalizes, given, plan, build_proof_plan_bounds}
use vocdoni_passport_prover.Planning.Query.{Asks, age}
use vocdoni_passport_prover.Planning.Circuits.{
  Member, Thins, all_circuits, build_proof_plan-circuits, build_proof_plan-Asks,
}

abbrev age_section : Fields
age_section = field (codes "gte") (number (codes "18")) end

abbrev name_section : Fields
name_section = field (codes "disclose") (bool true) end

abbrev sample_fields : Fields
sample_fields =
    field (codes "age") (object age_section) (field (codes "firstname") (object name_section) end)

abbrev sample_query : Value
sample_query = object sample_fields

abbrev bundle_for : Value → FixtureBundle
bundle_for q = record {
  document = record {
    dg1_base64 = codes "ZGc=";
    sod_der_base64 = codes "c29k";
    dg2_base64 = none;
    document_type = some (codes "passport");
  };
  request = record {
    circuit_version = codes "0.18.0";
    chain_id = 11155111;
    service_scope = codes "vocdoni-passport";
    service_subscope = codes "petition";
    current_date = 1;
    query = q;
    petition_id = none;
    aggregate_mode = none;
  };
  expected_inner = none;
  expected_outer = none;
  metadata = record { fixture_id = none; source = none; notes = none };
}

abbrev sample_bundle : FixtureBundle
sample_bundle = bundle_for sample_query

abbrev sample_plan : ProofPlan
sample_plan = plan sample_bundle sample_query (disclose_circuit ∷ age_circuit ∷ [])

sample_built : build_proof_plan sample_bundle ≡ ok sample_plan
unfolding build_proof_plan validate trim is_empty normalize_query validate_supported_query_keys
    has_text text_eq disclosure_circuits has_disclose_bytes_requirement any_discloses discloses
    has_age_requirement section_of has_nested_key contains_any contains_key get as_object as_bool
    push_if show_nat
sample_built = refl

unsupported_key :
    build_proof_plan (bundle_for (object (field (codes "facematch") null end)))
    ≡ err (detail "unsupported request query key: {key}" (codes "facematch" ∷ []))
unfolding build_proof_plan validate trim is_empty normalize_query validate_supported_query_keys
    has_text text_eq
unsupported_key = refl

build_proof_plan_bounds_example :
    (1 ≤ sample_plan.disclosure_count)
    × (sample_plan.disclosure_count ≤ 6)
    × (sample_plan.outer_circuit
        ≡ codes "outer_evm_count_" ++ show_nat (3 + sample_plan.disclosure_count))
    × (length sample_plan.resolved_circuits ≡ sample_plan.disclosure_count + 1)
    × (sample_plan.circuit_version ≡ codes "0.18.0")
build_proof_plan_bounds_example = build_proof_plan_bounds sample_bundle sample_plan sample_built

build_proof_plan-circuits_example :
    (cs : List PlannedCircuit) × (sample_plan.resolved_circuits ≡ cs ++ outer_of (length cs) ∷ [])
    × Thins cs all_circuits
    × ((c : PlannedCircuit) → Member c cs ↔ Asks sample_query c)
build_proof_plan-circuits_example = build_proof_plan-circuits sample_bundle sample_plan sample_built

sample_Normalizes : Normalizes sample_query sample_query
unfolding has_text text_eq
sample_Normalizes = given (refl, (refl, tt))

sample_IsValid : IsValid sample_bundle
unfolding trim is_empty
sample_IsValid = record {
  dg1 = refl;
  sod = refl;
  version = refl;
  scope = refl;
  subscope = refl;
  date = omega arith;
}

sample_age : get (codes "age") sample_fields ≡ some (object age_section)
unfolding get text_eq
sample_age = refl

build_proof_plan-Asks_example :
    (p : ProofPlan) × (build_proof_plan sample_bundle ≡ ok p) × (p.normalized_query ≡ sample_query)
build_proof_plan-Asks_example =
    build_proof_plan-Asks sample_bundle sample_query age_circuit sample_IsValid sample_Normalizes
      (age sample_fields age_section refl sample_age (inl (inl refl)))
