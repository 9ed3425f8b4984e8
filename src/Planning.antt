-- ===== src/Planning.antt =====
-- crates/prover-core/src/planning.rs: from a request's query to the circuits that are to be proved.
-- The operations stand here; what is proved of them stands in the modules below.
pub mod Success
pub mod Query
pub mod Circuits
mod Tests
use vocdoni_passport_prover.Prelude.{
  ℕ, ◌+◌, ◌-◌, Bool, true, false, ◌||◌, not, Option, none, some, List, [], ◌∷◌, ◌++◌, map, length,
  ltb, if◌then◌else◌, message, detail, Outcome, ok, err, ◌>>=◌, ◌>>◌,
}
use vocdoni_passport_prover.Prelude.Text.{Text, codes, text_eq, show_nat}
use vocdoni_passport_prover.Json.{
  Value, null, object, Fields, end, field, bool, get, contains_key, as_object, as_bool,
}
use vocdoni_passport_prover.Types.{FixtureBundle, validate}

abbrev pub default_query_field : Text
default_query_field = codes "nationality"

abbrev pub max_disclosure_proofs : ℕ
max_disclosure_proofs = 10

abbrev pub supported_query_keys : List Text
supported_query_keys =
    codes "age"
    ∷ codes "nationality"
    ∷ codes "issuing_country"
    ∷ codes "firstname"
    ∷ codes "lastname"
    ∷ codes "fullname"
    ∷ codes "birthdate"
    ∷ codes "expiry_date"
    ∷ codes "document_number"
    ∷ codes "document_type"
    ∷ codes "gender"
    ∷ []

pub record PlannedCircuit : Type 0 where
  pub name : Text
  pub purpose : Text

pub record ProofPlan : Type 0 where
  pub circuit_version : Text
  pub normalized_query : Value
  pub disclosure_count : ℕ
  pub outer_circuit : Text
  pub resolved_circuits : List PlannedCircuit
  pub unresolved_requirements : List Text

unfoldable pub required_circuit_names : ProofPlan → List Text
required_circuit_names p = map (λ c. c.name) p.resolved_circuits

-- `slice::contains`.
unfoldable pub has_text : List Text → Text → Bool
has_text [] k = false
has_text (x ∷ xs) k = text_eq x k || has_text xs k

unfoldable pub validate_supported_query_keys : Fields → Outcome (Unit {0})
validate_supported_query_keys end = ok tt
validate_supported_query_keys (field k v m) =
    if not (has_text supported_query_keys k)
    then err (detail "unsupported request query key: {key}" (k ∷ []))
    else validate_supported_query_keys m

abbrev pub default_query : Value
default_query =
    object (field default_query_field (object (field (codes "disclose") (bool true) end)) end)

unfoldable pub normalize_query : Value → Outcome Value
normalize_query null = ok default_query
normalize_query (object end) = ok default_query
normalize_query (object (field k v m)) = do
  validate_supported_query_keys (field k v m)
  ok (object (field k v m))
normalize_query _ = err (message "query must be a JSON object")

-- `cfg.get("disclose").and_then(Value::as_bool).unwrap_or(false)`.
unfoldable pub disclose_flag : Fields → Bool
disclose_flag cfg = elim (get (codes "disclose") cfg) [
  | none ↦ false
  | some v ↦ elim (as_bool v) [ none ↦ false | some b ↦ b ]
]

-- The closure of `has_disclose_bytes_requirement` on one configuration.
unfoldable pub discloses : Value → Bool
unfolding disclose_flag
discloses v = elim (as_object v) [
  | none ↦ false
  | some cfg ↦ disclose_flag cfg || contains_key (codes "eq") cfg
]

unfoldable pub any_discloses : Fields → Bool
any_discloses end = false
any_discloses (field k v m) = discloses v || any_discloses m

unfoldable pub has_disclose_bytes_requirement : Value → Bool
has_disclose_bytes_requirement q = elim (as_object q) [ none ↦ false | some m ↦ any_discloses m ]

-- `as_object().and_then(|fields| fields.get(field)).and_then(Value::as_object)`.
unfoldable pub section_of : Value → Text → Option Fields
section_of q f = elim (as_object q) [
  | none ↦ none
  | some m ↦ elim (get f m) [ none ↦ none | some v ↦ as_object v ]
]

abbrev pub age_keys : List Text
age_keys =
    codes "gte"
    ∷ codes "gt"
    ∷ codes "lte"
    ∷ codes "lt"
    ∷ codes "range"
    ∷ codes "eq"
    ∷ codes "disclose"
    ∷ []

unfoldable pub contains_any : List Text → Fields → Bool
contains_any [] m = false
contains_any (k ∷ ks) m = contains_key k m || contains_any ks m

unfoldable pub has_age_requirement : Value → Bool
has_age_requirement q = elim (section_of q (codes "age")) [
  | none ↦ false
  | some cfg ↦ contains_any age_keys cfg
]

unfoldable pub has_nested_key : Value → Text → Text → Bool
has_nested_key q f k = elim (section_of q f) [ none ↦ false | some cfg ↦ contains_key k cfg ]

abbrev pub circuit : Text → Text → PlannedCircuit
circuit n p = record { name = n; purpose = p }

abbrev pub disclose_circuit : PlannedCircuit
disclose_circuit =
    circuit (codes "disclose_bytes_evm") (codes "selective disclosure and parameter commitment")

abbrev pub age_circuit : PlannedCircuit
age_circuit = circuit (codes "compare_age_evm") (codes "age comparison")

abbrev pub nationality_in_circuit : PlannedCircuit
nationality_in_circuit =
    circuit (codes "inclusion_check_nationality_evm") (codes "nationality inclusion set membership")

abbrev pub nationality_out_circuit : PlannedCircuit
nationality_out_circuit =
    circuit (codes "exclusion_check_nationality_evm") (codes "nationality exclusion set membership")

abbrev pub country_in_circuit : PlannedCircuit
country_in_circuit =
    circuit (codes "inclusion_check_issuing_country_evm")
      (codes "issuing country inclusion set membership")

abbrev pub country_out_circuit : PlannedCircuit
country_out_circuit =
    circuit (codes "exclusion_check_issuing_country_evm")
      (codes "issuing country exclusion set membership")

-- `if test { resolved_circuits.push(c) }`.
unfoldable pub push_if : Bool → PlannedCircuit → List PlannedCircuit → List PlannedCircuit
push_if b c cs = if b then cs ++ c ∷ [] else cs

-- The pushes of `build_proof_plan`, in their order.
unfoldable pub disclosure_circuits : Value → List PlannedCircuit
disclosure_circuits q =
    let c1 = push_if (has_disclose_bytes_requirement q) disclose_circuit [] in
    let c2 = push_if (has_age_requirement q) age_circuit c1 in
    let c3 =
      push_if (has_nested_key q (codes "nationality") (codes "in")) nationality_in_circuit c2 in
    let c4 =
      push_if (has_nested_key q (codes "nationality") (codes "out")) nationality_out_circuit c3 in
    let c5 =
      push_if (has_nested_key q (codes "issuing_country") (codes "in")) country_in_circuit c4 in
    push_if (has_nested_key q (codes "issuing_country") (codes "out")) country_out_circuit c5

abbrev pub outer_name : ℕ → Text
outer_name n = codes "outer_evm_count_" ++ show_nat (3 + n)

abbrev pub outer_of : ℕ → PlannedCircuit
outer_of n = circuit (outer_name n) (codes "outer recursive aggregation and EVM verification")

abbrev pub unresolved : List Text
unresolved =
    codes "dsc_signature_circuit (requires SOD certificate analysis)"
    ∷ codes "id_data_signature_circuit (requires SOD signature algorithm analysis)"
    ∷ codes "integrity_circuit (requires LDS hash algorithm analysis)"
    ∷ []

-- The part of `build_proof_plan` behind the pushes.
unfoldable pub finish_plan : FixtureBundle → Value → List PlannedCircuit → Outcome ProofPlan
finish_plan fixture q [] = err (message "request query produced no supported disclosure circuits")
finish_plan fixture q (c ∷ cs) =
    let circuits = c ∷ cs in
    if ltb max_disclosure_proofs (length circuits)
    then err (
        detail "too many disclosure proofs requested: {} (max {})"
          (show_nat (length circuits) ∷ show_nat max_disclosure_proofs ∷ []))
    else let outer = outer_of (length circuits) in
      let all = circuits ++ outer ∷ [] in
      ok (record {
        circuit_version = fixture.request.circuit_version;
        normalized_query = q;
        disclosure_count = length all - 1;
        outer_circuit = outer.name;
        resolved_circuits = all;
        unresolved_requirements = unresolved;
      })

unfoldable pub build_proof_plan : FixtureBundle → Outcome ProofPlan
unfolding finish_plan
build_proof_plan fixture = do
  validate fixture
  q ← normalize_query fixture.request.query
  finish_plan fixture q (disclosure_circuits q)
