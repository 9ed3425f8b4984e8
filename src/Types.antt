-- ===== src/Types.antt =====
-- crates/prover-types/src/lib.rs: the data that the prover is given and gives back.
use vocdoni_passport_prover.Prelude.{
  ℕ, Option, List, [], ◌∷◌, String, ◌==◌, if◌then◌else◌, Error, detail, Outcome, ok, err, ◌>>◌,
  arith, ◌≡◌, ◌≢◌, ◌↔◌, false,
}
use vocdoni_passport_prover.Prelude.Text.{Text, codes, trim, is_empty}
use vocdoni_passport_prover.Json.{Value}

-- `ValidationError`, as the `anyhow` error that `?` makes of it.
abbrev pub missing_field : String → Error
missing_field f = detail "missing required field: {0}" (codes f ∷ [])

abbrev pub invalid_value : String → String → Error
invalid_value f m = detail "invalid value for {field}: {message}" (codes f ∷ codes m ∷ [])

pub record DocumentInput : Type 0 where
  pub dg1_base64 : Text
  pub sod_der_base64 : Text
  pub dg2_base64 : Option Text
  pub document_type : Option Text

unfoldable pub validate_document : DocumentInput → Outcome (Unit {0})
validate_document d =
    if is_empty (trim d.dg1_base64)
    then err (missing_field "dg1_base64")
    else if is_empty (trim d.sod_der_base64)
    then err (missing_field "sod_der_base64")
    else ok tt

pub record ProofRequest : Type 0 where
  pub circuit_version : Text
  pub chain_id : ℕ
  pub service_scope : Text
  pub service_subscope : Text
  pub current_date : ℕ
  pub query : Value
  pub petition_id : Option Text
  pub aggregate_mode : Option Text

unfoldable pub validate_request : ProofRequest → Outcome (Unit {0})
validate_request r =
    if is_empty (trim r.circuit_version)
    then err (missing_field "circuit_version")
    else if is_empty (trim r.service_scope)
    then err (missing_field "service_scope")
    else if is_empty (trim r.service_subscope)
    then err (missing_field "service_subscope")
    else if r.current_date == 0
    then err (invalid_value "current_date" "must be a unix timestamp greater than zero")
    else ok tt

pub record RecursiveProof : Type 0 where
  pub circuit_name : Text
  pub proof : List Text
  pub public_inputs : List Text
  pub vkey : List Text
  pub key_hash : Text
  pub tree_hash_path : List Text
  pub tree_index : Text

pub record InnerProofBundle : Type 0 where
  pub version : Text
  pub current_date : ℕ
  pub dsc : RecursiveProof
  pub id_data : RecursiveProof
  pub integrity : RecursiveProof
  pub disclosures : List RecursiveProof
  pub metadata : List (Text × Text)

pub record OuterProofResult : Type 0 where
  pub version : Text
  pub name : Text
  pub proof : Text
  pub public_inputs : List Text
  pub vkey_hash : Text
  pub nullifier : Option Text
  pub metadata : List (Text × Text)

pub record FixtureMetadata : Type 0 where
  pub fixture_id : Option Text
  pub source : Option Text
  pub notes : Option Text

pub record FixtureBundle : Type 0 where
  pub document : DocumentInput
  pub request : ProofRequest
  pub expected_inner : Option InnerProofBundle
  pub expected_outer : Option OuterProofResult
  pub metadata : FixtureMetadata

unfoldable pub validate : FixtureBundle → Outcome (Unit {0})
unfolding validate_document validate_request
validate b = do validate_document b.document; validate_request b.request; ok tt

-- What a valid bundle holds: no required text is blank, and the date is set.
pub record IsValid (b : FixtureBundle) : Type 0 where
  pub dg1 : is_empty (trim b.document.dg1_base64) ≡ false
  pub sod : is_empty (trim b.document.sod_der_base64) ≡ false
  pub version : is_empty (trim b.request.circuit_version) ≡ false
  pub scope : is_empty (trim b.request.service_scope) ≡ false
  pub subscope : is_empty (trim b.request.service_subscope) ≡ false
  pub date : b.request.current_date ≢ 0

pub validate-eq-ok : (b : FixtureBundle) → (validate b ≡ ok tt) ↔ IsValid b
unfolding validate
validate-eq-ok b = (ground arith, ground arith)
