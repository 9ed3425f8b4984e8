-- ===== src/Resolution.antt =====
-- crates/prover-core/src/resolution.rs: the tokens of hashes, curves and keys, and the names of the
-- circuits that they select.
pub mod Names
pub mod Tokens
mod Tests
use vocdoni_passport_prover.Prelude.{
  ℕ, Bool, true, false, Option, none, some, List, [], ◌∷◌, ◌++◌, ◌==◌, if◌then◌else◌, detail,
  Outcome, ok, err, ◌>>=◌, ◌>>◌,
}
use vocdoni_passport_prover.Prelude.Text.{
  Text, codes, match_text, text_eq, show_nat, contains, remove, to_ascii_lowercase,
}

pub data HashAlgorithmToken : Type 0 where
  sha1 sha224 sha256 sha384 sha512 : HashAlgorithmToken

unfoldable pub normalize : Text → HashAlgorithmToken
normalize value =
    let normalized = remove (λ c. c == b'-') (to_ascii_lowercase value) in
    if contains (codes "512") normalized
    then sha512
    else if contains (codes "384") normalized
    then sha384
    else if contains (codes "224") normalized
    then sha224
    else if contains (codes "1") normalized
    then sha1
    else sha256

unfoldable pub hash_suffix : HashAlgorithmToken → Text
hash_suffix sha1 = codes "sha1"
hash_suffix sha224 = codes "sha224"
hash_suffix sha256 = codes "sha256"
hash_suffix sha384 = codes "sha384"
hash_suffix sha512 = codes "sha512"

pub data EcCurveToken : Type 0 where
  nist_p192 nist_p224 nist_p256 nist_p384 nist_p521 : EcCurveToken
  brainpool160r1 brainpool160t1 brainpool192r1 brainpool192t1 : EcCurveToken
  brainpool224r1 brainpool224t1 brainpool256r1 brainpool256t1 : EcCurveToken
  brainpool320r1 brainpool320t1 brainpool384r1 brainpool384t1 : EcCurveToken
  brainpool512r1 brainpool512t1 : EcCurveToken

-- The arms of `from_zkpassport_name`.
abbrev pub zkpassport_names : List (Text × EcCurveToken)
zkpassport_names =
    (codes "P-192", nist_p192)
    ∷ (codes "P-224", nist_p224)
    ∷ (codes "P-256", nist_p256)
    ∷ (codes "P-384", nist_p384)
    ∷ (codes "P-521", nist_p521)
    ∷ (codes "brainpoolP160r1", brainpool160r1)
    ∷ (codes "brainpoolP160t1", brainpool160t1)
    ∷ (codes "brainpoolP192r1", brainpool192r1)
    ∷ (codes "brainpoolP192t1", brainpool192t1)
    ∷ (codes "brainpoolP224r1", brainpool224r1)
    ∷ (codes "brainpoolP224t1", brainpool224t1)
    ∷ (codes "brainpoolP256r1", brainpool256r1)
    ∷ (codes "brainpoolP256t1", brainpool256t1)
    ∷ (codes "brainpoolP320r1", brainpool320r1)
    ∷ (codes "brainpoolP320t1", brainpool320t1)
    ∷ (codes "brainpoolP384r1", brainpool384r1)
    ∷ (codes "brainpoolP384t1", brainpool384t1)
    ∷ (codes "brainpoolP512r1", brainpool512r1)
    ∷ (codes "brainpoolP512t1", brainpool512t1)
    ∷ []

unfoldable pub from_zkpassport_name : Text → Outcome EcCurveToken
unfolding match_text
from_zkpassport_name value = elim (match_text value zkpassport_names) [
  | some c ↦ ok c
  | none ↦ err (detail "unsupported ECDSA curve for circuit selection: {other}" (value ∷ []))
]

unfoldable pub curve_suffix : EcCurveToken → Text
curve_suffix nist_p192 = codes "nist_p192"
curve_suffix nist_p224 = codes "nist_p224"
curve_suffix nist_p256 = codes "nist_p256"
curve_suffix nist_p384 = codes "nist_p384"
curve_suffix nist_p521 = codes "nist_p521"
curve_suffix brainpool160r1 = codes "brainpool_160r1"
curve_suffix brainpool160t1 = codes "brainpool_160t1"
curve_suffix brainpool192r1 = codes "brainpool_192r1"
curve_suffix brainpool192t1 = codes "brainpool_192t1"
curve_suffix brainpool224r1 = codes "brainpool_224r1"
curve_suffix brainpool224t1 = codes "brainpool_224t1"
curve_suffix brainpool256r1 = codes "brainpool_256r1"
curve_suffix brainpool256t1 = codes "brainpool_256t1"
curve_suffix brainpool320r1 = codes "brainpool_320r1"
curve_suffix brainpool320t1 = codes "brainpool_320t1"
curve_suffix brainpool384r1 = codes "brainpool_384r1"
curve_suffix brainpool384t1 = codes "brainpool_384t1"
curve_suffix brainpool512r1 = codes "brainpool_512r1"
curve_suffix brainpool512t1 = codes "brainpool_512t1"

pub data SignatureKey : Type 0 where
  ecdsa : EcCurveToken → SignatureKey
  rsa_pkcs : ℕ → SignatureKey
  rsa_pss : ℕ → SignatureKey

unfoldable pub key_suffix : SignatureKey → Text
key_suffix (ecdsa curve) = codes "ecdsa_" ++ curve_suffix curve
key_suffix (rsa_pkcs key_bits) = codes "rsa_pkcs_" ++ show_nat key_bits
key_suffix (rsa_pss key_bits) = codes "rsa_pss_" ++ show_nat key_bits

pub record SignatureCircuitSpec : Type 0 where
  pub tbs_bucket : ℕ
  pub key : SignatureKey
  pub hash : HashAlgorithmToken

pub record DocumentCircuitContext : Type 0 where
  pub dsc : SignatureCircuitSpec
  pub id_data : SignatureCircuitSpec
  pub dg_hash : HashAlgorithmToken
  pub outer_circuit : Text

pub record ResolvedDocumentCircuits : Type 0 where
  pub dsc_name : Text
  pub id_data_name : Text
  pub integrity_name : Text
  pub outer_name : Text

-- crates/prover-core/src/registry.rs: `Manifest` and `ManifestCircuit`. The circuits are a
-- `BTreeMap`: its entries in the order of their keys.
pub record ManifestCircuit : Type 0 where
  pub hash : Text
  pub size : ℕ

pub record Manifest : Type 0 where
  pub version : Text
  pub root : Text
  pub circuits : List (Text × ManifestCircuit)

-- `{tbs_bucket}_{key}_{hash}`, which both signature names end in.
unfoldable pub spec_suffix : SignatureCircuitSpec → Text
spec_suffix s = show_nat s.tbs_bucket ++ (b'_' ∷ (key_suffix s.key ++ (b'_' ∷ hash_suffix s.hash)))

unfoldable pub dsc_circuit_name : DocumentCircuitContext → Text
dsc_circuit_name c = codes "sig_check_dsc_tbs_" ++ spec_suffix c.dsc

unfoldable pub id_data_circuit_name : DocumentCircuitContext → Text
id_data_circuit_name c = codes "sig_check_id_data_tbs_" ++ spec_suffix c.id_data

unfoldable pub integrity_circuit_name : DocumentCircuitContext → Text
integrity_circuit_name c =
    codes "data_check_integrity_sa_"
    ++ (hash_suffix c.id_data.hash ++ (codes "_dg_" ++ hash_suffix c.dg_hash))

-- The loop over the names: the first one that the manifest lacks is the error.
unfoldable pub check_names : Manifest → List Text → Outcome (Unit {0})
check_names m [] = ok tt
check_names m (n ∷ ns) = elim (match_text n m.circuits) [
  | none ↦ err (detail "derived circuit not found in manifest: {name}" (n ∷ []))
  | some node ↦ check_names m ns
]

unfoldable pub resolve_document_circuits :
    Manifest → DocumentCircuitContext → Outcome ResolvedDocumentCircuits
resolve_document_circuits m c = do
  check_names m (
      dsc_circuit_name c ∷ id_data_circuit_name c ∷ integrity_circuit_name c ∷ c.outer_circuit ∷ [])
  ok (record {
    dsc_name = dsc_circuit_name c;
    id_data_name = id_data_circuit_name c;
    integrity_name = integrity_circuit_name c;
    outer_name = c.outer_circuit;
  })
