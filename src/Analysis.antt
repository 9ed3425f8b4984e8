-- ===== src/Analysis.antt =====
-- crates/prover-core/src/analysis.rs: `analyze_document` and the tables that it reads.
pub mod Bucket
pub mod Algorithms
pub mod Keys
pub mod Documents
pub mod Example
mod Tests
use vocdoni_passport_prover.Prelude.{
  ℕ, ◌+◌, ◌*◌, ◌%◌, Bool, true, false, not, ◌&&◌, ◌||◌, Option, none, some, List, [], ◌∷◌, ◌++◌,
  ltb, leb, ◌==◌, if◌then◌else◌, length, message, detail, context, Outcome, ok, err, ◌>>=◌, ◌>>◌,
}
use vocdoni_passport_prover.Prelude.Text.{
  Text, codes, text_eq, match_text, trim, contains, starts_with, ends_with, strip_prefix, split_on,
  to_ascii_uppercase, hex_bytes, show_nat, bytes_slice,
}
use vocdoni_passport_prover.Types.{DocumentInput, validate_document}
use vocdoni_passport_prover.Resolution.{
  HashAlgorithmToken, sha1, sha224, sha256, sha384, sha512, normalize, EcCurveToken,
  from_zkpassport_name, SignatureKey, ecdsa, rsa_pkcs, rsa_pss,
}
use vocdoni_passport_prover.Der.{Bytes, TlvHeader, parse_tlv, parse_oid_bytes, content}
use vocdoni_passport_prover.Sod.{
  Extension, authority_key_identifier, other, Certificate, ParsedSodEnvelope, parse_sod_envelope,
}
use vocdoni_passport_prover.Mrz.{MrzFields, extract_mrz_from_dg1, parse_mrz}

abbrev pub oid_rsa_encryption : Text
oid_rsa_encryption = codes "1.2.840.113549.1.1.1"

abbrev pub oid_rsassa_pss : Text
oid_rsassa_pss = codes "1.2.840.113549.1.1.10"

abbrev pub oid_ec_public_key : Text
oid_ec_public_key = codes "1.2.840.10045.2.1"

pub record DocumentAnalysis : Type 0 where
  pub mrz : Text
  pub mrz_fields : MrzFields
  pub document_type : Text
  pub tbs_len : ℕ
  pub tbs_bucket : ℕ
  pub dsc_country : Text
  pub dsc_authority_key_identifier : Option Text
  pub dsc_signature_hash : HashAlgorithmToken
  pub dsc_parent_signature_algorithm : Text
  pub dsc_signature_algorithm_oid : Text
  pub sod_digest_algorithm_oid : Text
  pub sod_signature_algorithm_oid : Text
  pub sod_signature_hash : HashAlgorithmToken
  pub dg_hash : HashAlgorithmToken
  pub id_data_public_key : SignatureKey
  pub econtent_len : ℕ

unfoldable pub bucket_tbs_len : ℕ → ℕ
bucket_tbs_len tbs_len =
    if leb tbs_len 700
    then 700
    else if leb tbs_len 1000
    then 1000
    else if leb tbs_len 1200
    then 1200
    else 1600

unfoldable pub signature_algorithm_family : Text → Text
signature_algorithm_family oid =
    if text_eq oid oid_rsassa_pss
    then codes "RSA-PSS"
    else if starts_with (codes "1.2.840.113549.1.1.") oid
    then codes "RSA"
    else if starts_with (codes "1.2.840.10045.4.") oid
    then codes "ECDSA"
    else codes "UNKNOWN"

abbrev pub hash_oids : List (Text × HashAlgorithmToken)
hash_oids =
    (codes "1.3.14.3.2.26", sha1)
    ∷ (codes "2.16.840.1.101.3.4.2.4", sha224)
    ∷ (codes "2.16.840.1.101.3.4.2.1", sha256)
    ∷ (codes "2.16.840.1.101.3.4.2.2", sha384)
    ∷ (codes "2.16.840.1.101.3.4.2.3", sha512)
    ∷ []

unfoldable pub hash_from_oid : Text → Option HashAlgorithmToken
hash_from_oid oid = match_text oid hash_oids

-- `hash_from_oid(oid).unwrap_or_else(|| HashAlgorithmToken::normalize(oid))`.
unfoldable pub hash_or_normalize : Text → HashAlgorithmToken
unfolding hash_from_oid
hash_or_normalize oid = elim (hash_from_oid oid) [ some h ↦ h | none ↦ normalize oid ]

unfoldable pub hash_from_signature_and_digest_oids : Text → Text → HashAlgorithmToken
unfolding hash_or_normalize
hash_from_signature_and_digest_oids signature_oid digest_oid =
    if contains (codes "4.3.2") signature_oid || ends_with (codes ".11") signature_oid
    then sha256
    else if contains (codes "4.3.3") signature_oid || ends_with (codes ".12") signature_oid
    then sha384
    else if contains (codes "4.3.4") signature_oid || ends_with (codes ".13") signature_oid
    then sha512
    else if ends_with (codes ".14") signature_oid
    then sha224
    else if ends_with (codes ".5") signature_oid
    then sha1
    else hash_or_normalize digest_oid

abbrev pub curve_oids : List (Text × Text)
curve_oids =
    (codes "1.2.840.10045.3.1.1", codes "P-192")
    ∷ (codes "1.3.132.0.33", codes "P-224")
    ∷ (codes "1.2.840.10045.3.1.7", codes "P-256")
    ∷ (codes "1.3.132.0.34", codes "P-384")
    ∷ (codes "1.3.132.0.35", codes "P-521")
    ∷ (codes "1.3.36.3.3.2.8.1.1.1", codes "brainpoolP160r1")
    ∷ (codes "1.3.36.3.3.2.8.1.1.2", codes "brainpoolP160t1")
    ∷ (codes "1.3.36.3.3.2.8.1.1.3", codes "brainpoolP192r1")
    ∷ (codes "1.3.36.3.3.2.8.1.1.4", codes "brainpoolP192t1")
    ∷ (codes "1.3.36.3.3.2.8.1.1.5", codes "brainpoolP224r1")
    ∷ (codes "1.3.36.3.3.2.8.1.1.6", codes "brainpoolP224t1")
    ∷ (codes "1.3.36.3.3.2.8.1.1.7", codes "brainpoolP256r1")
    ∷ (codes "1.3.36.3.3.2.8.1.1.8", codes "brainpoolP256t1")
    ∷ (codes "1.3.36.3.3.2.8.1.1.9", codes "brainpoolP320r1")
    ∷ (codes "1.3.36.3.3.2.8.1.1.10", codes "brainpoolP320t1")
    ∷ (codes "1.3.36.3.3.2.8.1.1.11", codes "brainpoolP384r1")
    ∷ (codes "1.3.36.3.3.2.8.1.1.12", codes "brainpoolP384t1")
    ∷ (codes "1.3.36.3.3.2.8.1.1.13", codes "brainpoolP512r1")
    ∷ (codes "1.3.36.3.3.2.8.1.1.14", codes "brainpoolP512t1")
    ∷ []

-- `if modulus_bytes.first() == Some(&0) { &modulus_bytes[1..] }`.
unfoldable pub drop_sign_byte : Bytes → Bytes
drop_sign_byte [] = []
drop_sign_byte (b ∷ bs) = if b == 0 then bs else b ∷ bs

-- `as u32` keeps the low 32 bits.
abbrev pub u32_values : ℕ
u32_values = 0x1_0000_0000

-- A build with overflow checks, or one without.
module _ (checks : Bool) where
  unfoldable pub parse_rsa_key_size_bits : Bytes → Outcome ℕ
  parse_rsa_key_size_bits key = do
    sequence ← context (parse_tlv key 0) "invalid RSA public key sequence"
    modulus ← context (parse_tlv key sequence.content_start) "missing RSA modulus"
    bytes ←
        (if not (modulus.tag == 0x02)
          then err (detail "invalid RSA modulus tag: {}" (show_nat modulus.tag ∷ []))
          else content checks key modulus)
    ok ((length (drop_sign_byte bytes) * 8) % u32_values)

  -- The arm for elliptic curves.
  unfoldable pub parse_ec_key : Bytes → Outcome SignatureKey
  parse_ec_key parameters = do
    curve_oid ← parse_oid_bytes checks parameters
    name ← (elim (match_text curve_oid curve_oids) [
      | some n ↦ ok n
      | none ↦ err (detail "unsupported EC curve OID: {curve_oid}" (curve_oid ∷ []))
    ])
    curve ← from_zkpassport_name name
    ok (ecdsa curve)

  -- The arm for RSA keys.
  unfoldable pub parse_rsa_key : Text → Bytes → Outcome SignatureKey
  parse_rsa_key algorithm_oid public_key = do
    key_bits ← parse_rsa_key_size_bits public_key
    ok (if text_eq algorithm_oid oid_rsassa_pss then rsa_pss key_bits else rsa_pkcs key_bits)

  unfoldable pub parse_subject_public_key_info : Text → Bytes → Bytes → Outcome SignatureKey
  parse_subject_public_key_info algorithm_oid parameters public_key =
      if text_eq algorithm_oid oid_ec_public_key
      then parse_ec_key parameters
      else if text_eq algorithm_oid oid_rsa_encryption || text_eq algorithm_oid oid_rsassa_pss
      then parse_rsa_key algorithm_oid public_key
      else err
          (detail "unsupported subjectPublicKeyInfo algorithm OID: {other}" (algorithm_oid ∷ []))

-- The loop of `extract_country_from_name` over the fragments.
unfoldable pub country_in : List Text → Option Text
country_in [] = none
country_in (f ∷ fs) = elim (strip_prefix (codes "countryName=") (trim f)) [
  | some value ↦ some (trim value)
  | none ↦ elim (strip_prefix (codes "C=") (trim f)) [
    | some value ↦ some (trim value)
    | none ↦ country_in fs
  ]
]

unfoldable pub extract_country_from_name : Text → Option Text
extract_country_from_name name = country_in (split_on (λ c. c == b',' || c == b'/') [] name)

-- The closure of `find_map` and the first extension that it takes.
unfoldable pub key_identifier : List Extension → Option Text
key_identifier [] = none
key_identifier (authority_key_identifier (some value) ∷ es) = some (codes "0x" ++ hex_bytes value)
key_identifier (authority_key_identifier none ∷ es) = key_identifier es
key_identifier (other ∷ es) = key_identifier es

-- What the crate takes from others: the base64 decoder, the X.509 parser and the table of
-- countries, from two letters to three.
pub record Libraries : Type 0 where
  pub decode_base64 : Text → Option Bytes
  pub parse_x509 : Bytes → Option Certificate
  pub alpha3 : Text → Option Text

unfoldable pub normalize_country_code : Libraries → Text → Text
normalize_country_code libs value =
    let clean = to_ascii_uppercase (trim value) in
    if length clean == 2
    then elim (libs.alpha3 clean) [ some code ↦ code | none ↦ clean ]
    else clean

-- `extract_country_from_name(issuer).or_else(|| … subject …).unwrap_or_default()`.
unfoldable pub certificate_country : Certificate → Text
certificate_country cert = elim (extract_country_from_name cert.issuer) [
  | some c ↦ c
  | none ↦ elim (extract_country_from_name cert.subject) [ some c ↦ c | none ↦ [] ]
]

-- The field `document_type`: as the input says, or by the length of the MRZ.
unfoldable pub document_type_of : Option Text → Text → Text
document_type_of (some kind) mrz =
    if text_eq kind (codes "id_card")
    then codes "id_card"
    else if text_eq kind (codes "passport")
    then codes "passport"
    else kind
document_type_of none mrz = if length mrz == 88 then codes "passport" else codes "id_card"

-- `parameters.as_ref().map(|value| value.data).unwrap_or(&[])`.
abbrev pub parameters_of : Option Bytes → Bytes
parameters_of none = []
parameters_of (some p) = p

-- The value that `analyze_document` builds from what it has read.
unfoldable pub analysis_of :
    Libraries
    → DocumentInput
    → Text
    → MrzFields
    → ParsedSodEnvelope
    → Certificate
    → SignatureKey
    → DocumentAnalysis
analysis_of libs document mrz fields sod cert key = record {
  mrz = mrz;
  mrz_fields = fields;
  document_type = document_type_of document.document_type mrz;
  tbs_len = cert.tbs_len;
  tbs_bucket = bucket_tbs_len cert.tbs_len;
  dsc_country = normalize_country_code libs (certificate_country cert);
  dsc_authority_key_identifier = key_identifier cert.extensions;
  dsc_signature_hash =
      hash_from_signature_and_digest_oids sod.certificate_signature_algorithm_oid [];
  dsc_parent_signature_algorithm =
      signature_algorithm_family sod.certificate_signature_algorithm_oid;
  dsc_signature_algorithm_oid = sod.certificate_signature_algorithm_oid;
  sod_digest_algorithm_oid = sod.digest_algorithm_oid;
  sod_signature_algorithm_oid = sod.signer_signature_algorithm_oid;
  sod_signature_hash =
      hash_from_signature_and_digest_oids sod.signer_signature_algorithm_oid
        sod.digest_algorithm_oid;
  dg_hash = hash_or_normalize sod.econtent_hash_algorithm_oid;
  id_data_public_key = key;
  econtent_len = length sod.econtent;
}

unfoldable pub analyze_document : Bool → Libraries → DocumentInput → Outcome DocumentAnalysis
analyze_document checks libs document = do
  validate_document document
  dg1 ← context (libs.decode_base64 document.dg1_base64) "failed to decode dg1_base64"
  sod ← context (libs.decode_base64 document.sod_der_base64) "failed to decode sod_der_base64"
  mrz ← extract_mrz_from_dg1 dg1
  fields ← parse_mrz mrz
  parsed_sod ← parse_sod_envelope checks libs.parse_x509 sod
  cert ←
      context (libs.parse_x509 parsed_sod.certificate_der)
        "failed to parse DSC certificate: {error}"
  key ←
      parse_subject_public_key_info checks cert.key_algorithm (parameters_of cert.key_parameters)
        cert.public_key
  ok (analysis_of libs document mrz fields parsed_sod cert key)
