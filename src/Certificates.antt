-- ===== src/Certificates.antt =====
-- crates/prover-core/src/certificates.rs: the client of the certificate registry, the choice of
-- the CSCA certificate, and `derive_document_circuit_context`.
pub mod Choice
pub mod Hashes
pub mod Roots
mod Tests
use vocdoni_passport_prover.Prelude.{
  ℕ, ◌-◌, Bool, true, false, ◌&&◌, ◌||◌, not, Option, none, some, List, [], ◌∷◌, ◌++◌, length,
  replicate, ltb, leb, if◌then◌else◌, first, filter, sort_by_key, message, detail, context, Outcome,
  ok, err, ◌>>=◌, ◌>>◌,
}
use vocdoni_passport_prover.Prelude.Text.{
  Text, codes, text_eq, strip_prefix, is_empty, to_ascii_lowercase, eq_ignore_ascii_case,
}
use vocdoni_passport_prover.Json.{
  Value, number, string, array, object, cons, nil, field, end, get_key, as_str,
}
use vocdoni_passport_prover.Web.{Http, body_of, decode_json_bytes, expect, within}
use vocdoni_passport_prover.Resolution.{
  SignatureKey, ecdsa, rsa_pkcs, rsa_pss, from_zkpassport_name, DocumentCircuitContext,
}
use vocdoni_passport_prover.Der.{Bytes}
use vocdoni_passport_prover.Analysis.{DocumentAnalysis}

pub record CertificateValidity : Type 0 where
  pub not_before : ℕ
  pub not_after : ℕ

pub record PrivateKeyUsagePeriod : Type 0 where
  pub not_before : Option ℕ
  pub not_after : Option ℕ

-- `EC` with its curve, key size and point, `RSA` with its key size, modulus and exponent.
pub data PackagedCertificatePublicKey : Type 0 where
  ec : Text → ℕ → Text → Text → PackagedCertificatePublicKey
  rsa : ℕ → Text → ℕ → PackagedCertificatePublicKey

pub record PackagedCertificate : Type 0 where
  pub country : Text
  pub signature_algorithm : Text
  pub hash_algorithm : Text
  pub public_key : PackagedCertificatePublicKey
  pub validity : CertificateValidity
  pub private_key_usage_period : Option PrivateKeyUsagePeriod
  pub subject_key_identifier : Option Text
  pub authority_key_identifier : Option Text
  pub fingerprint : Option Text
  pub tags : List Text
  pub type : Option Text

pub record PackagedCertificatesFile : Type 0 where
  pub version : ℕ
  pub timestamp : ℕ
  pub root : Text
  pub certificates : List PackagedCertificate
  pub serialised : List (List Text)

pub record CertificateRegistryClient : Type 0 where
  pub http : Http
  pub rpc_url : Text
  pub root_registry : Text
  pub certificate_base_url : Text

unfoldable pub strip_0x : Text → Text
strip_0x value = elim (strip_prefix (codes "0x") value) [ some rest ↦ rest | none ↦ value ]

-- The characters of a UTF-8 text: its bytes less the continuation bytes.
abbrev pub char_count : Text → ℕ
char_count s = length (filter (λ b. ltb b 128 || leb 192 b) s)

-- `{:0>64}`: zeros in front, up to 64 characters.
unfoldable pub pad_64 : Text → Text
pad_64 s = replicate (64 - char_count s) b'0' ++ s

unfoldable pub normalize_hash : Text → Text
normalize_hash value = codes "0x" ++ pad_64 (to_ascii_lowercase (strip_0x value))

abbrev pub certificate_registry_id : Text
certificate_registry_id = replicate 63 b'0' ++ codes "1"

abbrev pub latest_root_with_param_signature : Text
latest_root_with_param_signature = codes "0xc3bc16e8"

-- The `eth_call` to the root registry, its keys in the order of the map.
unfoldable pub root_payload : Text → Value
root_payload to = object (
    field (codes "id") (number (codes "1")) (
      field (codes "jsonrpc") (string (codes "2.0")) (
        field (codes "method") (string (codes "eth_call")) (
          field (codes "params")
            (array (
              cons
                (object (
                  field (codes "data")
                    (string (latest_root_with_param_signature ++ certificate_registry_id))
                    (field (codes "to") (string to) end)))
                (cons (string (codes "latest")) nil)))
            end))))

-- `if packaged.root.is_empty() { packaged.root = root.clone(); }`.
unfoldable pub fill_root : Text → PackagedCertificatesFile → PackagedCertificatesFile
fill_root root packaged =
    if is_empty packaged.root then record packaged { root = root } else packaged

-- The comparison at the end of `fetch_certificates`.
unfoldable pub check_root : Text → PackagedCertificatesFile → Outcome PackagedCertificatesFile
check_root root packaged =
    if not (text_eq (normalize_hash packaged.root) root)
    then err
        (detail "certificate root mismatch: requested={}, received={}" (root ∷ packaged.root ∷ []))
    else ok packaged

abbrev pub certificates_url : CertificateRegistryClient → Text → Text
certificates_url client root = client.certificate_base_url ++ (codes "/" ++ (root ++ codes ".json"))

-- `serde_json`'s readers and its printer.
pub record CertificateJson : Type 0 where
  pub read_value : Bytes → Option Value
  pub read_certificates : Bytes → Option PackagedCertificatesFile
  pub show_value : Value → Text

-- The field `result` of the answer.
unfoldable pub result_root : Value → Outcome Text
result_root value = do
  result ← context (get_key (codes "result") value) "RPC result field missing or not a string"
  root ← context (as_str result) "RPC result field missing or not a string"
  ok (normalize_hash root)

module _ (json : CertificateJson) where
  -- The answer of the RPC endpoint.
  unfoldable pub root_of_response : Value → Outcome Text
  root_of_response value = elim (get_key (codes "error") value) [
    | some error ↦ err (detail "RPC returned error: {error}" (json.show_value error ∷ []))
    | none ↦ result_root value
  ]

  unfoldable pub fetch_latest_root : CertificateRegistryClient → Outcome Text
  fetch_latest_root client = do
    bytes ←
        body_of (client.http.post client.rpc_url (root_payload client.root_registry))
          (detail "failed to call RPC endpoint: {}" (client.rpc_url ∷ []))
          (detail "RPC request failed: {}" (client.rpc_url ∷ []))
          (message "failed to decode RPC response JSON")
    value ← context (json.read_value bytes) "failed to decode RPC response JSON"
    root_of_response value

  unfoldable pub requested_root : CertificateRegistryClient → Option Text → Outcome Text
  requested_root client none = fetch_latest_root client
  requested_root client (some root) = ok (normalize_hash root)

  unfoldable pub fetch_certificates :
      CertificateRegistryClient → Option Text → Outcome PackagedCertificatesFile
  fetch_certificates client wanted = do
    root ← requested_root client wanted
    let url = certificates_url client root
    bytes ←
        body_of (client.http.get url) (detail "failed to GET certificates: {url}" (url ∷ []))
          (detail "certificate request failed: {url}" (url ∷ []))
          (detail "failed to read certificate bytes: {url}" (url ∷ []))
    packaged ←
        within (detail "invalid certificate JSON: {url}" (url ∷ []))
          (decode_json_bytes json.read_certificates client.http bytes url)
    check_root root (fill_root root packaged)

-- The key that `sort_candidate_certificates` sorts by.
unfoldable pub algorithm_rank : DocumentAnalysis → PackagedCertificate → ℕ
algorithm_rank analysis cert =
    if eq_ignore_ascii_case cert.signature_algorithm analysis.dsc_parent_signature_algorithm
    then 0
    else 1

abbrev pub sort_candidate_certificates :
    List PackagedCertificate → DocumentAnalysis → List PackagedCertificate
sort_candidate_certificates certs analysis = sort_by_key (algorithm_rank analysis) certs

unfoldable pub is_same_country : DocumentAnalysis → PackagedCertificate → Bool
is_same_country analysis cert = eq_ignore_ascii_case cert.country analysis.dsc_country

-- The test of the `aki_matches`.
unfoldable pub is_issuer : DocumentAnalysis → PackagedCertificate → Bool
is_issuer analysis cert = elim analysis.dsc_authority_key_identifier [
  | none ↦ false
  | some aki ↦ elim cert.subject_key_identifier [
    | none ↦ false
    | some ski ↦ text_eq (normalize_hash ski) (normalize_hash aki)
  ]
]

-- The part of `resolve_csca` behind `same_country`.
unfoldable pub choose_csca :
    DocumentAnalysis → List PackagedCertificate → Option PackagedCertificate
choose_csca analysis [] = none
choose_csca analysis (c ∷ cs) =
    let same_country = c ∷ cs in
    let aki_matches = filter (is_issuer analysis) same_country in
    elim (first (sort_candidate_certificates aki_matches analysis)) [
      | some cert ↦ some cert
      | none ↦ first (sort_candidate_certificates same_country analysis)
    ]

unfoldable pub resolve_csca :
    DocumentAnalysis → PackagedCertificatesFile → Option PackagedCertificate
resolve_csca analysis packaged =
    choose_csca analysis (filter (is_same_country analysis) packaged.certificates)

-- The key of the certificate that signed the DSC.
unfoldable pub key_of : PackagedCertificate → Outcome SignatureKey
key_of csca = elim csca.public_key [
  | ec curve key_size public_key_x public_key_y ↦ do
    curve ← from_zkpassport_name curve
    ok (ecdsa curve)
  | rsa key_size modulus exponent ↦ ok (
      if eq_ignore_ascii_case csca.signature_algorithm (codes "RSA-PSS")
      then rsa_pss key_size
      else rsa_pkcs key_size)
]

unfoldable pub derive_document_circuit_context :
    DocumentAnalysis → PackagedCertificate → Text → Outcome DocumentCircuitContext
derive_document_circuit_context analysis csca outer_circuit = do
  dsc_key ← key_of csca
  ok (record {
    dsc = record {
      tbs_bucket = analysis.tbs_bucket;
      key = dsc_key;
      hash = analysis.dsc_signature_hash;
    };
    id_data = record {
      tbs_bucket = analysis.tbs_bucket;
      key = analysis.id_data_public_key;
      hash = analysis.sod_signature_hash;
    };
    dg_hash = analysis.dg_hash;
    outer_circuit = outer_circuit;
  })
