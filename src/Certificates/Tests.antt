-- ===== src/Certificates/Tests.antt =====
-- A registry with one file of two certificates, and the theorems at it.
use vocdoni_passport_prover.Prelude.{
  ◌&&◌, none, some, [], ◌∷◌, ◌++◌, ◌+◌, ◌≤◌, filter, sort_by_key, insert_by_key, replicate, find,
  or_else, ◌≡◌, refl, arith, ok,
}
use vocdoni_passport_prover.Prelude.Text.{
  codes, text_eq, to_ascii_lowercase, eq_ignore_ascii_case, strip_prefix, is_empty,
}
use vocdoni_passport_prover.Web.{body, refused, body_of, decode_json_bytes, is_gzip}
use vocdoni_passport_prover.Resolution.{sha256, rsa_pkcs}
use vocdoni_passport_prover.Mrz.{MrzFields}
use vocdoni_passport_prover.Analysis.{DocumentAnalysis}
use vocdoni_passport_prover.Certificates.{
  PackagedCertificate, PackagedCertificatesFile, CertificateRegistryClient, CertificateJson, ec,
  rsa, char_count, normalize_hash, pad_64, strip_0x, fill_root, check_root, requested_root,
  choose_csca, fetch_certificates, resolve_csca, is_same_country, is_issuer,
}
use vocdoni_passport_prover.Certificates.Choice.{has_algorithm, resolve_csca-find}
use vocdoni_passport_prover.Certificates.Hashes.{normalize_hash_spelling}
use vocdoni_passport_prover.Certificates.Roots.{Fetched, fetch_certificates-Fetched}

abbrev no_fields : MrzFields
no_fields = record {
  issuing_country = [];
  document_number = [];
  nationality = [];
  date_of_birth = [];
  gender = [];
  expiry_date = [];
  last_name = [];
  first_name = [];
}

abbrev analysis : DocumentAnalysis
analysis = record {
  mrz = [];
  mrz_fields = no_fields;
  document_type = codes "passport";
  tbs_len = 900;
  tbs_bucket = 1000;
  dsc_country = codes "ZKR";
  dsc_authority_key_identifier = some (codes "0xAB");
  dsc_signature_hash = sha256;
  dsc_parent_signature_algorithm = codes "RSA";
  dsc_signature_algorithm_oid = [];
  sod_digest_algorithm_oid = [];
  sod_signature_algorithm_oid = [];
  sod_signature_hash = sha256;
  dg_hash = sha256;
  id_data_public_key = rsa_pkcs 2048;
  econtent_len = 0;
}

abbrev elliptic : PackagedCertificate
elliptic = record {
  country = codes "zkr";
  signature_algorithm = codes "ECDSA";
  hash_algorithm = [];
  public_key = ec (codes "P-256") 256 [] [];
  validity = record { not_before = 0; not_after = 9 };
  private_key_usage_period = none;
  subject_key_identifier = some (codes "ab");
  authority_key_identifier = none;
  fingerprint = none;
  tags = [];
  type = none;
}

abbrev other_rsa : PackagedCertificate
other_rsa = record elliptic {
  signature_algorithm = codes "RSA";
  public_key = rsa 2048 [] 65537;
  subject_key_identifier = none;
}

abbrev file : PackagedCertificatesFile
file = record {
  version = 1;
  timestamp = 0;
  root = codes "C0FFEE";
  certificates = other_rsa ∷ elliptic ∷ [];
  serialised = [];
}

resolve_csca-find_example :
    resolve_csca analysis file
    ≡ or_else
        (or_else
          (find
            (λ c. is_same_country analysis c && (is_issuer analysis c && has_algorithm analysis c))
            file.certificates)
          (find (λ c. is_same_country analysis c && is_issuer analysis c) file.certificates))
        (or_else
          (find (λ c. is_same_country analysis c && has_algorithm analysis c) file.certificates)
          (find (is_same_country analysis) file.certificates))
resolve_csca-find_example = resolve_csca-find analysis file

-- The identifier goes before the algorithm.
chosen : resolve_csca analysis file ≡ some elliptic
unfolding resolve_csca choose_csca is_same_country is_issuer normalize_hash filter
    eq_ignore_ascii_case sort_by_key pad_64 strip_0x strip_prefix insert_by_key
chosen = refl

bare_coffee : strip_0x (codes "C0FFEE") ≡ codes "C0FFEE"
unfolding strip_0x strip_prefix
bare_coffee = refl

short_coffee : 2 + char_count (codes "C0FFEE") ≤ 64
unfolding filter
short_coffee = omega arith

normalize_hash_spelling_example :
    (normalize_hash (codes "0x" ++ (replicate 2 b'0' ++ to_ascii_lowercase (codes "C0FFEE")))
      ≡ normalize_hash (codes "C0FFEE"))
    × (normalize_hash (normalize_hash (codes "C0FFEE")) ≡ normalize_hash (codes "C0FFEE"))
    × (char_count (normalize_hash (codes "C0FFEE")) ≡ 66)
normalize_hash_spelling_example =
    normalize_hash_spelling 2 (codes "C0FFEE") bare_coffee short_coffee

abbrev client : CertificateRegistryClient
client = record {
  http = record { get = λ url. body (1 ∷ []); post = λ url v. refused; gunzip = λ b. none };
  rpc_url = codes "rpc";
  root_registry = codes "0x1";
  certificate_base_url = codes "certs";
}

abbrev json : CertificateJson
json = record { read_value = λ b. none; read_certificates = λ b. some file; show_value = λ v. [] }

fetched : fetch_certificates json client (some (codes "0xC0ffee")) ≡ ok file
unfolding fetch_certificates requested_root body_of decode_json_bytes is_gzip check_root text_eq
    normalize_hash pad_64 filter to_ascii_lowercase strip_0x strip_prefix fill_root is_empty
fetched = refl

fetch_certificates-Fetched_example :
    (f : Fetched json client (some (codes "0xC0ffee")) file) × (normalize_hash f.root ≡ f.root)
fetch_certificates-Fetched_example =
    fetch_certificates-Fetched json client (some (codes "0xC0ffee")) file fetched
