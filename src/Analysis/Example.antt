-- ===== src/Analysis/Example.antt =====
-- A document whose analysis comes to its end: the machine-readable zone of a passport, a signed
-- object with all of its fields and a certificate with an RSA key, both signed with RSA-PSS.
use vocdoni_passport_prover.Prelude.{none, some, [], ◌∷◌, ◌++◌}
use vocdoni_passport_prover.Prelude.Text.{Text, codes}
use vocdoni_passport_prover.Types.{DocumentInput}
use vocdoni_passport_prover.Der.{Bytes}
use vocdoni_passport_prover.Sod.{Certificate}
use vocdoni_passport_prover.Analysis.{Libraries, oid_rsa_encryption}
use vocdoni_passport_prover.Types.{validate_document}
use vocdoni_passport_prover.Prelude.Text.{
  is_empty, trim, bytes_slice, is_utf8, remove, starts_with, slice, lower, to_ascii_lowercase,
  to_ascii_uppercase, upper, blank, contains, ends_with, get_range, is_char_boundary, split_fillers,
  split_on, strip_prefix, show_nat, hex_bytes, hex_digit, match_text, text_eq,
}
use vocdoni_passport_prover.Mrz.{
  extract_mrz_from_dg1, find_mrz, mrz_at, from_utf8, parse_mrz, clean_mrz, parse_td3,
  get_or_default, name_part, parse_td1,
}
use vocdoni_passport_prover.Sod.{
  parse_sod_envelope, start_offset, envelope_of, find_octet_string, next_pos, outer_fields,
  parse_econtent_info, parse_lds_hash_algorithm_oid, parse_signed_data,
  parse_signer_info_signature_algorithm, parse_sod_envelope_on, read_certificate, read_digest,
  read_econtent, read_field, read_signer, signed_fields, signer_fields,
}
use vocdoni_passport_prover.Analysis.{
  analyze_document, analysis_of, bucket_tbs_len, certificate_country, country_in, document_type_of,
  drop_sign_byte, extract_country_from_name, hash_from_oid, hash_from_signature_and_digest_oids,
  hash_or_normalize, key_identifier, normalize_country_code, parse_ec_key, parse_rsa_key,
  parse_rsa_key_size_bits, parse_subject_public_key_info, signature_algorithm_family,
}
use vocdoni_passport_prover.Der.{
  content, join_dots, long_length, oid_parts, parse_oid_bytes, parse_oid_raw, parse_tlv, tlv_length,
}
use vocdoni_passport_prover.Prelude.{add_usize}
use vocdoni_passport_prover.Resolution.{from_zkpassport_name, normalize}
use vocdoni_passport_prover.Resolution.{sha256, rsa_pkcs}
use vocdoni_passport_prover.Analysis.{DocumentAnalysis}
use vocdoni_passport_prover.Prelude.{◌≡◌, refl, true, ok}

abbrev pub mrz : Text
mrz =
    codes "P<ESPGARCIA<<ANA<<<<<<<<<<<<<<<<<<<<<<<<<<<<"
    ++ codes "AAA0000009ESP8001014F3001012<<<<<<<<<<<<<<06"

abbrev dg1 : Bytes
dg1 = 0x61 ∷ 0x5b ∷ 0x5f ∷ 0x1f ∷ 0x58 ∷ mrz

-- A signed object: the algorithms of the digests, the digests of the data groups, a certificate of
-- one byte and the signer.
abbrev sod : Bytes
sod =
    0x30 ∷ 0x5e ∷ 0x06 ∷ 0x01 ∷ 0x2a ∷ 0xa0 ∷ 0x59 ∷ 0x30 ∷ 0x57 ∷ 0x02 ∷ 0x01 ∷ 0x03 ∷ 0x31 ∷ 0x0d
    ∷ 0x30 ∷ 0x0b ∷ 0x06 ∷ 0x09 ∷ 0x60 ∷ 0x86 ∷ 0x48 ∷ 0x01 ∷ 0x65 ∷ 0x03 ∷ 0x04 ∷ 0x02 ∷ 0x01
    ∷ 0x30 ∷ 0x19 ∷ 0x06 ∷ 0x01 ∷ 0x67 ∷ 0xa0 ∷ 0x14 ∷ 0x04 ∷ 0x12 ∷ 0x30 ∷ 0x10 ∷ 0x02 ∷ 0x01
    ∷ 0x00 ∷ 0x30 ∷ 0x0b ∷ 0x06 ∷ 0x09 ∷ 0x60 ∷ 0x86 ∷ 0x48 ∷ 0x01 ∷ 0x65 ∷ 0x03 ∷ 0x04 ∷ 0x02
    ∷ 0x01 ∷ 0xa0 ∷ 0x03 ∷ 0x30 ∷ 0x01 ∷ 0x01 ∷ 0x31 ∷ 0x23 ∷ 0x30 ∷ 0x21 ∷ 0x02 ∷ 0x01 ∷ 0x01
    ∷ 0x30 ∷ 0x00 ∷ 0x30 ∷ 0x0b ∷ 0x06 ∷ 0x09 ∷ 0x60 ∷ 0x86 ∷ 0x48 ∷ 0x01 ∷ 0x65 ∷ 0x03 ∷ 0x04
    ∷ 0x02 ∷ 0x01 ∷ 0xa0 ∷ 0x00 ∷ 0x30 ∷ 0x0b ∷ 0x06 ∷ 0x09 ∷ 0x2a ∷ 0x86 ∷ 0x48 ∷ 0x86 ∷ 0xf7
    ∷ 0x0d ∷ 0x01 ∷ 0x01 ∷ 0x0a ∷ []

abbrev pub document : DocumentInput
document = record {
  dg1_base64 = dg1;
  sod_der_base64 = sod;
  dg2_base64 = none;
  document_type = none;
}

abbrev pub certificate : Certificate
certificate = record {
  signature_algorithm = codes "1.2.840.113549.1.1.10";
  extensions = [];
  issuer = codes "C=ESP";
  subject = [];
  key_algorithm = oid_rsa_encryption;
  key_parameters = none;
  public_key =
      0x30 ∷ 0x0a ∷ 0x02 ∷ 0x03 ∷ 0x00 ∷ 0xff ∷ 0x01 ∷ 0x02 ∷ 0x03 ∷ 0x01 ∷ 0x00 ∷ 0x01 ∷ [];
  tbs_len = 900;
}

abbrev pub libs : Libraries
libs = record {
  decode_base64 = λ s. some s;
  parse_x509 = λ der. some certificate;
  alpha3 = λ s. none;
}

abbrev pub analysis : DocumentAnalysis
analysis = record {
  mrz = mrz;
  mrz_fields = record {
    issuing_country = codes "ESP";
    document_number = codes "AAA000000";
    nationality = codes "ESP";
    date_of_birth = codes "800101";
    gender = codes "F";
    expiry_date = codes "300101";
    last_name = codes "GARCIA";
    first_name = codes "ANA";
  };
  document_type = codes "passport";
  tbs_len = 900;
  tbs_bucket = 1000;
  dsc_country = codes "ESP";
  dsc_authority_key_identifier = none;
  dsc_signature_hash = sha256;
  dsc_parent_signature_algorithm = codes "RSA-PSS";
  dsc_signature_algorithm_oid = codes "1.2.840.113549.1.1.10";
  sod_digest_algorithm_oid = codes "2.16.840.1.101.3.4.2.1";
  sod_signature_algorithm_oid = codes "1.2.840.113549.1.1.10";
  sod_signature_hash = sha256;
  dg_hash = sha256;
  id_data_public_key = rsa_pkcs 16;
  econtent_len = 18;
}

pub analyzed : analyze_document true libs document ≡ ok analysis
unfolding validate_document is_empty trim bytes_slice is_utf8 remove starts_with slice lower
    to_ascii_lowercase to_ascii_uppercase upper blank contains ends_with get_range is_char_boundary
    split_fillers split_on strip_prefix show_nat hex_bytes hex_digit match_text text_eq
    extract_mrz_from_dg1 find_mrz mrz_at from_utf8 parse_mrz clean_mrz parse_td3 get_or_default
    name_part parse_td1 parse_sod_envelope start_offset envelope_of find_octet_string next_pos
    outer_fields parse_econtent_info parse_lds_hash_algorithm_oid parse_signed_data
    parse_signer_info_signature_algorithm parse_sod_envelope_on read_certificate read_digest
    read_econtent read_field read_signer signed_fields signer_fields analyze_document analysis_of
    bucket_tbs_len certificate_country country_in document_type_of drop_sign_byte
    extract_country_from_name hash_from_oid hash_from_signature_and_digest_oids hash_or_normalize
    key_identifier normalize_country_code parse_ec_key parse_rsa_key parse_rsa_key_size_bits
    parse_subject_public_key_info signature_algorithm_family content join_dots long_length oid_parts
    parse_oid_bytes parse_oid_raw parse_tlv tlv_length add_usize from_zkpassport_name normalize
analyzed = refl
