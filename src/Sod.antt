-- ===== src/Sod.antt =====
-- crates/prover-core/src/analysis.rs: the walk over a Security Object of the Document, from
-- `parse_sod_envelope` down to `parse_signer_info_signature_algorithm`.
pub mod Progress
pub mod Finishes
pub mod Wrap
mod Tests
use vocdoni_passport_prover.Prelude.{
  ℕ, zero, suc, ◌+◌, Bool, true, false, ◌&&◌, Option, none, some, List, [], ◌∷◌, ltb, leb, ◌==◌,
  if◌then◌else◌, get_elem?, length, message, context, Outcome, ok, err, panic, unfinished, ◌>>=◌,
  ◌>>◌, add_usize,
}
use vocdoni_passport_prover.Prelude.Text.{Text, bytes_slice}
use vocdoni_passport_prover.Der.{Bytes, TlvHeader, parse_tlv, parse_oid_raw, content}

-- An extension of a certificate, as the code tells them apart.
pub data Extension : Type 0 where
  authority_key_identifier : Option Bytes → Extension
  other : Extension

-- What the code reads of a certificate that `parse_x509_certificate` returns. `key_parameters` is
-- the field `data` of the parser's `Any`: the content octets, without tag and length.
pub record Certificate : Type 0 where
  pub signature_algorithm : Text
  pub extensions : List Extension
  pub issuer : Text
  pub subject : Text
  pub key_algorithm : Text
  pub key_parameters : Option Bytes
  pub public_key : Bytes
  pub tbs_len : ℕ

pub record ParsedSodEnvelope : Type 0 where
  pub certificate_der : Bytes
  pub certificate_signature_algorithm_oid : Text
  pub digest_algorithm_oid : Text
  pub signer_signature_algorithm_oid : Text
  pub econtent_hash_algorithm_oid : Text
  pub econtent : Bytes

-- The local variables of `parse_signed_data` that its loop sets.
pub record SignedData : Type 0 where
  pub digest : Option Text
  pub certificate : Option Bytes
  pub certificate_signature : Option Text
  pub signer_signature : Option Text
  pub econtent : Option Bytes
  pub econtent_hash : Option Text

abbrev pub no_signed_data : SignedData
no_signed_data = record {
  digest = none;
  certificate = none;
  certificate_signature = none;
  signer_signature = none;
  econtent = none;
  econtent_hash = none;
}

-- A build with overflow checks, or one without; and the certificate parser.
module _ (checks : Bool) (parse_x509 : Bytes → Option Certificate) where
  -- `tlv.content_start + tlv.content_length`, where the next header begins.
  unfoldable pub next_pos : TlvHeader → Outcome ℕ
  next_pos t = add_usize checks t.content_start t.content_length

  unfoldable pub parse_lds_hash_algorithm_oid : Bytes → Outcome Text
  parse_lds_hash_algorithm_oid econtent = do
    root ← context (parse_tlv econtent 0) "invalid LDS security object"
    version ← context (parse_tlv econtent root.content_start) "invalid LDS version"
    behind ← next_pos version
    digest_algo ← context (parse_tlv econtent behind) "invalid LDS digest algorithm"
    oid ← context (parse_tlv econtent digest_algo.content_start) "invalid LDS digest OID"
    raw ← content checks econtent oid
    ok (parse_oid_raw raw)

  -- The loop of `parse_econtent_info`: the octet string, if there is one.
  unfoldable pub find_octet_string : ℕ → Bytes → ℕ → ℕ → Outcome (Option Bytes)
  find_octet_string zero buf pos end = unfinished
  find_octet_string (suc fuel) buf pos end = elim (ltb pos end) [
    | false ↦ ok none
    | true ↦ do
      tlv ← context (parse_tlv buf pos) "invalid EncapContentInfo child"
      elim (tlv.tag == 0xa0) [
        | true ↦ do
          octet ← context (parse_tlv buf tlv.content_start) "invalid eContent OCTET STRING"
          c ← content checks buf octet
          ok (some c)
        | false ↦ do next ← next_pos tlv; find_octet_string fuel buf next end
      ]
  ]

  unfoldable pub parse_econtent_info : ℕ → Bytes → ℕ → ℕ → Outcome (Text × Bytes)
  parse_econtent_info fuel buf start len = do
    end ← add_usize checks start len
    octet_string ← find_octet_string fuel buf start end
    econtent ← context octet_string "missing eContent OCTET STRING"
    hash_oid ← parse_lds_hash_algorithm_oid econtent
    ok (hash_oid, econtent)

  -- The loop of `parse_signer_info_signature_algorithm`.
  unfoldable pub signer_fields : ℕ → Bytes → ℕ → ℕ → ℕ → Outcome Text
  signer_fields zero buf pos end field_index = unfinished
  signer_fields (suc fuel) buf pos end field_index = elim (ltb pos end) [
    | false ↦ err (message "SignerInfo signature algorithm not found")
    | true ↦ do
      tlv ← context (parse_tlv buf pos) "invalid SignerInfo child"
      elim (tlv.tag == 0x30 && leb 3 field_index) [
        | true ↦ do
          oid ← context (parse_tlv buf tlv.content_start) "invalid SignerInfo signature OID"
          raw ← content checks buf oid
          ok (parse_oid_raw raw)
        | false ↦ do next ← next_pos tlv; signer_fields fuel buf next end (field_index + 1)
      ]
  ]

  unfoldable pub parse_signer_info_signature_algorithm : ℕ → Bytes → ℕ → ℕ → Outcome Text
  parse_signer_info_signature_algorithm fuel buf start len = do
    end ← add_usize checks start len
    signer_fields fuel buf start end 0

  -- The four tests in the loop of `parse_signed_data`, one after the other.
  unfoldable pub read_digest : Bytes → TlvHeader → ℕ → SignedData → Outcome SignedData
  read_digest buf tlv i s = elim (i == 1 && tlv.tag == 0x31) [
    | true ↦ do
      algo_seq ← context (parse_tlv buf tlv.content_start) "invalid digest algorithm set"
      oid ← context (parse_tlv buf algo_seq.content_start) "invalid digest algorithm oid"
      raw ← content checks buf oid
      ok (record s { digest = some (parse_oid_raw raw) })
    | false ↦ ok s
  ]

  unfoldable pub read_econtent : ℕ → Bytes → TlvHeader → ℕ → SignedData → Outcome SignedData
  read_econtent fuel buf tlv i s = elim (i == 2 && tlv.tag == 0x30) [
    | true ↦ do
      (hash_oid, c) ← parse_econtent_info fuel buf tlv.content_start tlv.content_length
      ok (record s { econtent_hash = some hash_oid; econtent = some c })
    | false ↦ ok s
  ]

  unfoldable pub read_certificate : Bytes → TlvHeader → ℕ → SignedData → Outcome SignedData
  read_certificate buf tlv i s = elim (tlv.tag == 0xa0 && leb 3 i) [
    | true ↦ do
      cert_seq ← context (parse_tlv buf tlv.content_start) "invalid certificate container"
      end ← add_usize checks cert_seq.content_start cert_seq.content_length
      der ← bytes_slice buf cert_seq.offset end
      parsed_cert ← context (parse_x509 der) "failed to parse embedded certificate: {error}"
      ok (record s {
        certificate = some der;
        certificate_signature = some parsed_cert.signature_algorithm;
      })
    | false ↦ ok s
  ]

  unfoldable pub read_signer : ℕ → Bytes → TlvHeader → ℕ → SignedData → Outcome SignedData
  read_signer fuel buf tlv i s = elim (tlv.tag == 0x31 && leb 4 i) [
    | true ↦ do
      signer_info ← context (parse_tlv buf tlv.content_start) "invalid signer info"
      oid ←
          parse_signer_info_signature_algorithm fuel buf signer_info.content_start
            signer_info.content_length
      ok (record s { signer_signature = some oid })
    | false ↦ ok s
  ]

  unfoldable pub read_field : ℕ → Bytes → TlvHeader → ℕ → SignedData → Outcome SignedData
  read_field fuel buf tlv i s = do
    s1 ← read_digest buf tlv i s
    s2 ← read_econtent fuel buf tlv i s1
    s3 ← read_certificate buf tlv i s2
    read_signer fuel buf tlv i s3

  -- The loop of `parse_signed_data`; the first number is for the loops within.
  unfoldable pub signed_fields : ℕ → ℕ → Bytes → ℕ → ℕ → ℕ → SignedData → Outcome SignedData
  signed_fields inner zero buf pos end i s = unfinished
  signed_fields inner (suc fuel) buf pos end i s = elim (ltb pos end) [
    | false ↦ ok s
    | true ↦ do
      tlv ← context (parse_tlv buf pos) "invalid SignedData child"
      s' ← read_field inner buf tlv i s
      next ← next_pos tlv
      signed_fields inner fuel buf next end (i + 1) s'
  ]

  -- The `Ok` of `parse_signed_data`: the first of its fields that was not found is the error.
  unfoldable pub envelope_of : SignedData → Outcome ParsedSodEnvelope
  envelope_of s = do
    der ← context s.certificate "certificate not found in SOD"
    cert_oid ← context s.certificate_signature "certificate signature algorithm not found"
    digest_oid ← context s.digest "digest algorithm not found"
    signer_oid ← context s.signer_signature "signer signature algorithm not found"
    hash_oid ← context s.econtent_hash "eContent hash algorithm not found"
    c ← context s.econtent "eContent not found"
    ok (record {
      certificate_der = der;
      certificate_signature_algorithm_oid = cert_oid;
      digest_algorithm_oid = digest_oid;
      signer_signature_algorithm_oid = signer_oid;
      econtent_hash_algorithm_oid = hash_oid;
      econtent = c;
    })

  unfoldable pub parse_signed_data : ℕ → Bytes → ℕ → ℕ → Outcome ParsedSodEnvelope
  parse_signed_data fuel buf start len = do
    end ← add_usize checks start len
    s ← signed_fields fuel fuel buf start end 0 no_signed_data
    envelope_of s

  -- The loop of `parse_sod_envelope`.
  unfoldable pub outer_fields : ℕ → ℕ → Bytes → ℕ → ℕ → Outcome ParsedSodEnvelope
  outer_fields inner zero sod pos end = unfinished
  outer_fields inner (suc fuel) sod pos end = elim (ltb pos end) [
    | false ↦ err (message "SignedData payload not found in SOD")
    | true ↦ do
      tlv ← context (parse_tlv sod pos) "invalid SOD outer child"
      elim (tlv.tag == 0xa0) [
        | true ↦ do
          signed_data ← context (parse_tlv sod tlv.content_start) "invalid SignedData"
          parse_signed_data inner sod signed_data.content_start signed_data.content_length
        | false ↦ do next ← next_pos tlv; outer_fields inner fuel sod next end
      ]
  ]

  -- Where the outer sequence begins: behind a wrapper with the tag 0x77, if there is one.
  unfoldable pub start_offset : Bytes → Outcome ℕ
  start_offset [] = ok 0
  start_offset (b ∷ bs) = elim (b == 0x77) [
    | true ↦ do
      wrapper ← context (parse_tlv (b ∷ bs) 0) "invalid SOD wrapper"
      ok wrapper.content_start
    | false ↦ ok 0
  ]

  -- `parse_sod_envelope` with so much fuel for each loop.
  unfoldable pub parse_sod_envelope_on : ℕ → Bytes → Outcome ParsedSodEnvelope
  parse_sod_envelope_on fuel sod = do
    offset ← start_offset sod
    outer ← context (parse_tlv sod offset) "invalid SOD outer sequence"
    outer_end ← add_usize checks outer.content_start outer.content_length
    outer_fields fuel fuel sod outer.content_start outer_end

  unfoldable pub parse_sod_envelope : Bytes → Outcome ParsedSodEnvelope
  unfolding parse_sod_envelope_on
  parse_sod_envelope sod = parse_sod_envelope_on (length sod + 1) sod
