-- ===== src/Analysis/Documents.antt =====
-- What `analyze_document` makes of the signatures and of the key of a document.
use vocdoni_passport_prover.Prelude.{
  ◌≡◌, refl, ap, subst, ◌∙◌, Bool, some, [], ◌++◌, ok, context, >>=-eq-ok,
}
use vocdoni_passport_prover.Prelude.Text.{Text, codes, starts_with, text_eq}
use vocdoni_passport_prover.Types.{DocumentInput, validate_document}
use vocdoni_passport_prover.Resolution.{HashAlgorithmToken, sha256, EcCurveToken, SignatureKey}
use vocdoni_passport_prover.Mrz.{MrzFields, extract_mrz_from_dg1, parse_mrz}
use vocdoni_passport_prover.Sod.{Certificate, ParsedSodEnvelope, parse_sod_envelope}
use vocdoni_passport_prover.Analysis.{
  DocumentAnalysis, Libraries, bucket_tbs_len, oid_ec_public_key, signature_algorithm_family,
  hash_or_normalize, hash_from_signature_and_digest_oids, parameters_of,
  parse_subject_public_key_info, analysis_of, analyze_document,
}
use vocdoni_passport_prover.Analysis.Algorithms.{
  Signature, signature_oid, signature_hash, signature_family, Unread, rsa_pss, unread_oid,
  hash_from_signature_and_digest_oids-Signature, hash_from_signature_and_digest_oids-Unread,
}
use vocdoni_passport_prover.Analysis.Keys.{curve_oid}

-- Algorithms of a signature: one of the eight that are read, one of the three that are not, or one
-- of the OIW arc, with what stands behind the arc.
pub data Algorithm : Type 0 where
  read : Signature → Algorithm
  unread : Unread → Algorithm
  oiw : Text → Algorithm

abbrev pub algorithm_oid : Algorithm → Text
algorithm_oid (read s) = signature_oid s
algorithm_oid (unread u) = unread_oid u
algorithm_oid (oiw tail) = codes "1.3.14.3.2." ++ tail

-- The hash that is taken, where the digest of the signed attributes has the given one.
abbrev pub taken_hash : Algorithm → HashAlgorithmToken → HashAlgorithmToken
taken_hash (read s) digest = signature_hash s
taken_hash (unread u) digest = digest
taken_hash (oiw tail) digest = sha256

abbrev unread_family : Unread → Text
unread_family rsa_pss = codes "RSA-PSS"
unread_family _ = codes "ECDSA"

abbrev pub taken_family : Algorithm → Text
taken_family (read s) = signature_family s
taken_family (unread u) = unread_family u
taken_family (oiw tail) = codes "UNKNOWN"

unread_oid-family : (u : Unread) → signature_algorithm_family (unread_oid u) ≡ unread_family u
unfolding signature_algorithm_family starts_with text_eq
unread_oid-family rsa_pss = refl
unread_oid-family _ = refl

oiw_family :
    (tail : Text) → signature_algorithm_family (codes "1.3.14.3.2." ++ tail) ≡ codes "UNKNOWN"
unfolding signature_algorithm_family starts_with text_eq
oiw_family tail = refl

algorithm_oid-hash :
    (x : Algorithm) (digest : Text)
    → hash_from_signature_and_digest_oids (algorithm_oid x) digest
      ≡ taken_hash x (hash_or_normalize digest)
algorithm_oid-hash (read s) digest = (hash_from_signature_and_digest_oids-Signature s digest).0
algorithm_oid-hash (unread u) digest = (hash_from_signature_and_digest_oids-Unread u digest []).0
algorithm_oid-hash (oiw tail) digest =
    (hash_from_signature_and_digest_oids-Unread rsa_pss digest tail).2

algorithm_oid-no_digest :
    (x : Algorithm) → hash_from_signature_and_digest_oids (algorithm_oid x) [] ≡ taken_hash x sha256
algorithm_oid-no_digest (read s) = (hash_from_signature_and_digest_oids-Signature s []).0
algorithm_oid-no_digest (unread u) = (hash_from_signature_and_digest_oids-Unread u [] []).1
algorithm_oid-no_digest (oiw tail) = (hash_from_signature_and_digest_oids-Unread rsa_pss [] tail).2

algorithm_oid-family :
    (x : Algorithm) → signature_algorithm_family (algorithm_oid x) ≡ taken_family x
algorithm_oid-family (read s) = (hash_from_signature_and_digest_oids-Signature s []).1
algorithm_oid-family (unread u) = unread_oid-family u
algorithm_oid-family (oiw tail) = oiw_family tail

pub ok-injective {ℓ} : {A : Type ℓ} {x y : A} → ok x ≡ ok y → x ≡ y
ok-injective h = cc

module _ (checks : Bool) (libs : Libraries) (document : DocumentInput) where
  -- The parts of an analysis that came to its end.
  record Parts (a : DocumentAnalysis) : Type 0 where
    pub mrz : Text
    pub fields : MrzFields
    pub sod : ParsedSodEnvelope
    pub cert : Certificate
    pub key : SignatureKey
    pub parsed :
        context (libs.parse_x509 sod.certificate_der) "failed to parse DSC certificate: {error}"
        ≡ ok cert
    pub read_key :
        parse_subject_public_key_info checks cert.key_algorithm
          (parameters_of cert.key_parameters)
          cert.public_key
        ≡ ok key
    pub made : analysis_of libs document mrz fields sod cert key ≡ a

  analyze_document-Parts :
      (a : DocumentAnalysis) → analyze_document checks libs document ≡ ok a → Parts a
  unfolding analyze_document
  analyze_document-Parts a h =
      let (_, _, k0) = >>=-eq-ok (validate_document document) _ h in
      let (dg1, _, k1) =
        >>=-eq-ok (context (libs.decode_base64 document.dg1_base64) "failed to decode dg1_base64") _
          k0 in
      let (sod, _, k2) =
        >>=-eq-ok
          (context (libs.decode_base64 document.sod_der_base64) "failed to decode sod_der_base64") _
          k1 in
      let (mrz, _, k3) = >>=-eq-ok (extract_mrz_from_dg1 dg1) _ k2 in
      let (fields, _, k4) = >>=-eq-ok (parse_mrz mrz) _ k3 in
      let (parsed_sod, _, k5) = >>=-eq-ok (parse_sod_envelope checks libs.parse_x509 sod) _ k4 in
      let (cert, h6, k6) =
        >>=-eq-ok (context (libs.parse_x509 parsed_sod.certificate_der) _) _ k5 in
      let (key, h7, k7) =
        >>=-eq-ok
          (parse_subject_public_key_info checks cert.key_algorithm
            (parameters_of cert.key_parameters) cert.public_key)
          _ k6 in
      record {
        mrz = mrz;
        fields = fields;
        sod = parsed_sod;
        cert = cert;
        key = key;
        parsed = h6;
        read_key = h7;
        made = ok-injective k7;
      }

  analysis_of-signatures :
      (mrz : Text) (fields : MrzFields) (sod : ParsedSodEnvelope) (cert : Certificate)
      (key : SignatureKey) (n m : Algorithm)
      → sod.certificate_signature_algorithm_oid ≡ algorithm_oid n
      → sod.signer_signature_algorithm_oid ≡ algorithm_oid m
      → let a = analysis_of libs document mrz fields sod cert key in
        (a.dsc_signature_hash ≡ taken_hash n sha256)
        × (a.dsc_parent_signature_algorithm ≡ taken_family n)
        × (a.sod_signature_hash ≡ taken_hash m (hash_or_normalize a.sod_digest_algorithm_oid))
  unfolding analysis_of
  analysis_of-signatures mrz fields sod cert key n m p q = (
    ap (λ x. hash_from_signature_and_digest_oids x []) p ∙ algorithm_oid-no_digest n,
    ap signature_algorithm_family p ∙ algorithm_oid-family n,
    ap (λ x. hash_from_signature_and_digest_oids x sod.digest_algorithm_oid) q
        ∙ algorithm_oid-hash m sod.digest_algorithm_oid,
  )

  -- What an analysis says about the algorithms of its two signatures, if their identifiers are of
  -- these: RSA with one of five hashes or ECDSA with SHA-256, SHA-384 or SHA-512, where the
  -- identifier selects its hash; RSA-PSS, ECDSA with SHA-1 and ECDSA with SHA-224, where the signer's
  -- takes the hash of the digest algorithm and the certificate's is always SHA-256; and any
  -- identifier of the OIW arc 1.3.14.3.2, such as that of SHA-1 with RSA, where both are SHA-256. The
  -- certificate's family is RSA, ECDSA, RSA-PSS, or UNKNOWN for the OIW arc.
  pub analyze_document-Algorithm :
      (a : DocumentAnalysis) (n m : Algorithm)
      → analyze_document checks libs document ≡ ok a
      → a.dsc_signature_algorithm_oid ≡ algorithm_oid n
      → a.sod_signature_algorithm_oid ≡ algorithm_oid m
      → (a.dsc_signature_hash ≡ taken_hash n sha256)
        × (a.dsc_parent_signature_algorithm ≡ taken_family n)
        × (a.sod_signature_hash ≡ taken_hash m (hash_or_normalize a.sod_digest_algorithm_oid))
  unfolding analysis_of
  analyze_document-Algorithm a n m h p q =
      let r = analyze_document-Parts a h in
      subst
        (λ (x : DocumentAnalysis).
          (x.dsc_signature_hash ≡ taken_hash n sha256)
          × (x.dsc_parent_signature_algorithm ≡ taken_family n)
          × (x.sod_signature_hash ≡ taken_hash m (hash_or_normalize x.sod_digest_algorithm_oid)))
        r.made
        (analysis_of-signatures r.mrz r.fields r.sod r.cert r.key n m
          (ap (λ (x : DocumentAnalysis). x.dsc_signature_algorithm_oid) r.made ∙ p)
          (ap (λ (x : DocumentAnalysis). x.sod_signature_algorithm_oid) r.made ∙ q))

  -- The key of a certificate on a named curve, with the parameters that the X.509 parser gives: the
  -- content octets of the curve's identifier.
  abbrev pub OnCurve : EcCurveToken → Certificate → Type 0
  OnCurve c cert =
      (cert.key_algorithm ≡ oid_ec_public_key) × (cert.key_parameters ≡ some (curve_oid c))

  -- The bucket of an analysis is that of the length it states.
  pub analyze_document-bucket :
      (a : DocumentAnalysis)
      → analyze_document checks libs document ≡ ok a
      → a.tbs_bucket ≡ bucket_tbs_len a.tbs_len
  unfolding analysis_of
  analyze_document-bucket a h =
      let r = analyze_document-Parts a h in
      subst (λ (x : DocumentAnalysis). x.tbs_bucket ≡ bucket_tbs_len x.tbs_len) r.made refl
