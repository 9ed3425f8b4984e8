-- ===== src/Analysis/Tests.antt =====
-- Sample sizes, identifiers and keys, and the theorems at them.
use vocdoni_passport_prover.Prelude.{
  refl, some, ℕ, ◌*◌, ◌≤◌, ◌<◌, true, [], ◌∷◌, ◌≡◌, arith, length, ok,
}
use vocdoni_passport_prover.Resolution.{sha256, nist_p256, rsa_pkcs, rsa_pss}
use vocdoni_passport_prover.Der.Encoding.{encode_tlv, encode_length}
use vocdoni_passport_prover.Analysis.{
  bucket_tbs_len, hash_or_normalize, oid_ec_public_key, oid_rsa_encryption, oid_rsassa_pss,
  parse_subject_public_key_info,
}
use vocdoni_passport_prover.Analysis.Bucket.{IsBucket, bucket_tbs_len_least}
use vocdoni_passport_prover.Analysis.Algorithms.{rsa_pss as pss_signature}
use vocdoni_passport_prover.Analysis.{Libraries}
use vocdoni_passport_prover.Analysis.Example.{analysis, analyzed, libs, document, certificate}
use vocdoni_passport_prover.Analysis.Documents.{
  unread, taken_hash, taken_family, analyze_document-Algorithm,
}
use vocdoni_passport_prover.Sod.{Certificate}
use vocdoni_passport_prover.Analysis.Keys.{
  curve_oid, rsa_key, parse_subject_public_key_info-rsa_key,
}

bucket_tbs_len_least_example :
    IsBucket (bucket_tbs_len 1700)
    × ((m : ℕ) → m ≤ 1700 → bucket_tbs_len m ≤ bucket_tbs_len 1700)
    × (1700 ≤ 1600 → 1700 ≤ bucket_tbs_len 1700)
    × ((b : ℕ) → IsBucket b → 1700 ≤ b → bucket_tbs_len 1700 ≤ b)
    × (1600 < 1700 → (bucket_tbs_len 1700 ≡ 1600) × (bucket_tbs_len 1700 < 1700))
bucket_tbs_len_least_example = bucket_tbs_len_least 1700

analyze_document-Algorithm_example :
    (analysis.dsc_signature_hash ≡ taken_hash (unread pss_signature) sha256)
    × (analysis.dsc_parent_signature_algorithm ≡ taken_family (unread pss_signature))
    × (analysis.sod_signature_hash
        ≡ taken_hash (unread pss_signature) (hash_or_normalize analysis.sod_digest_algorithm_oid))
analyze_document-Algorithm_example =
    analyze_document-Algorithm true libs document analysis (unread pss_signature)
      (unread pss_signature) analyzed refl refl

-- The same document with a certificate that has a key on the curve P-256.
abbrev on_curve : Certificate
on_curve = record certificate {
  key_algorithm = oid_ec_public_key;
  key_parameters = some (curve_oid nist_p256);
}

abbrev curve_libs : Libraries
curve_libs = record libs { parse_x509 = λ der. some on_curve }

-- A modulus of four bytes and the exponent 65537.
rsa_key_small :
    length (rsa_key (0 ∷ 0xff ∷ 1 ∷ 2 ∷ 3 ∷ []) (1 ∷ 0 ∷ 1 ∷ [])) < 0x1_0000_0000_0000_0000
unfolding rsa_key encode_tlv encode_length
rsa_key_small = omega arith

parse_subject_public_key_info-rsa_key_example :
    (parse_subject_public_key_info true oid_rsa_encryption []
        (rsa_key (0 ∷ 0xff ∷ 1 ∷ 2 ∷ 3 ∷ []) (1 ∷ 0 ∷ 1 ∷ []))
      ≡ ok (rsa_pkcs (8 * length {A = ℕ} (0xff ∷ 1 ∷ 2 ∷ 3 ∷ []))))
    × (parse_subject_public_key_info true oid_rsassa_pss []
          (rsa_key (0 ∷ 0xff ∷ 1 ∷ 2 ∷ 3 ∷ []) (1 ∷ 0 ∷ 1 ∷ []))
        ≡ ok (rsa_pss (8 * length {A = ℕ} (0xff ∷ 1 ∷ 2 ∷ 3 ∷ []))))
parse_subject_public_key_info-rsa_key_example =
    parse_subject_public_key_info-rsa_key true (0xff ∷ 1 ∷ 2 ∷ 3 ∷ []) (1 ∷ 0 ∷ 1 ∷ []) []
      rsa_key_small (omega arith)
