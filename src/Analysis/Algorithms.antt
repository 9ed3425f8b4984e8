-- ===== src/Analysis/Algorithms.antt =====
-- The hash and the family that an algorithm's identifier selects, against the standards.
use vocdoni_passport_prover.Prelude.{[], ◌++◌, ◌≡◌, refl}
use vocdoni_passport_prover.Prelude.Text.{
  Text, codes, text_eq, contains, starts_with, ends_with, match_text, to_ascii_lowercase, remove,
}
use vocdoni_passport_prover.Resolution.{
  HashAlgorithmToken, sha1, sha224, sha256, sha384, sha512, normalize,
}
use vocdoni_passport_prover.Analysis.{
  signature_algorithm_family, hash_or_normalize, hash_from_signature_and_digest_oids,
}

-- Signature algorithms whose identifier selects their hash in the code.
pub data Signature : Type 0 where
  rsa_sha1 rsa_sha224 rsa_sha256 rsa_sha384 rsa_sha512 : Signature
  ecdsa_sha256 ecdsa_sha384 ecdsa_sha512 : Signature

-- Their identifiers (RFC 8017, RFC 5758).
abbrev pub signature_oid : Signature → Text
signature_oid rsa_sha1 = codes "1.2.840.113549.1.1.5"
signature_oid rsa_sha224 = codes "1.2.840.113549.1.1.14"
signature_oid rsa_sha256 = codes "1.2.840.113549.1.1.11"
signature_oid rsa_sha384 = codes "1.2.840.113549.1.1.12"
signature_oid rsa_sha512 = codes "1.2.840.113549.1.1.13"
signature_oid ecdsa_sha256 = codes "1.2.840.10045.4.3.2"
signature_oid ecdsa_sha384 = codes "1.2.840.10045.4.3.3"
signature_oid ecdsa_sha512 = codes "1.2.840.10045.4.3.4"

abbrev pub signature_hash : Signature → HashAlgorithmToken
signature_hash rsa_sha1 = sha1
signature_hash rsa_sha224 = sha224
signature_hash rsa_sha256 = sha256
signature_hash rsa_sha384 = sha384
signature_hash rsa_sha512 = sha512
signature_hash ecdsa_sha256 = sha256
signature_hash ecdsa_sha384 = sha384
signature_hash ecdsa_sha512 = sha512

abbrev pub signature_family : Signature → Text
signature_family ecdsa_sha256 = codes "ECDSA"
signature_family ecdsa_sha384 = codes "ECDSA"
signature_family ecdsa_sha512 = codes "ECDSA"
signature_family _ = codes "RSA"

-- Each of these eight identifiers selects its hash, whatever the digest identifier, and its family.
pub hash_from_signature_and_digest_oids-Signature :
    (s : Signature) (digest : Text)
    → (hash_from_signature_and_digest_oids (signature_oid s) digest ≡ signature_hash s)
      × (signature_algorithm_family (signature_oid s) ≡ signature_family s)
unfolding hash_from_signature_and_digest_oids signature_algorithm_family contains ends_with
    starts_with text_eq
hash_from_signature_and_digest_oids-Signature rsa_sha1 digest = (refl, refl)
hash_from_signature_and_digest_oids-Signature _ digest = (refl, refl)

-- Signature algorithms whose identifier selects no hash in the code.
pub data Unread : Type 0 where
  rsa_pss ecdsa_sha1 ecdsa_sha224 : Unread

abbrev pub unread_oid : Unread → Text
unread_oid rsa_pss = codes "1.2.840.113549.1.1.10"
unread_oid ecdsa_sha1 = codes "1.2.840.10045.4.1"
unread_oid ecdsa_sha224 = codes "1.2.840.10045.4.3.1"

-- Every identifier of the OIW arc 1.3.14.3.2, such as 1.3.14.3.2.29 for SHA-1 with RSA, selects
-- SHA-256, since its text contains "4.3.2".
hash_from_signature_and_digest_oids_oiw :
    (tail digest : Text)
    → hash_from_signature_and_digest_oids (codes "1.3.14.3.2." ++ tail) digest ≡ sha256
unfolding hash_from_signature_and_digest_oids contains starts_with
hash_from_signature_and_digest_oids_oiw tail digest = refl

-- RSA-PSS, ECDSA with SHA-1 and ECDSA with SHA-224 take the hash of the digest identifier, and
-- SHA-256 if that is empty. Every identifier of the OIW arc 1.3.14.3.2, such as that of SHA-1
-- with RSA, selects SHA-256, since its text contains "4.3.2".
pub hash_from_signature_and_digest_oids-Unread :
    (u : Unread) (digest tail : Text)
    → (hash_from_signature_and_digest_oids (unread_oid u) digest ≡ hash_or_normalize digest)
      × (hash_from_signature_and_digest_oids (unread_oid u) [] ≡ sha256)
      × (hash_from_signature_and_digest_oids (codes "1.3.14.3.2." ++ tail) digest ≡ sha256)
unfolding hash_from_signature_and_digest_oids contains ends_with starts_with text_eq match_text
    normalize to_ascii_lowercase remove
hash_from_signature_and_digest_oids-Unread rsa_pss digest tail =
    (refl, refl, hash_from_signature_and_digest_oids_oiw tail digest)
hash_from_signature_and_digest_oids-Unread _ digest tail =
    (refl, refl, hash_from_signature_and_digest_oids_oiw tail digest)
