-- ===== src/Resolution/Tokens.antt =====
-- The tokens: their names are told apart, and reading a name finds its token.
use vocdoni_passport_prover.Prelude.{
  ℕ, List, [], ◌∷◌, ◌≡◌, refl, arith, ok, ◌==◌, Option, some, ◌↔◌, inl, inr, Bool-cases, ap, sym,
  ◌∙◌,
}
use vocdoni_passport_prover.Prelude.Text.{
  Text, codes, text_eq, eq_of_text_eq, match_text, lower, upper, contains, remove,
  to_ascii_lowercase, to_ascii_uppercase,
}
use vocdoni_passport_prover.Resolution.{
  HashAlgorithmToken, sha1, sha224, sha256, sha384, sha512, normalize, hash_suffix, EcCurveToken,
  curve_suffix, from_zkpassport_name, zkpassport_names, nist_p192, nist_p224, nist_p256, nist_p384,
  nist_p521, brainpool160r1, brainpool160t1, brainpool192r1, brainpool192t1, brainpool224r1,
  brainpool224t1, brainpool256r1, brainpool256t1, brainpool320r1, brainpool320t1, brainpool384r1,
  brainpool384t1, brainpool512r1, brainpool512t1,
}

-- The inverse of `hash_suffix`.
read_hash : Text → Option HashAlgorithmToken
read_hash s = match_text s (
    (codes "sha1", sha1)
    ∷ (codes "sha224", sha224)
    ∷ (codes "sha256", sha256)
    ∷ (codes "sha384", sha384)
    ∷ (codes "sha512", sha512)
    ∷ [])

read_hash-hash_suffix : (h : HashAlgorithmToken) → read_hash (hash_suffix h) ≡ some h
unfolding read_hash hash_suffix match_text text_eq
read_hash-hash_suffix sha1 = refl
read_hash-hash_suffix _ = refl

pub hash_suffix-injective : (g h : HashAlgorithmToken) → hash_suffix g ≡ hash_suffix h → g ≡ h
hash_suffix-injective g h e = cc (read_hash-hash_suffix g, read_hash-hash_suffix h)

-- The inverse of `curve_suffix`.
read_curve : Text → Option EcCurveToken
read_curve s = match_text s (
    (codes "nist_p192", nist_p192)
    ∷ (codes "nist_p224", nist_p224)
    ∷ (codes "nist_p256", nist_p256)
    ∷ (codes "nist_p384", nist_p384)
    ∷ (codes "nist_p521", nist_p521)
    ∷ (codes "brainpool_160r1", brainpool160r1)
    ∷ (codes "brainpool_160t1", brainpool160t1)
    ∷ (codes "brainpool_192r1", brainpool192r1)
    ∷ (codes "brainpool_192t1", brainpool192t1)
    ∷ (codes "brainpool_224r1", brainpool224r1)
    ∷ (codes "brainpool_224t1", brainpool224t1)
    ∷ (codes "brainpool_256r1", brainpool256r1)
    ∷ (codes "brainpool_256t1", brainpool256t1)
    ∷ (codes "brainpool_320r1", brainpool320r1)
    ∷ (codes "brainpool_320t1", brainpool320t1)
    ∷ (codes "brainpool_384r1", brainpool384r1)
    ∷ (codes "brainpool_384t1", brainpool384t1)
    ∷ (codes "brainpool_512r1", brainpool512r1)
    ∷ (codes "brainpool_512t1", brainpool512t1)
    ∷ [])

read_curve-curve_suffix : (c : EcCurveToken) → read_curve (curve_suffix c) ≡ some c
unfolding read_curve curve_suffix match_text text_eq
read_curve-curve_suffix nist_p192 = refl
read_curve-curve_suffix _ = refl

pub curve_suffix-injective : (c d : EcCurveToken) → curve_suffix c ≡ curve_suffix d → c ≡ d
curve_suffix-injective c d e = cc (read_curve-curve_suffix c, read_curve-curve_suffix d)

-- The name that a curve goes by in the certificate registry.
abbrev pub zkpassport_name : EcCurveToken → Text
zkpassport_name nist_p192 = codes "P-192"
zkpassport_name nist_p224 = codes "P-224"
zkpassport_name nist_p256 = codes "P-256"
zkpassport_name nist_p384 = codes "P-384"
zkpassport_name nist_p521 = codes "P-521"
zkpassport_name brainpool160r1 = codes "brainpoolP160r1"
zkpassport_name brainpool160t1 = codes "brainpoolP160t1"
zkpassport_name brainpool192r1 = codes "brainpoolP192r1"
zkpassport_name brainpool192t1 = codes "brainpoolP192t1"
zkpassport_name brainpool224r1 = codes "brainpoolP224r1"
zkpassport_name brainpool224t1 = codes "brainpoolP224t1"
zkpassport_name brainpool256r1 = codes "brainpoolP256r1"
zkpassport_name brainpool256t1 = codes "brainpoolP256t1"
zkpassport_name brainpool320r1 = codes "brainpoolP320r1"
zkpassport_name brainpool320t1 = codes "brainpoolP320t1"
zkpassport_name brainpool384r1 = codes "brainpoolP384r1"
zkpassport_name brainpool384t1 = codes "brainpoolP384t1"
zkpassport_name brainpool512r1 = codes "brainpoolP512r1"
zkpassport_name brainpool512t1 = codes "brainpoolP512t1"

from_zkpassport_name-zkpassport_name :
    (c : EcCurveToken) → from_zkpassport_name (zkpassport_name c) ≡ ok c
unfolding from_zkpassport_name match_text text_eq
from_zkpassport_name-zkpassport_name nist_p192 = refl
from_zkpassport_name-zkpassport_name _ = refl

abbrev NamesIts : List (Text × EcCurveToken) → Type 0
NamesIts [] = Unit
NamesIts ((k, c) ∷ arms) = (k ≡ zkpassport_name c) × NamesIts arms

match_text-NamesIts :
    (s : Text) (c : EcCurveToken) (arms : List (Text × EcCurveToken))
    → NamesIts arms
    → match_text s arms ≡ some c
    → s ≡ zkpassport_name c
unfolding match_text
match_text-NamesIts s c [] n e = cc
match_text-NamesIts s c ((k, d) ∷ arms) n e = elim (Bool-cases (text_eq s k)) [
  | inl h ↦ cc (eq_of_text_eq s k h, n.0, rw (h, match_text) at e)
  | inr h ↦ match_text-NamesIts s c arms n.1 (rw (h, match_text) at e)
]

zkpassport_names-NamesIts : NamesIts zkpassport_names
zkpassport_names-NamesIts = (
  refl,
  (
    refl,
    (
      refl,
      (
        refl,
        (
          refl,
          (
            refl,
            (
              refl,
              (
                refl,
                (
                  refl,
                  (
                    refl,
                    (refl, (refl, (refl, (refl, (refl, (refl, (refl, (refl, (refl, tt))))))))),
                  ),
                ),
              ),
            ),
          ),
        ),
      ),
    ),
  ),
)

from_zkpassport_name-eq-ok :
    (s : Text) (c : EcCurveToken) → from_zkpassport_name s ≡ ok c → s ≡ zkpassport_name c
unfolding from_zkpassport_name
from_zkpassport_name-eq-ok s c e =
    match_text-NamesIts s c zkpassport_names zkpassport_names-NamesIts (ground arith)

-- Each curve is read from its registry name, and from no other.
from_zkpassport_name_iff :
    (s : Text) (c : EcCurveToken) → (from_zkpassport_name s ≡ ok c) ↔ (s ≡ zkpassport_name c)
from_zkpassport_name_iff s c =
    (from_zkpassport_name-eq-ok s c, λ e. rw e (from_zkpassport_name-zkpassport_name c))

-- Upper and lower case spell the same hash.
lower-upper : (c : ℕ) → lower (upper c) ≡ lower c
unfolding lower upper
lower-upper c = ground arith

to_ascii_lowercase-to_ascii_uppercase :
    (s : Text) → to_ascii_lowercase (to_ascii_uppercase s) ≡ to_ascii_lowercase s
unfolding to_ascii_lowercase to_ascii_uppercase lower upper
to_ascii_lowercase-to_ascii_uppercase [] = refl
to_ascii_lowercase-to_ascii_uppercase (c ∷ s) =
    cc (lower-upper c, to_ascii_lowercase-to_ascii_uppercase s)

lower-dash : (c : ℕ) → (lower c == b'-') ≡ (c == b'-')
unfolding lower
lower-dash c = ground arith

remove_dash-lower :
    (s : Text)
    → remove (λ c. c == b'-') (to_ascii_lowercase (remove (λ c. c == b'-') s))
      ≡ remove (λ c. c == b'-') (to_ascii_lowercase s)
unfolding remove to_ascii_lowercase
remove_dash-lower [] = refl
remove_dash-lower (c ∷ s) = ground (arith, lower-dash c, remove_dash-lower s)

normalize-hash_suffix : (h : HashAlgorithmToken) → normalize (hash_suffix h) ≡ h
unfolding normalize hash_suffix contains remove to_ascii_lowercase
normalize-hash_suffix sha1 = refl
normalize-hash_suffix _ = refl

-- Only the text without case and hyphens counts.
normalize-of_same :
    (s t : Text)
    → remove (λ c. c == b'-') (to_ascii_lowercase s)
      ≡ remove (λ c. c == b'-') (to_ascii_lowercase t)
    → normalize s ≡ normalize t
unfolding normalize
normalize-of_same s t e = rw (e, normalize)

plain-hash_suffix :
    (h : HashAlgorithmToken)
    → remove (λ c. c == b'-') (to_ascii_lowercase (hash_suffix h)) ≡ hash_suffix h
unfolding hash_suffix remove to_ascii_lowercase
plain-hash_suffix sha1 = refl
plain-hash_suffix _ = refl

-- Reading the name of a hash does not depend on its case and its hyphens: whatever spells a
-- circuit name's hash suffix up to these reads as that hash.
pub normalize_spelling :
    (h : HashAlgorithmToken) (s : Text)
    → (normalize (to_ascii_uppercase s) ≡ normalize s)
      × (normalize (remove (λ c. c == b'-') s) ≡ normalize s)
      × (remove (λ c. c == b'-') (to_ascii_lowercase s) ≡ hash_suffix h → normalize s ≡ h)
normalize_spelling h s = (
  normalize-of_same (to_ascii_uppercase s) s
      (ap (remove (λ c. c == b'-')) (to_ascii_lowercase-to_ascii_uppercase s)),
  normalize-of_same (remove (λ c. c == b'-') s) s (remove_dash-lower s),
  λ e.
      normalize-of_same s (hash_suffix h) (e ∙ sym (plain-hash_suffix h)) ∙ normalize-hash_suffix h,
)
