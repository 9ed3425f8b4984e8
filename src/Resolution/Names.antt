-- ===== src/Resolution/Names.antt =====
-- The circuit names tell the contexts apart, and resolving finds them in the manifest.
use vocdoni_passport_prover.Prelude.{
  ℕ, List, [], ◌∷◌, ◌++◌, ◌≡◌, inl, inr, refl, sym, ap, ◌∙◌, arith, some, none, Option-cases,
  Outcome, ok, err, detail, All, >>=-eq-ok, ◌>>◌,
}
use vocdoni_passport_prover.Prelude.Text.{
  Text, codes, match_text, show_nat, show_nat-injective, show_nat-All-IsDigit, IsDigit-Lacks, Lacks,
  front_of_sep, back_of_sep, append-cancel_left,
}
use vocdoni_passport_prover.Resolution.{
  HashAlgorithmToken, sha1, hash_suffix, SignatureKey, ecdsa, rsa_pkcs, rsa_pss, key_suffix,
  SignatureCircuitSpec, DocumentCircuitContext, ResolvedDocumentCircuits, Manifest, ManifestCircuit,
  spec_suffix, dsc_circuit_name, id_data_circuit_name, integrity_circuit_name, check_names,
  resolve_document_circuits,
}
use vocdoni_passport_prover.Resolution.Tokens.{hash_suffix-injective, curve_suffix-injective}

hash_suffix-Lacks : (h : HashAlgorithmToken) → Lacks b'_' (hash_suffix h)
unfolding hash_suffix
hash_suffix-Lacks sha1 = omega arith
hash_suffix-Lacks _ = omega arith

key_suffix-injective : (j k : SignatureKey) → key_suffix j ≡ key_suffix k → j ≡ k
unfolding key_suffix
key_suffix-injective (ecdsa c) (ecdsa d) e =
    ap ecdsa (curve_suffix-injective c d (append-cancel_left (codes "ecdsa_") _ _ e))
key_suffix-injective (ecdsa c) (rsa_pkcs n) e = ground arith
key_suffix-injective (ecdsa c) (rsa_pss n) e = ground arith
key_suffix-injective (rsa_pkcs m) (ecdsa d) e = ground arith
key_suffix-injective (rsa_pkcs m) (rsa_pkcs n) e =
    ap rsa_pkcs (show_nat-injective m n (append-cancel_left (codes "rsa_pkcs_") _ _ e))
key_suffix-injective (rsa_pkcs m) (rsa_pss n) e = ground arith
key_suffix-injective (rsa_pss m) (ecdsa d) e = ground arith
key_suffix-injective (rsa_pss m) (rsa_pkcs n) e = ground arith
key_suffix-injective (rsa_pss m) (rsa_pss n) e =
    ap rsa_pss (show_nat-injective m n (append-cancel_left (codes "rsa_pss_") _ _ e))

show_nat-Lacks : (n : ℕ) → Lacks b'_' (show_nat n)
show_nat-Lacks n = IsDigit-Lacks b'_' (show_nat n) (omega arith) (show_nat-All-IsDigit n)

-- The suffix of a signature circuit's name determines the bucket, the key and the hash.
spec_suffix-injective : (s t : SignatureCircuitSpec) → spec_suffix s ≡ spec_suffix t → s ≡ t
unfolding spec_suffix
spec_suffix-injective s t e =
    let (bucket, rest) =
      front_of_sep b'_' (show_nat s.tbs_bucket) (show_nat t.tbs_bucket) _ _
        (show_nat-Lacks s.tbs_bucket) (show_nat-Lacks t.tbs_bucket) e in
    let (key, hash) =
      back_of_sep b'_' (key_suffix s.key) (key_suffix t.key) (hash_suffix s.hash)
        (hash_suffix t.hash) (hash_suffix-Lacks s.hash) (hash_suffix-Lacks t.hash) rest in
    λ i. record {
      tbs_bucket = show_nat-injective s.tbs_bucket t.tbs_bucket bucket i;
      key = key_suffix-injective s.key t.key key i;
      hash = hash_suffix-injective s.hash t.hash hash i;
    }

abbrev names_of : DocumentCircuitContext → List Text
names_of c =
    dsc_circuit_name c ∷ id_data_circuit_name c ∷ integrity_circuit_name c ∷ c.outer_circuit ∷ []

abbrev pub resolved_of : DocumentCircuitContext → ResolvedDocumentCircuits
resolved_of c = record {
  dsc_name = dsc_circuit_name c;
  id_data_name = id_data_circuit_name c;
  integrity_name = integrity_circuit_name c;
  outer_name = c.outer_circuit;
}

resolve_document_circuits-names :
    (m : Manifest) (c : DocumentCircuitContext) (r : ResolvedDocumentCircuits)
    → resolve_document_circuits m c ≡ ok r
    → r ≡ resolved_of c
unfolding resolve_document_circuits
resolve_document_circuits-names m c r e =
    let (u, h, f) = >>=-eq-ok (check_names m (names_of c)) _ e in cc f

resolved_of-injective : (c d : DocumentCircuitContext) → resolved_of c ≡ resolved_of d → c ≡ d
unfolding dsc_circuit_name id_data_circuit_name integrity_circuit_name
resolved_of-injective c d e =
    let dsc = spec_suffix-injective c.dsc d.dsc (
      append-cancel_left (codes "sig_check_dsc_tbs_") _ _
        (ap (λ (r : ResolvedDocumentCircuits). r.dsc_name) e)) in
    let id_data = spec_suffix-injective c.id_data d.id_data (
      append-cancel_left (codes "sig_check_id_data_tbs_") _ _
        (ap (λ (r : ResolvedDocumentCircuits). r.id_data_name) e)) in
    let whole =
      append-cancel_left (codes "data_check_integrity_sa_") _ _
        (ap (λ (r : ResolvedDocumentCircuits). r.integrity_name) e) in
    let tail =
      front_of_sep b'_' (hash_suffix c.id_data.hash) (hash_suffix d.id_data.hash) _ _
        (hash_suffix-Lacks c.id_data.hash) (hash_suffix-Lacks d.id_data.hash) whole in
    let dg =
      hash_suffix-injective c.dg_hash d.dg_hash (append-cancel_left (codes "dg_") _ _ tail.1) in
    λ i. record {
      dsc = dsc i;
      id_data = id_data i;
      dg_hash = dg i;
      outer_circuit = (e i).outer_name;
    }

-- The four names determine the context: two contexts, resolved against whatever manifests, that
-- select the same circuits are the same in every field.
pub resolve_document_circuits-injective :
    (m n : Manifest) (c d : DocumentCircuitContext) (r : ResolvedDocumentCircuits)
    → resolve_document_circuits m c ≡ ok r
    → resolve_document_circuits n d ≡ ok r
    → c ≡ d
resolve_document_circuits-injective m n c d r h k =
    resolved_of-injective c d
      (sym (resolve_document_circuits-names m c r h) ∙ resolve_document_circuits-names n d r k)

abbrev pub InManifest : Manifest → Text → Type 0
InManifest m n = (node : ManifestCircuit) × (match_text n m.circuits ≡ some node)

-- The names in front of the one that is missing are there.
pub record FirstMissing (m : Manifest) (names : List Text) (n : Text) : Type 0 where
  pub before : List Text
  pub after : List Text
  pub splits : names ≡ before ++ n ∷ after
  pub there : All (InManifest m) before
  pub missing : match_text n m.circuits ≡ none

-- What looking up some names in a manifest comes to.
pub data Lookup (m : Manifest) (names : List Text) : Outcome (Unit {0}) → Type 0 where
  all_there : All (InManifest m) names → Lookup m names (ok tt)
  one_missing :
      (n : Text)
      → FirstMissing m names n
      → Lookup m names (err (detail "derived circuit not found in manifest: {name}" (n ∷ [])))

Lookup-cons :
    (m : Manifest) (n : Text) (ns : List Text) {o : Outcome (Unit {0})}
    → InManifest m n
    → Lookup m ns o
    → Lookup m (n ∷ ns) o
Lookup-cons m n ns h (all_there a) = all_there (h, a)
Lookup-cons m n ns h (one_missing k f) = one_missing k (record {
  before = n ∷ f.before;
  after = f.after;
  splits = ap (◌∷◌ n) f.splits;
  there = (h, f.there);
  missing = f.missing;
})

check_names-Lookup : (m : Manifest) (ns : List Text) → Lookup m ns (check_names m ns)
unfolding check_names
check_names-Lookup m [] = all_there tt
check_names-Lookup m (n ∷ ns) = elim (Option-cases (match_text n m.circuits)) [
  | inl h ↦
      rw (h, check_names)
        (one_missing n (record { before = []; after = ns; splits = refl; there = tt; missing = h }))
  | inr (node, h) ↦ rw (h, check_names) (Lookup-cons m n ns (node, h) (check_names-Lookup m ns))
]

-- What resolving a context comes to: all four names, each in the manifest, or an error that names
-- the first one which the manifest lacks.
pub data Resolves (m : Manifest) (c : DocumentCircuitContext)
    : Outcome ResolvedDocumentCircuits → Type 0 where
  found : All (InManifest m) (names_of c) → Resolves m c (ok (resolved_of c))
  lacking :
      (n : Text)
      → FirstMissing m (names_of c) n
      → Resolves m c (err (detail "derived circuit not found in manifest: {name}" (n ∷ [])))

Resolves-Lookup :
    (m : Manifest) (c : DocumentCircuitContext) {o : Outcome (Unit {0})}
    → Lookup m (names_of c) o
    → Resolves m c (o >> ok (resolved_of c))
Resolves-Lookup m c (all_there a) = found a
Resolves-Lookup m c (one_missing n f) = lacking n f

-- Resolving a context either finds all four names in the manifest and returns them, or fails with
-- the first name, in their order, that the manifest lacks.
pub resolve_document_circuits-Resolves :
    (m : Manifest) (c : DocumentCircuitContext) → Resolves m c (resolve_document_circuits m c)
unfolding resolve_document_circuits
resolve_document_circuits-Resolves m c = Resolves-Lookup m c (check_names-Lookup m (names_of c))
