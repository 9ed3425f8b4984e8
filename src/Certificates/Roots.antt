-- ===== src/Certificates/Roots.antt =====
-- The root of the certificates that `fetch_certificates` returns.
use vocdoni_passport_prover.Prelude.{
  Option, none, some, [], ◌∷◌, ◌≡◌, subst, inl, inr, Bool-cases, Option-cases, Error, Outcome,
  ◌>>=◌, context, detail, message, ok, err, panic, unfinished, >>=-eq-ok,
}
use vocdoni_passport_prover.Prelude.Text.{Text, codes, text_eq, eq_of_text_eq, is_empty}
use vocdoni_passport_prover.Web.{
  decode_json_bytes, body_of, within, body, Reply, unreachable, refused, cut_off,
}
use vocdoni_passport_prover.Json.{Value, get_key, as_str}
use vocdoni_passport_prover.Der.{Bytes}
use vocdoni_passport_prover.Certificates.{
  certificates_url, PackagedCertificatesFile, CertificateRegistryClient, CertificateJson,
  normalize_hash, fetch_latest_root, requested_root, check_root, fetch_certificates,
  root_of_response, root_payload, result_root, fill_root,
}
use vocdoni_passport_prover.Certificates.Hashes.{normalize_hash_idem}

result_root_normal : (v : Value) {r : Text} → result_root v ≡ ok r → normalize_hash r ≡ r
unfolding result_root
result_root_normal v h =
    let (result, _, k) =
      >>=-eq-ok (context (get_key (codes "result") v) "RPC result field missing or not a string")
        (λ result. context (as_str result) "RPC result field missing or not a string" >>= λ root.
          ok (normalize_hash root))
        h in
    let (root, _, l) =
      >>=-eq-ok (context (as_str result) "RPC result field missing or not a string")
        (λ root. ok (normalize_hash root)) k in
    cc (l, normalize_hash_idem root)

root_of_response_normal :
    (json : CertificateJson) (v : Value) {r : Text}
    → root_of_response json v ≡ ok r
    → normalize_hash r ≡ r
unfolding root_of_response
root_of_response_normal json v h = elim (Option-cases (get_key (codes "error") v)) [
  | inr (e, g) ↦ cc (rw (root_of_response, g) at h)
  | inl g ↦ result_root_normal v (rw (root_of_response, g) at h)
]

fetch_latest_root_normal :
    (json : CertificateJson) (client : CertificateRegistryClient) {r : Text}
    → fetch_latest_root json client ≡ ok r
    → normalize_hash r ≡ r
unfolding fetch_latest_root
fetch_latest_root_normal json client h =
    let (bytes, _, k) =
      >>=-eq-ok
        (body_of (client.http.post client.rpc_url (root_payload client.root_registry))
          (detail "failed to call RPC endpoint: {}" (client.rpc_url ∷ []))
          (detail "RPC request failed: {}" (client.rpc_url ∷ []))
          (message "failed to decode RPC response JSON"))
        (λ bytes. context (json.read_value bytes) "failed to decode RPC response JSON" >>= λ v.
          root_of_response json v)
        h in
    let (v, _, l) =
      >>=-eq-ok (context (json.read_value bytes) "failed to decode RPC response JSON")
        (λ v. root_of_response json v) k in
    root_of_response_normal json v l

-- What `fetch_certificates` has seen when it returns the certificates `p`.
pub record Fetched (json : CertificateJson) (client : CertificateRegistryClient)
    (wanted : Option Text) (p : PackagedCertificatesFile) : Type 0 where
  pub root : Text
  pub bytes : Bytes
  pub packaged : PackagedCertificatesFile
  pub requested : requested_root json client wanted ≡ ok root
  pub downloaded : client.http.get (certificates_url client root) ≡ body bytes
  pub decoded :
      decode_json_bytes json.read_certificates client.http bytes (certificates_url client root)
      ≡ ok packaged
  pub same_root : normalize_hash p.root ≡ root
  pub same_certificates : p.certificates ≡ packaged.certificates

fill_root-certificates :
    (root : Text) (q : PackagedCertificatesFile) → (fill_root root q).certificates ≡ q.certificates
unfolding fill_root
fill_root-certificates root q = elim (Bool-cases (is_empty q.root)) [ inl h ↦ rw h | inr h ↦ rw h ]

check_root-eq-ok :
    (root : Text) (q : PackagedCertificatesFile) {p : PackagedCertificatesFile}
    → check_root root q ≡ ok p
    → (q ≡ p) × (normalize_hash q.root ≡ root)
unfolding check_root
check_root-eq-ok root q h = elim (Bool-cases (text_eq (normalize_hash q.root) root)) [
  | inl e ↦ (cc (rw (check_root, e) at h), eq_of_text_eq _ _ e)
  | inr e ↦ cc (rw (check_root, e) at h)
]

requested_root_normal :
    (json : CertificateJson) (client : CertificateRegistryClient) (wanted : Option Text) {r : Text}
    → requested_root json client wanted ≡ ok r
    → normalize_hash r ≡ r
unfolding requested_root
requested_root_normal json client none h = fetch_latest_root_normal json client h
requested_root_normal json client (some w) h = cc (h, normalize_hash_idem w)

body_of-eq-ok : (r : Reply) (e f g : Error) {b : Bytes} → body_of r e f g ≡ ok b → r ≡ body b
unfolding body_of
body_of-eq-ok unreachable e f g h = cc
body_of-eq-ok refused e f g h = cc
body_of-eq-ok cut_off e f g h = cc
body_of-eq-ok (body b) e f g h = cc

within-eq-ok {ℓ} : {A : Type ℓ} (e : Error) (o : Outcome A) {a : A} → within e o ≡ ok a → o ≡ ok a
within-eq-ok e (ok x) h = h
within-eq-ok e (err x) h = cc
within-eq-ok e panic h = cc
within-eq-ok e unfinished h = cc

-- The certificates that are returned come from the file whose name is the root that was asked
-- for, in its normal form, or the registry's latest root. They are the file's, unchanged, and the
-- root that they state is that root, which is in normal form.
pub fetch_certificates-Fetched :
    (json : CertificateJson) (client : CertificateRegistryClient) (wanted : Option Text)
    (p : PackagedCertificatesFile)
    → fetch_certificates json client wanted ≡ ok p
    → (f : Fetched json client wanted p) × (normalize_hash f.root ≡ f.root)
unfolding fetch_certificates
fetch_certificates-Fetched json client wanted p h =
    let (root, h1, k1) = >>=-eq-ok _ _ h in
    let (bytes, h2, k2) = >>=-eq-ok _ _ k1 in
    let (q, h3, k3) = >>=-eq-ok _ _ k2 in
    let (same, norm) = check_root-eq-ok root (fill_root root q) k3 in
    (
      record {
        root = root;
        bytes = bytes;
        packaged = q;
        requested = h1;
        downloaded = body_of-eq-ok _ _ _ _ h2;
        decoded = within-eq-ok _ _ h3;
        same_root = subst (λ x. normalize_hash x.root ≡ root) same norm;
        same_certificates =
            subst (λ x. x.certificates ≡ q.certificates) same (fill_root-certificates root q);
      },
      requested_root_normal json client wanted h1,
    )
