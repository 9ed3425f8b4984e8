-- ===== src/Registry/Fingerprints.antt =====
-- Fingerprints of circuits: what the comparisons of `materialize_snapshot` test, and what
-- `snapshot_circuits` records.
use vocdoni_passport_prover.Prelude.{
  true, Option, none, some, ◌==◌, ==_iff, ◌≡◌, refl, sym, ap, subst, inl, inr, ◌↔◌, Option-cases,
  ok, >>=-eq-ok, arith,
}
use vocdoni_passport_prover.Prelude.Text.{Text, text_eq, eq_of_text_eq, text_eq_iff, match_text}
use vocdoni_passport_prover.Resolution.{Manifest, ManifestCircuit}
use vocdoni_passport_prover.Registry.{
  PackagedCircuit, CircuitFingerprint, RegistryClient, RegistryJson, option_text_eq, node_of,
  fetch_packaged_circuit, fingerprint_of, check_node, check_artifact, live_artifact,
}

module _ (json : RegistryJson) (client : RegistryClient) where
  -- The fingerprint is that of the circuit that the registry has under its name.
  pub record Fits (m : Manifest) (f : CircuitFingerprint) (a : PackagedCircuit) : Type 0 where
    pub node : ManifestCircuit
    pub listed : match_text f.name m.circuits ≡ some node
    pub fetched : fetch_packaged_circuit json client m f.name ≡ ok a
    pub manifest_hash : f.manifest_hash ≡ node.hash
    pub manifest_size : f.manifest_size ≡ node.size
    pub vkey_hash : f.vkey_hash ≡ a.vkey_hash
    pub noir_version : f.noir_version ≡ a.noir_version
    pub bb_version : f.bb_version ≡ a.bb_version

  option_text_eq_iff : (s t : Option Text) → (option_text_eq s t ≡ true) ↔ (s ≡ t)
  unfolding option_text_eq
  option_text_eq_iff none none = (λ h. refl, λ h. refl)
  option_text_eq_iff none (some t) = (λ h. cc, λ h. cc)
  option_text_eq_iff (some s) none = (λ h. cc, λ h. cc)
  option_text_eq_iff (some s) (some t) =
      (λ h. ap some ((text_eq_iff s t).0 h), λ h. (text_eq_iff s t).1 (cc))

  check_node_iff :
      (n : ManifestCircuit) (f : CircuitFingerprint)
      → (check_node json client n f ≡ ok tt)
        ↔ ((text_eq n.hash f.manifest_hash ≡ true) × ((n.size == f.manifest_size) ≡ true))
  unfolding check_node
  check_node_iff n f = ground arith

  check_artifact_iff :
      (a : PackagedCircuit) (f : CircuitFingerprint)
      → (check_artifact json client a f ≡ ok tt) ↔ (
          (text_eq a.vkey_hash f.vkey_hash ≡ true)
          × (option_text_eq a.noir_version f.noir_version ≡ true)
          × (option_text_eq a.bb_version f.bb_version ≡ true))
  unfolding check_artifact
  check_artifact_iff a f = ground arith

  node_of-eq-ok :
      (m : Manifest) (name : Text) {n : ManifestCircuit}
      → node_of json client m name ≡ ok n
      → match_text name m.circuits ≡ some n
  unfolding node_of
  node_of-eq-ok m name h = elim (Option-cases (match_text name m.circuits)) [
    | inl e ↦ cc (rw (node_of, e) at h)
    | inr (n, e) ↦ cc (rw (node_of, e) at h, e)
  ]

  pub live_artifact-Fits :
      (m : Manifest) (f : CircuitFingerprint) {a : PackagedCircuit}
      → live_artifact json client m f ≡ ok a
      → Fits m f a
  unfolding live_artifact
  live_artifact-Fits m f h =
      let (n, h0, k0) = >>=-eq-ok (node_of json client m f.name) _ h in
      let (_, h1, k1) = >>=-eq-ok (check_node json client n f) _ k0 in
      let (b, h2, k2) = >>=-eq-ok (fetch_packaged_circuit json client m f.name) _ k1 in
      let (_, h3, k3) = >>=-eq-ok (check_artifact json client b f) _ k2 in
      let (same_hash, same_size) = (check_node_iff n f).0 h1 in
      let (vkey, noir, bb) = (check_artifact_iff b f).0 h3 in
      let same : b ≡ _ = cc k3 in
      subst (λ x. Fits m f x) same
        (record {
          node = n;
          listed = node_of-eq-ok m f.name h0;
          fetched = h2;
          manifest_hash = sym (eq_of_text_eq _ _ same_hash);
          manifest_size = sym ((==_iff _ _).0 same_size);
          vkey_hash = sym (eq_of_text_eq _ _ vkey);
          noir_version = sym ((option_text_eq_iff _ _).0 noir);
          bb_version = sym ((option_text_eq_iff _ _).0 bb);
        })

  node_of-listed :
      (m : Manifest) (name : Text) (n : ManifestCircuit)
      → match_text name m.circuits ≡ some n
      → node_of json client m name ≡ ok n
  unfolding node_of
  node_of-listed m name n h = rw h

  Fits-checks :
      (m : Manifest) (f : CircuitFingerprint) (a : PackagedCircuit) (g : Fits m f a)
      → (check_node json client g.node f ≡ ok tt) × (check_artifact json client a f ≡ ok tt)
  Fits-checks m f a g = (
    (check_node_iff g.node f).1 (
      (text_eq_iff g.node.hash f.manifest_hash).1 (sym g.manifest_hash),
      (==_iff g.node.size f.manifest_size).1 (sym g.manifest_size),
    ),
    (check_artifact_iff a f).1 (
      (text_eq_iff a.vkey_hash f.vkey_hash).1 (sym g.vkey_hash),
      (option_text_eq_iff a.noir_version f.noir_version).1 (sym g.noir_version),
      (option_text_eq_iff a.bb_version f.bb_version).1 (sym g.bb_version),
    ),
  )

  pub Fits-live_artifact :
      (m : Manifest) (f : CircuitFingerprint) (a : PackagedCircuit)
      → Fits m f a
      → live_artifact json client m f ≡ ok a
  unfolding live_artifact
  Fits-live_artifact m f a g =
      let (c1, c2) = Fits-checks m f a g in
      rw (node_of-listed m f.name g.node g.listed, c1, g.fetched, c2)

  pub fingerprint_of-Fits :
      (m : Manifest) (name : Text) (f : CircuitFingerprint)
      → fingerprint_of json client m name ≡ ok f
      → (a : PackagedCircuit) × Fits m f a
  unfolding fingerprint_of
  fingerprint_of-Fits m name f h =
      let (n, h0, k0) = >>=-eq-ok (node_of json client m name) _ h in
      let (b, h2, k2) = >>=-eq-ok (fetch_packaged_circuit json client m name) _ k0 in
      let same : record {
        name = name;
        manifest_hash = n.hash;
        manifest_size = n.size;
        noir_version = b.noir_version;
        bb_version = b.bb_version;
        vkey_hash = b.vkey_hash;
      }
          ≡ f =
        cc k2 in
      (
        b,
        subst (λ x. Fits m x b) same
            (record {
              node = n;
              listed = node_of-eq-ok m name h0;
              fetched = h2;
              manifest_hash = refl;
              manifest_size = refl;
              vkey_hash = refl;
              noir_version = refl;
              bb_version = refl;
            }),
      )
