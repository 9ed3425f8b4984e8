-- ===== src/Registry/Materialized.antt =====
-- What `materialize_snapshot` writes, and that a fresh snapshot can be materialized.
use vocdoni_passport_prover.Prelude.{
  ℕ, true, List, [], ◌∷◌, ◌++◌, ◌≡◌, refl, sym, ◌∙◌, subst, inl, inr, Bool-cases, Outcome-cases,
  All, append_assoc, Outcome, ok, >>=-eq-ok, context,
}
use vocdoni_passport_prover.Prelude.Text.{Text, text_eq, eq_of_text_eq, text_eq_iff}
use vocdoni_passport_prover.Web.{ensure-eq-ok}
use vocdoni_passport_prover.Resolution.{Manifest}
use vocdoni_passport_prover.Der.{Bytes}
use vocdoni_passport_prover.Registry.{
  PackagedCircuit, CircuitFingerprint, RegistrySnapshot, RegistryClient, RegistryJson, Disk,
  FileSystem, sort_texts, dedup, collect, fetch_manifest, fingerprint_of, snapshot_circuits,
  live_artifact, circuits_dir, circuit_path, manifest_path, write_circuits, prepare,
  materialize_snapshot,
}
use vocdoni_passport_prover.Registry.Fingerprints.{
  Fits, live_artifact-Fits, Fits-live_artifact, fingerprint_of-Fits,
}

-- A file is among those written, whether or not its path was written again later.
pub record Holds (disk : Disk) (file : Text × Bytes) : Type 0 where
  pub later : Disk
  pub earlier : Disk
  pub splits : disk ≡ later ++ file ∷ earlier

All-map {ℓ κ μ} :
    {A : Type ℓ} {P : A → Type κ} {Q : A → Type μ} (xs : List A)
    → ((x : A) → P x → Q x)
    → All P xs
    → All Q xs
All-map [] h a = tt
All-map (x ∷ xs) h (p, a) = (h x p, All-map xs h a)

collect-All {ℓ κ μ} :
    {A : Type ℓ} {B : Type κ} {P : B → Type μ} (f : A → Outcome B) (xs : List A) (ys : List B)
    → ((x : A) (y : B) → f x ≡ ok y → P y)
    → collect f xs ≡ ok ys
    → All P ys
unfolding collect
collect-All {P = P} f [] ys h e = let same : [] ≡ ys = cc e in subst (λ zs. All P zs) same tt
collect-All {P = P} f (x ∷ xs) ys h e =
    let (y, h1, k1) = >>=-eq-ok (f x) _ e in
    let (zs, h2, k2) = >>=-eq-ok (collect f xs) _ k1 in
    let same : y ∷ zs ≡ ys = cc k2 in
    subst (λ zs. All P zs) same (h x y h1, collect-All f xs zs h h2)

module _ (json : RegistryJson) (client : RegistryClient) (fs : FileSystem) (out_dir : Text) where
  -- The circuit that the registry has for the fingerprint was written.
  pub record Stored (m : Manifest) (disk : Disk) (f : CircuitFingerprint) : Type 0 where
    pub artifact : PackagedCircuit
    pub fits : Fits json client m f artifact
    pub holds : Holds disk (circuit_path json client fs out_dir f, json.write_circuit artifact)

  -- The loop only adds files.
  pub record Wrote (m : Manifest) (circuits : List CircuitFingerprint) (disk after : Disk)
      : Type 0 where
    pub added : Disk
    pub grown : after ≡ added ++ disk
    pub stored : All (Stored m after) circuits

  write_circuits-Wrote :
      (m : Manifest) (circuits : List CircuitFingerprint) (disk after : Disk)
      → write_circuits json client fs m out_dir circuits disk ≡ (after, ok tt)
      → Wrote m circuits disk after
  unfolding write_circuits
  write_circuits-Wrote m [] disk after h = record { added = []; grown = cc h; stored = tt }
  write_circuits-Wrote m (f ∷ rest) disk after h =
      elim (Outcome-cases (live_artifact json client m f)) [
        | inr (inl (x, e)) ↦ cc (rw (write_circuits, e) at h)
        | inr (inr (inl e)) ↦ cc (rw (write_circuits, e) at h)
        | inr (inr (inr e)) ↦ cc (rw (write_circuits, e) at h)
        | inl (a, e) ↦ elim (Bool-cases (fs.can_write (circuit_path json client fs out_dir f))) [
          | inr c ↦ cc (rw (write_circuits, e, c) at h)
          | inl c ↦
              let file : Text × Bytes =
                (circuit_path json client fs out_dir f, json.write_circuit a) in
              let ih =
                write_circuits-Wrote m rest (file ∷ disk) after (rw (write_circuits, e, c) at h) in
              record {
                added = ih.added ++ file ∷ [];
                grown = ih.grown ∙ sym (append_assoc ih.added (file ∷ []) disk);
                stored = (
                  record {
                    artifact = a;
                    fits = live_artifact-Fits json client m f e;
                    holds = record { later = ih.added; earlier = disk; splits = ih.grown };
                  },
                  ih.stored,
                );
              }
        ]
      ]

  pub prepare-eq-ok :
      (s : RegistrySnapshot) {m : Manifest}
      → prepare json client fs s out_dir ≡ ok m
      → (fetch_manifest json client s.manifest_version ≡ ok m) × (m.root ≡ s.manifest_root)
  unfolding prepare
  prepare-eq-ok s h =
      let (m, h1, k1) = >>=-eq-ok (fetch_manifest json client s.manifest_version) _ h in
      let (e, k2) = ensure-eq-ok (text_eq m.root s.manifest_root) _ _ k1 in
      let (_, k3) = ensure-eq-ok (fs.can_create out_dir) _ _ k2 in
      let (_, k4) = ensure-eq-ok (fs.can_create (circuits_dir json client fs out_dir)) _ _ k3 in
      let (_, k5) = ensure-eq-ok (fs.can_write (manifest_path json client fs out_dir)) _ _ k4 in
      let same : m ≡ _ = cc k5 in
      subst
        (λ x. (fetch_manifest json client s.manifest_version ≡ ok x) × (x.root ≡ s.manifest_root))
        same (h1, eq_of_text_eq _ _ e)

  -- What a run of `materialize_snapshot` has come to.
  pub record Materialized (s : RegistrySnapshot) (after : Disk) : Type 0 where
    pub manifest : Manifest
    pub fetched : fetch_manifest json client s.manifest_version ≡ ok manifest
    pub same_root : manifest.root ≡ s.manifest_root
    pub manifest_stored :
        Holds after (manifest_path json client fs out_dir, json.write_manifest manifest)
    pub circuits_stored : All (Stored manifest after) s.circuits

  -- When `materialize_snapshot` succeeds, the live manifest has the snapshot's root and was written,
  -- and so was, for every fingerprint of the snapshot, the live circuit, which the fingerprint fits
  -- in its hash, size, key hash and both versions.
  materialize_snapshot-Materialized :
      (s : RegistrySnapshot) (disk after : Disk)
      → materialize_snapshot json client fs s out_dir disk ≡ (after, ok tt)
      → Materialized s after
  unfolding materialize_snapshot
  materialize_snapshot-Materialized s disk after h =
      elim (Outcome-cases (prepare json client fs s out_dir)) [
        | inr (inl (x, e)) ↦ cc (rw (materialize_snapshot, e) at h)
        | inr (inr (inl e)) ↦ cc (rw (materialize_snapshot, e) at h)
        | inr (inr (inr e)) ↦ cc (rw (materialize_snapshot, e) at h)
        | inl (m, e) ↦
            let file : Text × Bytes =
              (manifest_path json client fs out_dir, json.write_manifest m) in
            let w =
              write_circuits-Wrote m s.circuits (file ∷ disk) after
                (rw (materialize_snapshot, e) at h) in
            let (fetched, same_root) = prepare-eq-ok s e in
            record {
              manifest = m;
              fetched = fetched;
              same_root = same_root;
              manifest_stored = record { later = w.added; earlier = disk; splits = w.grown };
              circuits_stored = w.stored;
            }
      ]

  -- Where every write succeeds, fingerprints that fit are written.
  write_circuits-Fits :
      (m : Manifest) (circuits : List CircuitFingerprint) (disk : Disk)
      → ((path : Text) → fs.can_write path ≡ true)
      → All (λ f. (a : PackagedCircuit) × Fits json client m f a) circuits
      → (after : Disk) × (write_circuits json client fs m out_dir circuits disk ≡ (after, ok tt))
  unfolding write_circuits
  write_circuits-Fits m [] disk w h = (disk, refl)
  write_circuits-Fits m (f ∷ rest) disk w ((a, g), h) =
      let file : Text × Bytes = (circuit_path json client fs out_dir f, json.write_circuit a) in
      let (after, ih) = write_circuits-Fits m rest (file ∷ disk) w h in
      (
        after,
        rw
            (
              write_circuits,
              Fits-live_artifact json client m f a g,
              w (circuit_path json client fs out_dir f),
            )
            ih,
      )

  prepare-ok :
      (s : RegistrySnapshot) (m : Manifest)
      → fetch_manifest json client s.manifest_version ≡ ok m
      → m.root ≡ s.manifest_root
      → ((path : Text) → fs.can_create path ≡ true)
      → ((path : Text) → fs.can_write path ≡ true)
      → prepare json client fs s out_dir ≡ ok m
  unfolding prepare
  prepare-ok s m got same create write = rw (
    prepare,
    got,
    (text_eq_iff m.root s.manifest_root).1 same,
    create out_dir,
    create (circuits_dir json client fs out_dir),
    write (manifest_path json client fs out_dir),
  )

  materialize_snapshot-prepared :
      (s : RegistrySnapshot) (m : Manifest) (disk : Disk)
      → prepare json client fs s out_dir ≡ ok m
      → materialize_snapshot json client fs s out_dir disk
        ≡ write_circuits json client fs m out_dir s.circuits
            ((manifest_path json client fs out_dir, json.write_manifest m) ∷ disk)
  unfolding materialize_snapshot
  materialize_snapshot-prepared s m disk h = rw (materialize_snapshot, h)

  abbrev SnapshotOf : Manifest → RegistrySnapshot → Type 0
  SnapshotOf m s =
      (s.manifest_version ≡ m.version)
      × (s.manifest_root ≡ m.root)
      × All (λ f. (a : PackagedCircuit) × Fits json client m f a) s.circuits

  abbrev snapshot_of : ℕ → Manifest → List CircuitFingerprint → RegistrySnapshot
  snapshot_of now m cs = record {
    generated_at_unix = now;
    manifest_version = m.version;
    manifest_root = m.root;
    circuits = cs;
  }

  snapshot_circuits-Fits :
      (version : Text) (names : List Text) (s : RegistrySnapshot) (m : Manifest)
      → fetch_manifest json client version ≡ ok m
      → snapshot_circuits json client version names ≡ ok s
      → (s.manifest_version ≡ m.version)
        × (s.manifest_root ≡ m.root)
        × All (λ f. (a : PackagedCircuit) × Fits json client m f a) s.circuits
  unfolding snapshot_circuits
  snapshot_circuits-Fits version names s m got taken =
      let (n, h1, k1) = >>=-eq-ok (fetch_manifest json client version) _ taken in
      let (cs, h2, k2) =
        >>=-eq-ok (collect (fingerprint_of json client n) (dedup (sort_texts names))) _ k1 in
      let (now, _, k3) = >>=-eq-ok (context json.now "system clock is before unix epoch") _ k2 in
      let same_m : n ≡ m = cc (got, h1) in
      let same_s : snapshot_of now n cs ≡ s = cc k3 in
      let fit : All (λ f. (a : PackagedCircuit) × Fits json client n f a) cs =
        collect-All (fingerprint_of json client n) (dedup (sort_texts names)) cs
          (fingerprint_of-Fits json client n) h2 in
      subst (λ x. SnapshotOf x s) same_m (subst (λ x. SnapshotOf n x) same_s (refl, refl, fit))

  -- A snapshot that was just taken can be materialized in an empty or any other directory, if the
  -- directories can be created and the files written, and if the manifest states the version that
  -- it was asked for by. Among the files that are written are the live manifest, with the snapshot's
  -- root, and for every fingerprint the live circuit that it fits.
  pub materialize_snapshot-snapshot_circuits :
      (version : Text) (names : List Text) (s : RegistrySnapshot) (m : Manifest) (disk : Disk)
      → fetch_manifest json client version ≡ ok m
      → m.version ≡ version
      → snapshot_circuits json client version names ≡ ok s
      → ((path : Text) → fs.can_create path ≡ true)
      → ((path : Text) → fs.can_write path ≡ true)
      → (after : Disk) × (materialize_snapshot json client fs s out_dir disk ≡ (after, ok tt))
        × Materialized s after
  materialize_snapshot-snapshot_circuits version names s m disk got same taken create write =
      let (at_version, at_root, fit) = snapshot_circuits-Fits version names s m got taken in
      let again : fetch_manifest json client s.manifest_version ≡ ok m =
        subst (λ v. fetch_manifest json client v ≡ ok m) (sym (at_version ∙ same)) got in
      let file : Text × Bytes = (manifest_path json client fs out_dir, json.write_manifest m) in
      let (after, wrote) = write_circuits-Fits m s.circuits (file ∷ disk) write fit in
      let done =
        materialize_snapshot-prepared s m disk (prepare-ok s m again (sym at_root) create write)
        ∙ wrote in
      (after, done, materialize_snapshot-Materialized s disk after done)
