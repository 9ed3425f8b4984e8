-- ===== src/Registry/Served.antt =====
-- What can be read after the loop of `materialize_snapshot` in crates/prover-core/src/registry.rs.
use vocdoni_passport_prover.Prelude.{
  some, List, [], ◌∷◌, ◌≡◌, ◌≢◌, refl, sym, ap, ◌∙◌, subst, Bool-cases, Outcome-cases, All, inl,
  inr, ok,
}
use vocdoni_passport_prover.Prelude.Text.{Text, text_eq, text_eq_refl, eq_of_text_eq, match_text}
use vocdoni_passport_prover.Der.{Bytes}
use vocdoni_passport_prover.Resolution.{Manifest}
use vocdoni_passport_prover.Registry.{
  RegistryClient, RegistryJson, PackagedCircuit, CircuitFingerprint, Disk, FileSystem,
  fetch_packaged_circuit, live_artifact, circuit_path, manifest_path, write_circuits,
}
use vocdoni_passport_prover.Registry.Fingerprints.{Fits, live_artifact-Fits}

module _ (json : RegistryJson) (client : RegistryClient) (fs : FileSystem) (out_dir : Text) where
  -- The disk has, under the fingerprint's path, the circuit that it fits.
  pub record Serves (m : Manifest) (disk : Disk) (f : CircuitFingerprint) : Type 0 where
    pub artifact : PackagedCircuit
    pub fits : Fits json client m f artifact
    pub served :
        match_text (circuit_path json client fs out_dir f) disk ≡ some (json.write_circuit artifact)

  pub manifest-here :
      (m : Manifest) (disk : Disk)
      → match_text
          (manifest_path json client fs out_dir)
          ((manifest_path json client fs out_dir, json.write_manifest m) ∷ disk)
        ≡ some (json.write_manifest m)
  unfolding match_text
  manifest-here m disk = rw (text_eq_refl (manifest_path json client fs out_dir))

-- Paths keep the files of circuits with certain names apart from each other and from the manifest.
module _ (json : RegistryJson) (client : RegistryClient) (fs : FileSystem) (out_dir : Text)
    (Plain : Text → Type 0)
    (apart : (f g : CircuitFingerprint)
      → Plain f.name
      → Plain g.name
      → circuit_path json client fs out_dir f ≡ circuit_path json client fs out_dir g
      → f.name ≡ g.name)
    (not_manifest : (f : CircuitFingerprint)
      → Plain f.name
      → circuit_path json client fs out_dir f ≢ manifest_path json client fs out_dir) where
  same_artifact :
      (m : Manifest) (f g : CircuitFingerprint) (a b : PackagedCircuit)
      → Fits json client m f a
      → Fits json client m g b
      → f.name ≡ g.name
      → a ≡ b
  same_artifact m f g a b p q e =
      let fetched : fetch_packaged_circuit json client m g.name ≡ ok a =
        subst (λ n. fetch_packaged_circuit json client m n ≡ ok a) e p.fetched in
      cc (fetched, q.fetched)

  Serves-write :
      (m : Manifest) (disk : Disk) (f g : CircuitFingerprint) (b : PackagedCircuit)
      → Fits json client m g b
      → Plain f.name
      → Plain g.name
      → Serves json client fs out_dir m disk f
      → Serves json client fs out_dir m
          ((circuit_path json client fs out_dir g, json.write_circuit b) ∷ disk)
          f
  unfolding match_text
  Serves-write m disk f g b q u v s =
      elim (Bool-cases
        (text_eq (circuit_path json client fs out_dir f) (circuit_path json client fs out_dir g))) [
          | inr e ↦ record { artifact = s.artifact; fits = s.fits; served = rw e s.served }
          | inl e ↦
              let same : s.artifact ≡ b =
                same_artifact m f g s.artifact b s.fits q (apart f g u v (eq_of_text_eq _ _ e)) in
              record {
                artifact = s.artifact;
                fits = s.fits;
                served = rw e (ap (λ c. some (json.write_circuit c)) (sym same));
              }
        ]

  -- What a run of the loop leaves readable.
  pub record Served (m : Manifest) (circuits : List CircuitFingerprint) (disk after : Disk)
      : Type 0 where
    pub keeps :
        (f : CircuitFingerprint)
        → Plain f.name
        → Serves json client fs out_dir m disk f
        → Serves json client fs out_dir m after f
    pub each : All (Serves json client fs out_dir m after) circuits
    pub manifest_kept :
        match_text (manifest_path json client fs out_dir) after
        ≡ match_text (manifest_path json client fs out_dir) disk

  manifest-write :
      (disk : Disk) (g : CircuitFingerprint) (bytes : Bytes)
      → Plain g.name
      → match_text
          (manifest_path json client fs out_dir)
          ((circuit_path json client fs out_dir g, bytes) ∷ disk)
        ≡ match_text (manifest_path json client fs out_dir) disk
  unfolding match_text
  manifest-write disk g bytes v =
      elim (Bool-cases
        (text_eq (manifest_path json client fs out_dir) (circuit_path json client fs out_dir g))) [
          | inr e ↦ rw e
          | inl e ↦ absurd (not_manifest g v (sym (eq_of_text_eq _ _ e)))
        ]

  Serves-here :
      (m : Manifest) (disk : Disk) (f : CircuitFingerprint) (a : PackagedCircuit)
      → Fits json client m f a
      → Serves json client fs out_dir m
          ((circuit_path json client fs out_dir f, json.write_circuit a) ∷ disk)
          f
  unfolding match_text
  Serves-here m disk f a p = record {
    artifact = a;
    fits = p;
    served = rw (text_eq_refl (circuit_path json client fs out_dir f));
  }

  Served-cons :
      (m : Manifest) (f : CircuitFingerprint) (rest : List CircuitFingerprint) (disk after : Disk)
      (a : PackagedCircuit)
      → Fits json client m f a
      → Plain f.name
      → Served m rest ((circuit_path json client fs out_dir f, json.write_circuit a) ∷ disk) after
      → Served m (f ∷ rest) disk after
  Served-cons m f rest disk after a p v ih = record {
    keeps = λ g u s. ih.keeps g u (Serves-write m disk g f a p u v s);
    each = (ih.keeps f v (Serves-here m disk f a p), ih.each);
    manifest_kept = ih.manifest_kept ∙ manifest-write disk f (json.write_circuit a) v;
  }

  -- A round of the loop that did not fail.
  write_circuits-round :
      (m : Manifest) (f : CircuitFingerprint) (rest : List CircuitFingerprint) (disk after : Disk)
      → write_circuits json client fs m out_dir (f ∷ rest) disk ≡ (after, ok tt)
      → (a : PackagedCircuit) × (live_artifact json client m f ≡ ok a)
        × (write_circuits json client fs m out_dir rest
              ((circuit_path json client fs out_dir f, json.write_circuit a) ∷ disk)
            ≡ (after, ok tt))
  unfolding write_circuits
  write_circuits-round m f rest disk after h =
      elim (Outcome-cases (live_artifact json client m f)) [
        | inr (inl (x, e)) ↦ cc (rw (write_circuits, e) at h)
        | inr (inr (inl e)) ↦ cc (rw (write_circuits, e) at h)
        | inr (inr (inr e)) ↦ cc (rw (write_circuits, e) at h)
        | inl (a, e) ↦ elim (Bool-cases (fs.can_write (circuit_path json client fs out_dir f))) [
          | inr c ↦ cc (rw (write_circuits, e, c) at h)
          | inl c ↦ (a, e, rw (write_circuits, e, c) at h)
        ]
      ]

  Served-nil : (m : Manifest) (disk after : Disk) → disk ≡ after → Served m [] disk after
  Served-nil m disk after same =
      subst (λ d. Served m [] disk d) same
        (record { keeps = λ f u s. s; each = tt; manifest_kept = refl })

  write_circuits-nil :
      (m : Manifest) (disk after : Disk)
      → write_circuits json client fs m out_dir [] disk ≡ (after, ok tt)
      → disk ≡ after
  unfolding write_circuits
  write_circuits-nil m disk after h = cc h

  pub write_circuits-Served :
      (m : Manifest) (circuits : List CircuitFingerprint) (disk after : Disk)
      → All (λ (f : CircuitFingerprint). Plain f.name) circuits
      → write_circuits json client fs m out_dir circuits disk ≡ (after, ok tt)
      → Served m circuits disk after
  write_circuits-Served m [] disk after v h =
      Served-nil m disk after (write_circuits-nil m disk after h)
  write_circuits-Served m (f ∷ rest) disk after (v, vs) h =
      let (a, e, k) = write_circuits-round m f rest disk after h in
      Served-cons m f rest disk after a (live_artifact-Fits json client m f e) v (
        write_circuits-Served m rest
          ((circuit_path json client fs out_dir f, json.write_circuit a) ∷ disk) after vs k)
