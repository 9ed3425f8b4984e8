-- ===== src/Artifacts/Offline.antt =====
-- A materialized snapshot is read back by a store without a registry.
use vocdoni_passport_prover.Prelude.{
  some, List, [], ◌∷◌, ◌≡◌, ◌≢◌, true, ◌∙◌, Outcome-cases, All, inl, inr, ok,
}
use vocdoni_passport_prover.Prelude.Text.{Text, match_text, is_utf8}
use vocdoni_passport_prover.Der.{Bytes}
use vocdoni_passport_prover.Resolution.{Manifest}
use vocdoni_passport_prover.Registry.{
  RegistryClient, RegistryJson, PackagedCircuit, CircuitFingerprint, RegistrySnapshot, Disk,
  FileSystem, fetch_manifest, fetch_packaged_circuit, circuit_path, manifest_path, prepare,
  materialize_snapshot,
}
use vocdoni_passport_prover.Registry.Fingerprints.{Fits}
use vocdoni_passport_prover.Registry.Materialized.{prepare-eq-ok}
use vocdoni_passport_prover.Registry.Served.{Serves, manifest-here, write_circuits-Served}
use vocdoni_passport_prover.Artifacts.{
  local, load_json_file, local_file, load_manifest, load_packaged_circuit,
}

-- What is relied on: what the registry has sent is read back from what is written of it, which is
-- UTF-8; and paths keep the circuits' files apart from each other and from the manifest's.
pub record Reliable (json : RegistryJson) (client : RegistryClient) (fs : FileSystem)
    (out_dir : Text) : Type 0 where
  pub manifest_back :
      (v : Text) (m : Manifest)
      → fetch_manifest json client v ≡ ok m
      → json.read_manifest (json.write_manifest m) ≡ some m
  pub circuit_back :
      (m : Manifest) (name : Text) (c : PackagedCircuit)
      → fetch_packaged_circuit json client m name ≡ ok c
      → json.read_circuit (json.write_circuit c) ≡ some c
  pub manifest_utf8 : (m : Manifest) → is_utf8 (json.write_manifest m) ≡ true
  pub circuit_utf8 : (c : PackagedCircuit) → is_utf8 (json.write_circuit c) ≡ true
  pub apart :
      (f g : CircuitFingerprint)
      → circuit_path json client fs out_dir f ≡ circuit_path json client fs out_dir g
      → f.name ≡ g.name
  pub not_manifest :
      (f : CircuitFingerprint)
      → circuit_path json client fs out_dir f ≢ manifest_path json client fs out_dir

All-Unit : (circuits : List CircuitFingerprint) → All (λ _. Unit {0}) circuits
All-Unit [] = tt
All-Unit (f ∷ rest) = (tt, All-Unit rest)

module _ (json : RegistryJson) (client : RegistryClient) (fs : FileSystem) (out_dir : Text)
    (r : Reliable json client fs out_dir) where
  -- The local store gives the circuit that the fingerprint fits.
  pub record Loads (m : Manifest) (disk : Disk) (version : Text) (f : CircuitFingerprint)
      : Type 0 where
    pub artifact : PackagedCircuit
    pub fits : Fits json client m f artifact
    pub loaded :
        load_packaged_circuit json fs.join (local out_dir) disk version f.name ≡ ok artifact

  Serves-Loads :
      (m : Manifest) (disk : Disk) (version : Text) (f : CircuitFingerprint)
      → Serves json client fs out_dir m disk f
      → Loads m disk version f
  unfolding load_packaged_circuit local_file load_json_file
  Serves-Loads m disk version f s = record {
    artifact = s.artifact;
    fits = s.fits;
    loaded = rw (
      load_packaged_circuit,
      local_file,
      s.served,
      load_json_file,
      r.circuit_utf8 s.artifact,
      r.circuit_back m f.name s.artifact s.fits.fetched,
    );
  }

  All-Loads :
      (m : Manifest) (disk : Disk) (version : Text) (circuits : List CircuitFingerprint)
      → All (Serves json client fs out_dir m disk) circuits
      → All (Loads m disk version) circuits
  All-Loads m disk version [] h = tt
  All-Loads m disk version (f ∷ rest) (s, h) =
      (Serves-Loads m disk version f s, All-Loads m disk version rest h)

  load_manifest-written :
      (v : Text) (m : Manifest) (disk : Disk) (version : Text)
      → fetch_manifest json client v ≡ ok m
      → match_text (manifest_path json client fs out_dir) disk ≡ some (json.write_manifest m)
      → load_manifest json fs.join (local out_dir) disk version ≡ ok m
  unfolding load_manifest local_file load_json_file
  load_manifest-written v m disk version got h =
      rw (load_manifest, local_file, h, load_json_file, r.manifest_utf8 m, r.manifest_back v m got)

  -- After a snapshot was materialized, a store on its directory that has no registry gives the
  -- manifest that was live and, for every fingerprint of the snapshot, the circuit that it fits,
  -- whatever version is asked for and whatever files were there before. What the registry sent is
  -- read back from what is written of it, and paths keep the files apart.
  pub load_packaged_circuit-materialize_snapshot :
      (s : RegistrySnapshot) (disk after : Disk) (version : Text)
      → materialize_snapshot json client fs s out_dir disk ≡ (after, ok tt)
      → (m : Manifest) × (load_manifest json fs.join (local out_dir) after version ≡ ok m)
        × All (Loads m after version) s.circuits
  unfolding materialize_snapshot
  load_packaged_circuit-materialize_snapshot s disk after version h =
      elim (Outcome-cases (prepare json client fs s out_dir)) [
        | inr (inl (x, e)) ↦ cc (rw (materialize_snapshot, e) at h)
        | inr (inr (inl e)) ↦ cc (rw (materialize_snapshot, e) at h)
        | inr (inr (inr e)) ↦ cc (rw (materialize_snapshot, e) at h)
        | inl (m, e) ↦
            let file : Text × Bytes =
              (manifest_path json client fs out_dir, json.write_manifest m) in
            let w =
              write_circuits-Served json client fs out_dir (λ _. Unit {0}) (λ f g _ _. r.apart f g)
                (λ f _. r.not_manifest f) m s.circuits (file ∷ disk) after (All-Unit s.circuits)
                (rw (materialize_snapshot, e) at h) in
            (
              m,
              load_manifest-written s.manifest_version m after version
                  (prepare-eq-ok json client fs out_dir s e).0
                  (w.manifest_kept ∙ manifest-here json client fs out_dir m disk),
              All-Loads m after version s.circuits w.each,
            )
      ]
