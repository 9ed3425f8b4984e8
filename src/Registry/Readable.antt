-- ===== src/Registry/Readable.antt =====
-- What `materialize_snapshot` of crates/prover-core/src/registry.rs leaves to be read.
use vocdoni_passport_prover.Prelude.{
  Bool, false, ◌||◌, ◌==◌, some, [], ◌∷◌, ◌++◌, ◌≡◌, ◌≢◌, refl, ◌∙◌, inl, inr, Outcome-cases, All,
  ok, arith,
}
use vocdoni_passport_prover.Prelude.Text.{Text, codes, match_text}
use mathlib.Core.List.{append_cancel_right}
use vocdoni_passport_prover.Resolution.{Manifest}
use vocdoni_passport_prover.Der.{Bytes}
use vocdoni_passport_prover.Registry.{
  CircuitFingerprint, RegistrySnapshot, RegistryClient, RegistryJson, Disk, FileSystem,
  fetch_manifest, circuit_path, manifest_path, prepare, materialize_snapshot,
}
use vocdoni_passport_prover.Registry.Materialized.{prepare-eq-ok}
use vocdoni_passport_prover.Registry.Served.{Serves, manifest-here, write_circuits-Served}

unfoldable pub has_slash : Text → Bool
has_slash [] = false
has_slash (c ∷ s) = c == b'/' || has_slash s

-- A name without a slash.
abbrev pub IsFileName : Text → Type 0
IsFileName name = has_slash name ≡ false

has_slash_append :
    (s t : Text) → has_slash s ≡ false → has_slash t ≡ false → has_slash (s ++ t) ≡ false
unfolding has_slash
has_slash_append [] t h k = k
has_slash_append (c ∷ s) t h k = let ih = has_slash_append s t in ground arith

json_IsFileName : (name : Text) → IsFileName name → IsFileName (name ++ codes ".json")
unfolding has_slash
json_IsFileName name h = has_slash_append name (codes ".json") h refl

-- What is relied on of `Path::join`: file names in the directory of the circuits keep their paths
-- apart, and none of these is the path of the manifest, which stands beside that directory.
pub record KeepsApart (fs : FileSystem) (out_dir : Text) : Type 0 where
  pub names :
      (a b : Text)
      → IsFileName a
      → IsFileName b
      → fs.join (fs.join out_dir (codes "circuits")) a
        ≡ fs.join (fs.join out_dir (codes "circuits")) b
      → a ≡ b
  pub beside :
      (a : Text)
      → IsFileName a
      → fs.join (fs.join out_dir (codes "circuits")) a ≢ fs.join out_dir (codes "manifest.json")

module _ (json : RegistryJson) (client : RegistryClient) (fs : FileSystem) (out_dir : Text) where
  -- The live manifest and the live circuits, as they are read from the disk.
  pub record Readable (s : RegistrySnapshot) (after : Disk) : Type 0 where
    pub manifest : Manifest
    pub fetched : fetch_manifest json client s.manifest_version ≡ ok manifest
    pub same_root : manifest.root ≡ s.manifest_root
    pub manifest_read :
        match_text (manifest_path json client fs out_dir) after
        ≡ some (json.write_manifest manifest)
    pub circuits_read : All (Serves json client fs out_dir manifest after) s.circuits

  circuit_path_apart :
      KeepsApart fs out_dir
      → (f g : CircuitFingerprint) → IsFileName f.name
      → IsFileName g.name
      → circuit_path json client fs out_dir f ≡ circuit_path json client fs out_dir g
      → f.name ≡ g.name
  circuit_path_apart k f g u v e =
      append_cancel_right f.name g.name (codes ".json")
        (k.names _ _ (json_IsFileName f.name u) (json_IsFileName g.name v) e)

  -- When `materialize_snapshot` succeeds on a snapshot whose circuits have names without a slash:
  -- the live manifest has the snapshot's root, and the file of the manifest reads as what is written
  -- of it. And for every fingerprint of the snapshot, the file of its name in the directory of the
  -- circuits reads as what is written of the live circuit, which the fingerprint fits in its hash,
  -- size, key hash and both versions. Joined paths keep the files apart.
  pub materialize_snapshot-Readable :
      (s : RegistrySnapshot) (disk after : Disk)
      → KeepsApart fs out_dir
      → All (λ (f : CircuitFingerprint). IsFileName f.name) s.circuits
      → materialize_snapshot json client fs s out_dir disk ≡ (after, ok tt)
      → Readable s after
  unfolding materialize_snapshot
  materialize_snapshot-Readable s disk after k names h =
      elim (Outcome-cases (prepare json client fs s out_dir)) [
        | inr (inl (x, e)) ↦ cc (rw (materialize_snapshot, e) at h)
        | inr (inr (inl e)) ↦ cc (rw (materialize_snapshot, e) at h)
        | inr (inr (inr e)) ↦ cc (rw (materialize_snapshot, e) at h)
        | inl (m, e) ↦
            let file : Text × Bytes =
              (manifest_path json client fs out_dir, json.write_manifest m) in
            let (fetched, same_root) = prepare-eq-ok json client fs out_dir s e in
            let w =
              write_circuits-Served json client fs out_dir IsFileName (circuit_path_apart k)
                (λ f v. k.beside _ (json_IsFileName f.name v)) m s.circuits (file ∷ disk) after
                names (rw (materialize_snapshot, e) at h) in
            record {
              manifest = m;
              fetched = fetched;
              same_root = same_root;
              manifest_read = w.manifest_kept ∙ manifest-here json client fs out_dir m disk;
              circuits_read = w.each;
            }
      ]
