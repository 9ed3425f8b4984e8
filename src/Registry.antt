-- ===== src/Registry.antt =====
-- crates/prover-core/src/registry.rs: the client of the circuit registry, snapshots of circuits
-- and their materialization on disk.
pub mod Fingerprints
pub mod Materialized
pub mod Served
pub mod Readable
mod Tests
use vocdoni_passport_prover.Prelude.{
  ℕ, Bool, true, false, ◌&&◌, not, Option, none, some, List, [], ◌∷◌, ◌++◌, ltb, ◌==◌,
  if◌then◌else◌, detail, message, Error, context, Outcome, ok, err, panic, unfinished, ◌>>=◌, ◌>>◌,
}
use vocdoni_passport_prover.Prelude.Text.{Text, codes, text_eq, match_text, show_nat}
use vocdoni_passport_prover.Json.{Value}
use vocdoni_passport_prover.Web.{Http, body_of, decode_json_bytes, expect, ensure}
use vocdoni_passport_prover.Resolution.{Manifest, ManifestCircuit}
use vocdoni_passport_prover.Der.{Bytes}

pub record PackagedCircuit : Type 0 where
  pub name : Option Text
  pub noir_version : Option Text
  pub bb_version : Option Text
  pub size : Option ℕ
  pub abi : Value
  pub bytecode : Text
  pub vkey : Text
  pub vkey_hash : Text
  pub hash : Option Text

pub record CircuitFingerprint : Type 0 where
  pub name : Text
  pub manifest_hash : Text
  pub manifest_size : ℕ
  pub noir_version : Option Text
  pub bb_version : Option Text
  pub vkey_hash : Text

pub record RegistrySnapshot : Type 0 where
  pub generated_at_unix : ℕ
  pub manifest_version : Text
  pub manifest_root : Text
  pub circuits : List CircuitFingerprint

pub record RegistryClient : Type 0 where
  pub http : Http
  pub manifest_base_url : Text
  pub artifact_base_url : Text

-- `serde_json` for the two types, and the clock: the seconds of the Unix epoch, unless it is
-- before that; and the debug form of an optional text.
pub record RegistryJson : Type 0 where
  pub read_manifest : Bytes → Option Manifest
  pub read_circuit : Bytes → Option PackagedCircuit
  pub write_manifest : Manifest → Bytes
  pub write_circuit : PackagedCircuit → Bytes
  pub now : Option ℕ
  pub debug : Option Text → Text

-- The files written so far, the last one first.
abbrev pub Disk : Type 0
Disk = List (Text × Bytes)

-- `Path::join`, and whether the directory can be created or the file written.
pub record FileSystem : Type 0 where
  pub join : Text → Text → Text
  pub can_create : Text → Bool
  pub can_write : Text → Bool

unfoldable pub option_text_eq : Option Text → Option Text → Bool
option_text_eq none none = true
option_text_eq none (some t) = false
option_text_eq (some s) none = false
option_text_eq (some s) (some t) = text_eq s t

-- The order of texts, byte by byte.
unfoldable pub text_le : Text → Text → Bool
text_le [] t = true
text_le (c ∷ s) [] = false
text_le (c ∷ s) (d ∷ t) =
    let rest = text_le s t in if ltb c d then true else (if c == d then rest else false)

unfoldable pub insert_text : Text → List Text → List Text
insert_text s [] = s ∷ []
insert_text s (t ∷ ts) = let rest = insert_text s ts in if text_le s t then s ∷ t ∷ ts else t ∷ rest

-- `sort`.
unfoldable pub sort_texts : List Text → List Text
sort_texts [] = []
sort_texts (s ∷ ss) = insert_text s (sort_texts ss)

-- `dedup`: an entry that its neighbour repeats is dropped.
unfoldable pub dedup : List Text → List Text
dedup [] = []
dedup (s ∷ []) = s ∷ []
dedup (s ∷ t ∷ ts) = let rest = dedup (t ∷ ts) in if text_eq s t then rest else s ∷ rest

-- `collect` into a `Result`: the first error ends the loop.
unfoldable pub collect {ℓ κ} :
    {A : Type ℓ} {B : Type κ} → (A → Outcome B) → List A → Outcome (List B)
collect f [] = ok []
collect f (x ∷ xs) = do y ← f x; ys ← collect f xs; ok (y ∷ ys)

module _ (json : RegistryJson) (client : RegistryClient) where
  unfoldable pub fetch_manifest : Text → Outcome Manifest
  fetch_manifest version = do
    let url = client.manifest_base_url ++ (codes "/" ++ (version ++ codes "/manifest.json"))
    bytes ←
        body_of (client.http.get url) (detail "failed to GET manifest: {url}" (url ∷ []))
          (detail "manifest request failed: {url}" (url ∷ []))
          (detail "failed to read manifest bytes: {url}" (url ∷ []))
    decode_json_bytes json.read_manifest client.http bytes url

  -- `manifest.circuits.get(name).with_context(…)`; its three places give the message one text.
  unfoldable pub node_of : Manifest → Text → Outcome ManifestCircuit
  node_of manifest name =
      expect (match_text name manifest.circuits)
        (detail "circuit not found in manifest: {circuit_name}" (name ∷ []))

  unfoldable pub fetch_packaged_circuit : Manifest → Text → Outcome PackagedCircuit
  fetch_packaged_circuit manifest circuit_name = do
    node ← node_of manifest circuit_name
    let url = client.artifact_base_url ++ (codes "/" ++ (node.hash ++ codes ".json"))
    bytes ←
        body_of (client.http.get url) (detail "failed to GET artifact: {url}" (url ∷ []))
          (detail "artifact request failed: {url}" (url ∷ []))
          (detail "failed to read artifact bytes: {url}" (url ∷ []))
    decode_json_bytes json.read_circuit client.http bytes url

  -- The closure of `snapshot_circuits`.
  unfoldable pub fingerprint_of : Manifest → Text → Outcome CircuitFingerprint
  fingerprint_of manifest name = do
    node ← node_of manifest name
    artifact ← fetch_packaged_circuit manifest name
    ok (record {
      name = name;
      manifest_hash = node.hash;
      manifest_size = node.size;
      noir_version = artifact.noir_version;
      bb_version = artifact.bb_version;
      vkey_hash = artifact.vkey_hash;
    })

  unfoldable pub snapshot_circuits : Text → List Text → Outcome RegistrySnapshot
  snapshot_circuits version circuit_names = do
    manifest ← fetch_manifest version
    circuits ← collect (fingerprint_of manifest) (dedup (sort_texts circuit_names))
    now ← context json.now "system clock is before unix epoch"
    ok (record {
      generated_at_unix = now;
      manifest_version = manifest.version;
      manifest_root = manifest.root;
      circuits = circuits;
    })

  -- The two comparisons with the manifest's entry.
  unfoldable pub check_node : ManifestCircuit → CircuitFingerprint → Outcome (Unit {0})
  check_node node f = do
    ensure (text_eq node.hash f.manifest_hash) (
        detail "manifest hash mismatch for {}: snapshot={}, live={}"
          (f.name ∷ f.manifest_hash ∷ node.hash ∷ []))
    ensure (node.size == f.manifest_size) (
        detail "manifest size mismatch for {}: snapshot={}, live={}"
          (f.name ∷ show_nat f.manifest_size ∷ show_nat node.size ∷ []))

  -- The three comparisons with the artifact.
  unfoldable pub check_artifact : PackagedCircuit → CircuitFingerprint → Outcome (Unit {0})
  check_artifact artifact f = do
    ensure (text_eq artifact.vkey_hash f.vkey_hash) (
        detail "vkey hash mismatch for {}: snapshot={}, live={}"
          (f.name ∷ f.vkey_hash ∷ artifact.vkey_hash ∷ []))
    ensure (option_text_eq artifact.noir_version f.noir_version) (
        detail "noir version mismatch for {}: snapshot={:?}, live={:?}"
          (f.name ∷ json.debug f.noir_version ∷ json.debug artifact.noir_version ∷ []))
    ensure (option_text_eq artifact.bb_version f.bb_version) (
        detail "bb version mismatch for {}: snapshot={:?}, live={:?}"
          (f.name ∷ json.debug f.bb_version ∷ json.debug artifact.bb_version ∷ []))

  -- The loop's body up to the write: the artifact, if the snapshot's fingerprint is still right.
  unfoldable pub live_artifact : Manifest → CircuitFingerprint → Outcome PackagedCircuit
  live_artifact manifest f = do
    node ← node_of manifest f.name
    check_node node f
    artifact ← fetch_packaged_circuit manifest f.name
    check_artifact artifact f
    ok artifact

  module _ (fs : FileSystem) where
    abbrev pub circuits_dir : Text → Text
    circuits_dir out_dir = fs.join out_dir (codes "circuits")

    abbrev pub circuit_path : Text → CircuitFingerprint → Text
    circuit_path out_dir f = fs.join (circuits_dir out_dir) (f.name ++ codes ".json")

    abbrev pub manifest_path : Text → Text
    manifest_path out_dir = fs.join out_dir (codes "manifest.json")

    -- The loop of `materialize_snapshot`: the disk it leaves, and its result.
    unfoldable pub write_circuits :
        Manifest → Text → List CircuitFingerprint → Disk → Disk × Outcome (Unit {0})
    write_circuits manifest out_dir [] disk = (disk, ok tt)
    write_circuits manifest out_dir (f ∷ rest) disk = elim (live_artifact manifest f) [
      | err e ↦ (disk, err e)
      | panic ↦ (disk, panic)
      | unfinished ↦ (disk, unfinished)
      | ok artifact ↦ elim (fs.can_write (circuit_path out_dir f)) [
        | true ↦
            write_circuits manifest out_dir rest
              ((circuit_path out_dir f, json.write_circuit artifact) ∷ disk)
        | false ↦ (
          disk,
          err (detail "failed to write circuit artifact: {}" (circuit_path out_dir f ∷ [])),
        )
      ]
    ]

    -- What stands in front of the first write.
    unfoldable pub prepare : RegistrySnapshot → Text → Outcome Manifest
    prepare snapshot out_dir = do
      manifest ← fetch_manifest snapshot.manifest_version
      ensure (text_eq manifest.root snapshot.manifest_root) (
          detail "manifest root mismatch: snapshot={}, live={}"
            (snapshot.manifest_root ∷ manifest.root ∷ []))
      ensure (fs.can_create out_dir) (detail "failed to create output directory: {}" (out_dir ∷ []))
      ensure (fs.can_create (circuits_dir out_dir))
          (detail "failed to create circuits output directory: {}" (circuits_dir out_dir ∷ []))
      ensure (fs.can_write (manifest_path out_dir))
          (detail "failed to write manifest file: {}" (manifest_path out_dir ∷ []))
      ok manifest

    unfoldable pub materialize_snapshot : RegistrySnapshot → Text → Disk → Disk × Outcome (Unit {0})
    materialize_snapshot snapshot out_dir disk = elim (prepare snapshot out_dir) [
      | err e ↦ (disk, err e)
      | panic ↦ (disk, panic)
      | unfinished ↦ (disk, unfinished)
      | ok manifest ↦
          write_circuits manifest out_dir snapshot.circuits
            ((manifest_path out_dir, json.write_manifest manifest) ∷ disk)
    ]
