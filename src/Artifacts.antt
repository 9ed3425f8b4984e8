-- ===== src/Artifacts.antt =====
-- crates/prover-core/src/artifacts.rs: the artifact store, which reads a local directory first and
-- the circuit registry second.
pub mod Offline
mod Tests
use vocdoni_passport_prover.Prelude.{
  Option, none, some, List, [], ◌∷◌, ◌++◌, Bool, detail, message, Outcome, ok, err, ◌>>=◌, ◌>>◌,
}
use vocdoni_passport_prover.Prelude.Text.{Text, codes, match_text, is_utf8}
use vocdoni_passport_prover.Der.{Bytes}
use vocdoni_passport_prover.Web.{ensure, expect}
use vocdoni_passport_prover.Resolution.{Manifest}
use vocdoni_passport_prover.Registry.{
  RegistryClient, RegistryJson, PackagedCircuit, Disk, FileSystem, fetch_manifest,
  fetch_packaged_circuit,
}

pub record ArtifactStore : Type 0 where
  pub local_root : Option Text
  pub registry : Option RegistryClient

abbrev pub local : Text → ArtifactStore
local root = record { local_root = some root; registry = none }

abbrev pub local_with_registry_fallback : Text → RegistryClient → ArtifactStore
local_with_registry_fallback root registry = record {
  local_root = some root;
  registry = some registry;
}

abbrev pub registry_only : RegistryClient → ArtifactStore
registry_only registry = record { local_root = none; registry = some registry }

-- `load_json_file`, of a file's bytes. `read_to_string` wants UTF-8.
unfoldable pub load_json_file {ℓ} : {A : Type ℓ} → (Bytes → Option A) → Text → Bytes → Outcome A
load_json_file read path bytes = do
  ensure (is_utf8 bytes) (detail "failed to read JSON file: {}" (path ∷ []))
  expect (read bytes) (detail "failed to parse JSON file: {}" (path ∷ []))

-- `if let Some(root) = …` with the test `path.exists()`: the path and the bytes of a local file.
unfoldable pub local_file : Option Text → (Text → Text) → Disk → Option (Text × Bytes)
local_file none path_in disk = none
local_file (some root) path_in disk = elim (match_text (path_in root) disk) [
  | none ↦ none
  | some bytes ↦ some (path_in root, bytes)
]

module _ (json : RegistryJson) (join : Text → Text → Text) where
  unfoldable pub load_manifest : ArtifactStore → Disk → Text → Outcome Manifest
  load_manifest store disk version =
      elim (local_file store.local_root (λ root. join root (codes "manifest.json")) disk) [
        | some (path, bytes) ↦ load_json_file json.read_manifest path bytes
        | none ↦ elim store.registry [
          | some registry ↦ fetch_manifest json registry version
          | none ↦
              err (message "manifest not available locally and no registry fallback configured")
        ]
      ]

  abbrev pub local_circuit_path : Text → Text → Text
  local_circuit_path circuit_name root =
      join (join root (codes "circuits")) (circuit_name ++ codes ".json")

  unfoldable pub load_packaged_circuit :
      ArtifactStore → Disk → Text → Text → Outcome PackagedCircuit
  load_packaged_circuit store disk version circuit_name =
      elim (local_file store.local_root (local_circuit_path circuit_name) disk) [
        | some (path, bytes) ↦ load_json_file json.read_circuit path bytes
        | none ↦ elim store.registry [
          | some registry ↦ do
            manifest ← load_manifest store disk version
            fetch_packaged_circuit json registry manifest circuit_name
          | none ↦ err (
              detail
                "circuit {circuit_name} not available locally and no registry fallback configured"
                (circuit_name ∷ []))
        ]
      ]
