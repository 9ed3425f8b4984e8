-- ===== src/Registry/Tests.antt =====
-- A registry with one circuit, its snapshot, and the theorems at it.
use vocdoni_passport_prover.Prelude.{
  ap, ℕ, get_elem?, ◌≢◌, arith, true, none, some, [], ◌∷◌, ◌++◌, ◌≡◌, refl, ok,
}
use vocdoni_passport_prover.Prelude.Text.{Text, append-cancel_left, codes, text_eq, match_text}
use vocdoni_passport_prover.Json.{null}
use vocdoni_passport_prover.Web.{body, body_of, decode_json_bytes, is_gzip, unreachable}
use vocdoni_passport_prover.Resolution.{Manifest}
use vocdoni_passport_prover.Registry.{
  PackagedCircuit, RegistrySnapshot, RegistryClient, RegistryJson, Disk, FileSystem, option_text_eq,
  insert_text, text_le, sort_texts, dedup, collect, fetch_manifest, node_of, fetch_packaged_circuit,
  fingerprint_of, snapshot_circuits, check_node, check_artifact, live_artifact, write_circuits,
  prepare, materialize_snapshot,
}
use vocdoni_passport_prover.Registry.Readable.{
  KeepsApart, IsFileName, has_slash, Readable, materialize_snapshot-Readable,
}
use vocdoni_passport_prover.Registry.Materialized.{
  Materialized, materialize_snapshot-snapshot_circuits,
}

abbrev manifest : Manifest
manifest = record {
  version = codes "0.18.0";
  root = codes "0xroot";
  circuits = (codes "outer", record { hash = codes "0x1"; size = 7 }) ∷ [];
}

abbrev artifact : PackagedCircuit
artifact = record {
  name = some (codes "outer");
  noir_version = some (codes "1.0.0");
  bb_version = none;
  size = some 7;
  abi = null;
  bytecode = [];
  vkey = [];
  vkey_hash = codes "0x2";
  hash = none;
}

abbrev client : RegistryClient
client = record {
  http = record { get = λ url. body []; post = λ url v. unreachable; gunzip = λ b. none };
  manifest_base_url = codes "m";
  artifact_base_url = codes "a";
}

abbrev json : RegistryJson
json = record {
  read_manifest = λ b. some manifest;
  read_circuit = λ b. some artifact;
  write_manifest = λ m. m.root;
  write_circuit = λ c. c.vkey_hash;
  now = some 9;
  debug = λ o. [];
}

abbrev fs : FileSystem
fs = record { join = λ dir name. dir ++ b'/' ∷ name; can_create = λ p. true; can_write = λ p. true }

abbrev snapshot : RegistrySnapshot
snapshot = record {
  generated_at_unix = 9;
  manifest_version = codes "0.18.0";
  manifest_root = codes "0xroot";
  circuits =
      record {
        name = codes "outer";
        manifest_hash = codes "0x1";
        manifest_size = 7;
        noir_version = some (codes "1.0.0");
        bb_version = none;
        vkey_hash = codes "0x2";
      }
      ∷ [];
}

abbrev after : Disk
after =
    (codes "out/circuits/outer.json", codes "0x2")
    ∷ (codes "out/manifest.json", codes "0xroot")
    ∷ []

fetched : fetch_manifest json client (codes "0.18.0") ≡ ok manifest
unfolding fetch_manifest body_of decode_json_bytes is_gzip
fetched = refl

taken :
    snapshot_circuits json client (codes "0.18.0") (codes "outer" ∷ codes "outer" ∷ [])
    ≡ ok snapshot
unfolding snapshot_circuits fetch_manifest body_of decode_json_bytes is_gzip collect fingerprint_of
    node_of match_text text_eq fetch_packaged_circuit dedup sort_texts insert_text text_le
taken = refl

materialized : materialize_snapshot json client fs snapshot (codes "out") [] ≡ (after, ok tt)
unfolding materialize_snapshot prepare write_circuits live_artifact check_node check_artifact
    option_text_eq fetch_manifest body_of decode_json_bytes is_gzip node_of match_text text_eq
    fetch_packaged_circuit
materialized = refl

-- The byte behind `out/`.
abbrev fifth : Text → ℕ
fifth s = elim (get_elem? s 4) [ some c ↦ c | none ↦ 0 ]

c_ne_m : ◌≢◌ {A = ℕ} b'c' b'm'
c_ne_m h = omega arith

apart : KeepsApart fs (codes "out")
apart = record {
  names = λ a b u v e. append-cancel_left (codes "out/circuits/") a b e;
  beside = λ a u e. c_ne_m (ap fifth e);
}

outer_IsFileName : IsFileName (codes "outer")
unfolding has_slash
outer_IsFileName = refl

materialize_snapshot-Readable_example : Readable json client fs (codes "out") snapshot after
materialize_snapshot-Readable_example =
    materialize_snapshot-Readable json client fs (codes "out") snapshot [] after apart
      (outer_IsFileName, tt) materialized

materialize_snapshot-snapshot_circuits_example :
    (d : Disk) × (materialize_snapshot json client fs snapshot (codes "out") [] ≡ (d, ok tt))
    × Materialized json client fs (codes "out") snapshot d
materialize_snapshot-snapshot_circuits_example =
    materialize_snapshot-snapshot_circuits json client fs (codes "out") (codes "0.18.0")
      (codes "outer" ∷ codes "outer" ∷ []) snapshot manifest [] fetched refl taken (λ p. refl)
      (λ p. refl)
