-- ===== src/Artifacts/Tests.antt =====
-- A store on the directory of a materialized snapshot, and the theorem at it.
use vocdoni_passport_prover.Prelude.{ap, ℕ, get_elem?, ◌≢◌, arith}
use vocdoni_passport_prover.Prelude.{true, none, some, [], ◌∷◌, ◌++◌, ◌≡◌, refl, ok}
use vocdoni_passport_prover.Prelude.Text.{Text, codes, text_eq, match_text, is_utf8}
use vocdoni_passport_prover.Json.{null}
use vocdoni_passport_prover.Web.{body, body_of, decode_json_bytes, is_gzip, unreachable}
use vocdoni_passport_prover.Resolution.{Manifest}
use vocdoni_passport_prover.Registry.{
  PackagedCircuit, RegistrySnapshot, RegistryClient, RegistryJson, Disk, FileSystem, option_text_eq,
  fetch_manifest, node_of, fetch_packaged_circuit, check_node, check_artifact, live_artifact,
  write_circuits, prepare, materialize_snapshot,
}
use vocdoni_passport_prover.Prelude.{All, >>=-eq-ok}
use vocdoni_passport_prover.Prelude.Text.{append-cancel_left}
use mathlib.Core.List.{append_cancel_right}
use vocdoni_passport_prover.Artifacts.{local, load_manifest}
use vocdoni_passport_prover.Artifacts.Offline.{
  Reliable, Loads, load_packaged_circuit-materialize_snapshot,
}

abbrev manifest : Manifest
manifest = record {
  version = codes "0.18.0";
  root = codes "0xroot";
  circuits = (codes "outer", record { hash = codes "0x1"; size = 7 }) ∷ [];
}

abbrev artifact : PackagedCircuit
artifact = record {
  name = some (codes "outer");
  noir_version = some (codes "1.0.0");
  bb_version = none;
  size = some 7;
  abi = null;
  bytecode = [];
  vkey = [];
  vkey_hash = codes "0x2";
  hash = none;
}

abbrev client : RegistryClient
client = record {
  http = record { get = λ url. body []; post = λ url v. unreachable; gunzip = λ b. none };
  manifest_base_url = codes "m";
  artifact_base_url = codes "a";
}

abbrev json : RegistryJson
json = record {
  read_manifest = λ b. some manifest;
  read_circuit = λ b. some artifact;
  write_manifest = λ m. codes "0xroot";
  write_circuit = λ c. codes "0x2";
  now = some 9;
  debug = λ o. [];
}

abbrev fs : FileSystem
fs = record { join = λ dir name. dir ++ b'/' ∷ name; can_create = λ p. true; can_write = λ p. true }

abbrev snapshot : RegistrySnapshot
snapshot = record {
  generated_at_unix = 9;
  manifest_version = codes "0.18.0";
  manifest_root = codes "0xroot";
  circuits =
      record {
        name = codes "outer";
        manifest_hash = codes "0x1";
        manifest_size = 7;
        noir_version = some (codes "1.0.0");
        bb_version = none;
        vkey_hash = codes "0x2";
      }
      ∷ [];
}

abbrev after : Disk
after =
    (codes "out/circuits/outer.json", codes "0x2")
    ∷ (codes "out/manifest.json", codes "0xroot")
    ∷ []

materialized : materialize_snapshot json client fs snapshot (codes "out") [] ≡ (after, ok tt)
unfolding materialize_snapshot prepare write_circuits live_artifact check_node check_artifact
    option_text_eq fetch_manifest body_of decode_json_bytes is_gzip node_of match_text text_eq
    fetch_packaged_circuit
materialized = refl

sent : (v : Text) (m : Manifest) → fetch_manifest json client v ≡ ok m → some manifest ≡ some m
unfolding fetch_manifest body_of decode_json_bytes is_gzip
sent v m h = cc h

sent_circuit :
    (m : Manifest) (name : Text) (c : PackagedCircuit)
    → fetch_packaged_circuit json client m name ≡ ok c
    → some artifact ≡ some c
unfolding fetch_packaged_circuit body_of decode_json_bytes is_gzip
sent_circuit m name c h = let (_, _, k) = >>=-eq-ok (node_of json client m name) _ h in cc k

json_utf8 : (is_utf8 (codes "0xroot") ≡ true) × (is_utf8 (codes "0x2") ≡ true)
unfolding is_utf8
json_utf8 = (refl, refl)

-- The byte behind `out/`.
abbrev fifth : Text → ℕ
fifth s = elim (get_elem? s 4) [ some c ↦ c | none ↦ 0 ]

c_ne_m : ◌≢◌ {A = ℕ} b'c' b'm'
c_ne_m h = omega arith

reliable : Reliable json client fs (codes "out")
reliable = record {
  manifest_back = sent;
  circuit_back = sent_circuit;
  manifest_utf8 = λ m. json_utf8.0;
  circuit_utf8 = λ c. json_utf8.1;
  apart = λ f g e.
      append_cancel_right f.name g.name (codes ".json")
        (append-cancel_left (codes "out/circuits/") _ _ e);
  not_manifest = λ f e. c_ne_m (ap fifth e);
}

load_packaged_circuit-materialize_snapshot_example :
    (m : Manifest) × (load_manifest json fs.join (local (codes "out")) after (codes "any") ≡ ok m)
    × All (Loads json client fs (codes "out") reliable m after (codes "any")) snapshot.circuits
load_packaged_circuit-materialize_snapshot_example =
    load_packaged_circuit-materialize_snapshot json client fs (codes "out") reliable snapshot []
      after (codes "any") materialized
