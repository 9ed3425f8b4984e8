-- ===== src/Proving/Tests.antt =====
-- A proof on the example machine, and the theorem at it.
use vocdoni_passport_prover.Prelude.{◌≡◌, refl, ◌↔◌, none, some, [], ◌∷◌, ok}
use vocdoni_passport_prover.Prelude.Text.{Text, codes, text_eq, match_text}
use vocdoni_passport_prover.Der.{Bytes}
use vocdoni_passport_prover.Json.{null}
use vocdoni_passport_prover.Registry.{PackagedCircuit, RegistryJson}
use vocdoni_passport_prover.Config.{ConfigJson}
use vocdoni_passport_prover.Witness.{Attempt, good}
use vocdoni_passport_prover.Io.{
  contains, exists_in, read, put, add_dir, write, create_dir_all, output, temporary, outside,
  dirs_outside, remove_dir, with_temp_dir,
}
use vocdoni_passport_prover.Io.Example.{os, world, inputs}
use vocdoni_passport_prover.Proving.Binary.{run_command, own_bb_binary, ensure_bb_binary}
use vocdoni_passport_prover.Proving.{
  ProofArtifacts, ultra_honk_keccak, read_required_file, public_inputs_count, prove_command,
  write_circuit_artifact, write_witness, decode_vkey, write_packaged_verification_key,
  collect_proof, prove_in, prove_circuit_with_witness,
}
use vocdoni_passport_prover.Proving.Proofs.{Proved, prove_circuit_with_witness_iff}

abbrev circuit : PackagedCircuit
circuit = record {
  name = some (codes "outer");
  noir_version = none;
  bb_version = none;
  size = none;
  abi = null;
  bytecode = [];
  vkey = codes "v";
  vkey_hash = [];
  hash = none;
}

abbrev json : RegistryJson
json = record {
  read_manifest = λ b. none;
  read_circuit = λ b. some circuit;
  write_manifest = λ m. [];
  write_circuit = λ c. c.vkey;
  now = none;
  debug = λ o. [];
}

abbrev config : ConfigJson
config = record {
  read_matrix = λ t. none;
  read_bundle = λ t. none;
  read_document = λ t. none;
  read_request = λ t. none;
  read_outer = λ t. none;
}

abbrev decode : Text → Attempt Bytes
decode t = good t

abbrev platform : Text × Text
platform = (codes "linux", codes "x86_64")

abbrev artifacts : ProofArtifacts
artifacts = record {
  proof = 9 ∷ 8 ∷ [];
  public_inputs = inputs;
  verification_key = codes "v";
  public_inputs_count = 2;
}

proves :
    (prove_circuit_with_witness os config json decode platform circuit
      (5 ∷ [])
      ultra_honk_keccak
      world).1
    ≡ ok artifacts
unfolding contains exists_in read put add_dir write create_dir_all output temporary outside
    dirs_outside remove_dir with_temp_dir run_command own_bb_binary ensure_bb_binary
    read_required_file public_inputs_count prove_command write_circuit_artifact write_witness
    decode_vkey write_packaged_verification_key collect_proof prove_in prove_circuit_with_witness
    text_eq match_text
proves = refl

prove_circuit_with_witness_iff_example :
    ((prove_circuit_with_witness os config json decode platform circuit
        (5 ∷ [])
        ultra_honk_keccak
        world).1
      ≡ ok artifacts)
    ↔ Proved os config json decode platform circuit (5 ∷ []) ultra_honk_keccak world artifacts
prove_circuit_with_witness_iff_example =
    prove_circuit_with_witness_iff os config json decode platform circuit (5 ∷ []) ultra_honk_keccak
      world artifacts
