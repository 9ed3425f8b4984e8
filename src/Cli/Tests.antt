-- ===== src/Cli/Tests.antt =====
-- The command line on the example machine, and the theorems at it.
use vocdoni_passport_prover.Prelude.{
  ◌≡◌, refl, false, true, none, some, List, [], ◌∷◌, ◌++◌, ℕ, replicate, ok,
}
use vocdoni_passport_prover.Prelude.Text.{
  Text, codes, text_eq, match_text, is_utf8, hex_bytes, trim, is_empty,
}
use vocdoni_passport_prover.Types.{IsValid, validate, OuterProofResult}
use vocdoni_passport_prover.Artifacts.{local_file, load_json_file, load_packaged_circuit}
use vocdoni_passport_prover.Witness.{
  solve_stack, solve_compressed_witness_with_format, solve_serialized_legacy_witness,
  solve_serialized_legacy_witness_for_circuit,
}
use vocdoni_passport_prover.PublicInputs.{chunks, split_hex_fields, outer_nullifier}
use vocdoni_passport_prover.Io.{
  workspace_root, canonical_root, with_temp_file, without_file, read_to_string, as_text, World,
  contains, exists_in, read, put, add_dir, write, create_dir_all, output, temporary, outside,
  dirs_outside, remove_dir, with_temp_dir,
}
use vocdoni_passport_prover.Io.Example.{world}
use vocdoni_passport_prover.Proving.Binary.{run_command, own_bb_binary, ensure_bb_binary}
use vocdoni_passport_prover.Proving.{
  ultra_honk_poseidon2, read_required_file, public_inputs_count, prove_command,
  write_circuit_artifact, write_witness, decode_vkey, write_packaged_verification_key,
  collect_proof, prove_in, prove_circuit_with_witness, verify_command, verify_in,
  verify_circuit_proof,
}
use vocdoni_passport_prover.Cli.{
  local_artifacts_dir_for_version, artifact_store_from_options, load_input, legacy,
  verification_keys_match, packaged_verification_key, verify_inner_proof,
  solve_serialized_witness_for_circuit_with_format,
}
use vocdoni_passport_prover.Cli.Example.{setting, store, jobs, fixture, fixtures, requests}
use vocdoni_passport_prover.Cli.Requests.{Answers, aggregate_request-Answers}
use vocdoni_passport_prover.Cli.Scripts.{
  run_script, aggregate_inputs_at, run_aggregate_inputs_script,
}
use vocdoni_passport_prover.Cli.Jobs.{
  Summary, create_if, persist_if, persist_proof_artifacts, persist_witness, persist_summary,
  prove_job, prove_job_if, solve_job, run_job, run_jobs, solve_fixture_jobs,
}
use vocdoni_passport_prover.Cli.Entries.{Pairs, Entered, solve_fixture_jobs-Entered}
use vocdoni_passport_prover.Config.{
  load_compatibility_matrix, registry_from_matrix, load_json, load_fixture_bundle,
}
use vocdoni_passport_prover.Cli.Commands.{validate_fixture_command}
use vocdoni_passport_prover.Cli.Inputs.{load_input-IsValid}
use vocdoni_passport_prover.Cli.Outer.{
  create_parent, write_output, aggregate_request, outer_options, outer_metadata, outer_result_of,
  prove_and_check, aggregate,
}

abbrev summary : Summary
summary = record {
  generate_proofs = true;
  circuits =
      record {
        circuit_name = codes "outer";
        witness_bytes = 6;
        paths = some (codes "o/outer.inputs.json", codes "o/outer.witness.bin");
        proof = some (record {
          proof_bytes = 2;
          public_inputs_count = 2;
          proof_verified = true;
          generated_vk_matches_packaged = true;
        });
      }
      ∷ [];
  summary_path = some (codes "o/summary.json");
}

abbrev after_jobs : World
after_jobs =
    (solve_fixture_jobs setting (λ s. []) store (codes "1") jobs (some (codes "o")) true
      ultra_honk_poseidon2 world).0

jobs_run :
    solve_fixture_jobs setting
      (λ s. [])
      store
      (codes "1")
      jobs
      (some (codes "o"))
      true
      ultra_honk_poseidon2
      world
    ≡ (after_jobs, ok summary)
unfolding contains exists_in read put add_dir write create_dir_all output temporary outside
    dirs_outside remove_dir with_temp_dir run_command own_bb_binary ensure_bb_binary
    read_required_file public_inputs_count prove_command write_circuit_artifact write_witness
    decode_vkey write_packaged_verification_key collect_proof prove_in prove_circuit_with_witness
    text_eq match_text verify_command verify_in verify_circuit_proof verification_keys_match
    packaged_verification_key verify_inner_proof create_if persist_if persist_proof_artifacts
    persist_witness persist_summary prove_job prove_job_if solve_job run_job run_jobs
    solve_fixture_jobs local_file load_json_file load_packaged_circuit is_utf8 solve_stack
    solve_compressed_witness_with_format solve_serialized_legacy_witness
    solve_serialized_legacy_witness_for_circuit
jobs_run = refl

solve_fixture_jobs-Entered_example :
    Pairs (Entered setting store (codes "1") ultra_honk_poseidon2) jobs summary.circuits
solve_fixture_jobs-Entered_example =
    solve_fixture_jobs-Entered setting (λ s. []) store (codes "1") jobs (some (codes "o"))
      ultra_honk_poseidon2 world after_jobs summary jobs_run

abbrev concat : List Text → Text
concat [] = []
concat (t ∷ ts) = t ++ concat ts

abbrev field_of : ℕ → Text
field_of digit = codes "0x" ++ concat (replicate 32 (b'0' ∷ digit ∷ []))

abbrev result : OuterProofResult
result = record {
  version = codes "1";
  name = codes "outer";
  proof = codes "0908";
  public_inputs = field_of b'1' ∷ field_of b'2' ∷ [];
  vkey_hash = codes "h";
  nullifier = some (field_of b'1');
  metadata = outer_metadata legacy (outer_options false none) true true;
}

abbrev after_request : World
after_request =
    (aggregate_request requests (codes "q") (some (codes "r")) (codes "bb") (some (codes "out"))
      legacy false none world).0

requests_run :
    aggregate_request requests
      (codes "q")
      (some (codes "r"))
      (codes "bb")
      (some (codes "out"))
      legacy
      false
      none
      world
    ≡ (after_request, ok result)
unfolding contains exists_in read put add_dir write create_dir_all output temporary outside
    dirs_outside remove_dir with_temp_dir run_command own_bb_binary ensure_bb_binary
    read_required_file public_inputs_count prove_command write_circuit_artifact write_witness
    decode_vkey write_packaged_verification_key collect_proof prove_in prove_circuit_with_witness
    text_eq match_text verify_command verify_in verify_circuit_proof verification_keys_match
    packaged_verification_key verify_inner_proof create_if persist_if persist_proof_artifacts
    persist_witness persist_summary prove_job prove_job_if solve_job run_job run_jobs
    solve_fixture_jobs local_file load_json_file load_packaged_circuit is_utf8 solve_stack
    solve_compressed_witness_with_format solve_serialized_legacy_witness
    solve_serialized_legacy_witness_for_circuit solve_serialized_witness_for_circuit_with_format
    prove_and_check aggregate outer_options split_hex_fields outer_result_of hex_bytes chunks
    outer_nullifier aggregate_request write_output create_parent local_artifacts_dir_for_version
    load_compatibility_matrix load_json read_to_string as_text run_aggregate_inputs_script
    aggregate_inputs_at run_script workspace_root canonical_root with_temp_file without_file
    artifact_store_from_options registry_from_matrix trim
requests_run = refl

aggregate_request-Answers_example :
    Answers requests
      (codes "q")
      (some (codes "r"))
      (some (codes "out"))
      legacy
      false
      none
      after_request
      result
aggregate_request-Answers_example =
    aggregate_request-Answers requests (codes "q") (some (codes "r")) (codes "bb")
      (some (codes "out")) legacy false none world after_request result requests_run

load_input-IsValid_example :
    IsValid fixture
    × (world ≡ world)
    × (validate_fixture_command fixtures (some (codes "bb")) none world ≡ (world, ok fixture))
unfolding load_input load_fixture_bundle load_json read_to_string read as_text is_utf8 match_text
    text_eq validate trim is_empty
load_input-IsValid_example =
    load_input-IsValid fixtures (some (codes "bb")) none world world fixture refl
