-- ===== src/Cli/Jobs.antt =====
-- crates/prover-cli/src/main.rs: the circuits of a fixture, solved and proved one after the other.
use vocdoni_passport_prover.Prelude.{
  ℕ, Bool, true, false, Option, none, some, List, [], ◌∷◌, ◌++◌, map, length, Error, detail,
  if◌then◌else◌,
}
use vocdoni_passport_prover.Prelude.Text.{Text, codes}
use vocdoni_passport_prover.Der.{Bytes}
use vocdoni_passport_prover.Registry.{PackagedCircuit}
use vocdoni_passport_prover.Artifacts.{ArtifactStore}
use vocdoni_passport_prover.Pipeline.{ResolvedProofPlan}
use vocdoni_passport_prover.Witness.{
  solve_serialized_legacy_witness_for_circuit, solve_compressed_witness_for_circuit,
}
use vocdoni_passport_prover.Proving.{ProofArtifacts, ProofOptions, prove_circuit_with_witness}
use vocdoni_passport_prover.Io.{Action, ◌>>=◌, ◌>>◌, return, lift, within_io, write, create_dir_all}
use vocdoni_passport_prover.Cli.{
  Setting, ReferenceInputsFile, CircuitSolveJob, with_format, verification_keys_match,
  packaged_verification_key, verify_inner_proof, circuit_of,
}

unfoldable pub collect_solve_jobs : ReferenceInputsFile → ResolvedProofPlan → List CircuitSolveJob
collect_solve_jobs reference resolved =
    (record { circuit_name = resolved.circuits.dsc_name; inputs = reference.dsc_inputs }
      ∷ record { circuit_name = resolved.circuits.id_data_name; inputs = reference.id_data_inputs }
      ∷ record {
        circuit_name = resolved.circuits.integrity_name;
        inputs = reference.integrity_inputs;
      }
      ∷ [])
    ++ map (λ d. record { circuit_name = d.circuit_name; inputs = d.inputs }) reference.disclosures

pub record ProofEntry : Type 0 where
  pub proof_bytes : ℕ
  pub public_inputs_count : ℕ
  pub proof_verified : Bool
  pub generated_vk_matches_packaged : Bool

-- An entry of the summary: the keys of the JSON object that are always there, the two paths, and
-- the four keys of a proof.
pub record JobEntry : Type 0 where
  pub circuit_name : Text
  pub witness_bytes : ℕ
  pub paths : Option (Text × Text)
  pub proof : Option ProofEntry

pub record Summary : Type 0 where
  pub generate_proofs : Bool
  pub circuits : List JobEntry
  pub summary_path : Option Text

module _ (s : Setting) where
  -- `write` with its message.
  abbrev pub write_file : Text → Bytes → Error → Action (Unit {0})
  write_file path bytes e = write s.os path bytes e

  unfoldable pub persist_proof_artifacts :
      Text → Text → ProofArtifacts → Bytes → Bool → Action (Unit {0})
  persist_proof_artifacts output_dir circuit_name proof packaged_verification_key matches = do
    write_file (s.os.fs.join output_dir (circuit_name ++ codes ".proof.bin")) proof.proof (
        detail "failed to write proof file: {}"
          (s.os.fs.join output_dir (circuit_name ++ codes ".proof.bin") ∷ []))
    write_file (s.os.fs.join output_dir (circuit_name ++ codes ".vk.bin")) packaged_verification_key
        (detail "failed to write verification key file: {}"
          (s.os.fs.join output_dir (circuit_name ++ codes ".vk.bin") ∷ []))
    if matches
        then return tt
        else write_file (s.os.fs.join output_dir (circuit_name ++ codes ".generated_vk.bin"))
            proof.verification_key
            (detail "failed to write generated verification key file: {}"
              (s.os.fs.join output_dir (circuit_name ++ codes ".generated_vk.bin") ∷ []))
    write_file (s.os.fs.join output_dir (circuit_name ++ codes ".public_inputs.bin"))
        proof.public_inputs
        (detail "failed to write public inputs file: {}"
          (s.os.fs.join output_dir (circuit_name ++ codes ".public_inputs.bin") ∷ []))

  -- The input and the witness of a job, if there is a directory for them.
  unfoldable pub persist_witness :
      Option Text → CircuitSolveJob → Bytes → Action (Option (Text × Text))
  persist_witness none job witness = return none
  persist_witness (some output_dir) job witness = do
    write_file (s.os.fs.join output_dir (job.circuit_name ++ codes ".inputs.json"))
        (s.cli_json.write_value job.inputs)
        (detail "failed to write circuit input file: {}"
          (s.os.fs.join output_dir (job.circuit_name ++ codes ".inputs.json") ∷ []))
    write_file (s.os.fs.join output_dir (job.circuit_name ++ codes ".witness.bin")) witness (
        detail "failed to write witness file: {}"
          (s.os.fs.join output_dir (job.circuit_name ++ codes ".witness.bin") ∷ []))
    return (
        some (
          s.os.fs.join output_dir (job.circuit_name ++ codes ".inputs.json"),
          s.os.fs.join output_dir (job.circuit_name ++ codes ".witness.bin"),
        ))

  unfoldable pub persist_if : Option Text → Text → ProofArtifacts → Bytes → Bool → Action (Unit {0})
  persist_if none name proof vk matches = return tt
  persist_if (some output_dir) name proof vk matches =
      persist_proof_artifacts output_dir name proof vk matches

  abbrev pub prove : PackagedCircuit → Bytes → ProofOptions → Action ProofArtifacts
  prove circuit witness options =
      prove_circuit_with_witness s.os s.config_json s.registry_json s.noir.decode_base64 s.platform
        circuit witness options

  -- The proof of a job.
  unfoldable pub prove_job :
      Option Text → ProofOptions → CircuitSolveJob → PackagedCircuit → Bytes → Action ProofEntry
  prove_job output_dir options job circuit witness = do
    proof ←
        within_io (detail "failed to generate proof for {}" (job.circuit_name ∷ []))
          (prove circuit witness options)
    packaged_vk ← lift (packaged_verification_key s circuit)
    verified ←
        within_io (detail "failed to verify proof for {}" (job.circuit_name ∷ []))
          (verify_inner_proof s proof packaged_vk options)
    persist_if output_dir job.circuit_name proof packaged_vk
        (verification_keys_match packaged_vk proof.verification_key)
    return (record {
      proof_bytes = length proof.proof;
      public_inputs_count = proof.public_inputs_count;
      proof_verified = verified;
      generated_vk_matches_packaged = verification_keys_match packaged_vk proof.verification_key;
    })

  -- Barretenberg takes the legacy format; a witness that is only solved is in the compact one.
  unfoldable pub solve_job : Bool → CircuitSolveJob → PackagedCircuit → Action Bytes
  solve_job true job circuit =
      with_format (solve_serialized_legacy_witness_for_circuit s.noir circuit job.inputs)
  solve_job false job circuit =
      with_format (solve_compressed_witness_for_circuit s.noir circuit job.inputs)

  unfoldable pub prove_job_if :
      Bool
      → Option Text
      → ProofOptions
      → CircuitSolveJob
      → PackagedCircuit
      → Bytes
      → Action (Option ProofEntry)
  prove_job_if true output_dir options job circuit witness = do
    entry ← prove_job output_dir options job circuit witness
    return (some entry)
  prove_job_if false output_dir options job circuit witness = return none

  -- The body of the loop.
  unfoldable pub run_job :
      ArtifactStore → Text → Option Text → Bool → ProofOptions → CircuitSolveJob → Action JobEntry
  run_job store version output_dir generate_proofs options job = do
    circuit ← circuit_of s store version job.circuit_name
    witness ←
        within_io (detail "failed to solve witness for {}" (job.circuit_name ∷ []))
          (solve_job generate_proofs job circuit)
    paths ← persist_witness output_dir job witness
    proof ← prove_job_if generate_proofs output_dir options job circuit witness
    return (record {
      circuit_name = job.circuit_name;
      witness_bytes = length witness;
      paths = paths;
      proof = proof;
    })

  unfoldable pub run_jobs :
      ArtifactStore
      → Text
      → Option Text
      → Bool
      → ProofOptions
      → List CircuitSolveJob
      → Action (List JobEntry)
  run_jobs store version output_dir generate_proofs options [] = return []
  run_jobs store version output_dir generate_proofs options (job ∷ jobs) = do
    entry ← run_job store version output_dir generate_proofs options job
    entries ← run_jobs store version output_dir generate_proofs options jobs
    return (entry ∷ entries)

  module _ (write_summary : Summary → Bytes) where
    -- The path is added to the summary after it is written.
    unfoldable pub persist_summary : Option Text → Bool → List JobEntry → Action Summary
    persist_summary none generate_proofs entries =
        return
          (record { generate_proofs = generate_proofs; circuits = entries; summary_path = none })
    persist_summary (some output_dir) generate_proofs entries = do
      write_file (s.os.fs.join output_dir (codes "summary.json"))
          (write_summary
            (record { generate_proofs = generate_proofs; circuits = entries; summary_path = none }))
          (detail "failed to write summary file: {}"
            (s.os.fs.join output_dir (codes "summary.json") ∷ []))
      return (record {
        generate_proofs = generate_proofs;
        circuits = entries;
        summary_path = some (s.os.fs.join output_dir (codes "summary.json"));
      })

    unfoldable pub create_if : Option Text → Action (Unit {0})
    create_if none = return tt
    create_if (some output_dir) =
        create_dir_all s.os output_dir
          (detail "failed to create output directory: {}" (output_dir ∷ []))

    unfoldable pub solve_fixture_jobs :
        ArtifactStore
        → Text
        → List CircuitSolveJob
        → Option Text
        → Bool
        → ProofOptions
        → Action Summary
    solve_fixture_jobs store version jobs output_dir generate_proofs options = do
      create_if output_dir
      entries ← run_jobs store version output_dir generate_proofs options jobs
      persist_summary output_dir generate_proofs entries
