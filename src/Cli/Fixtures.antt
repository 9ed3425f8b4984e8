-- ===== src/Cli/Fixtures.antt =====
-- crates/prover-cli/src/main.rs: the commands that resolve, solve and prove a fixture.
use vocdoni_passport_prover.Prelude.{
  ℕ, Bool, true, false, Option, none, some, List, [], ◌∷◌, length, message, detail, Outcome, ok,
  err, panic, unfinished,
}
use vocdoni_passport_prover.Prelude.Text.{Text, codes}
use vocdoni_passport_prover.Types.{FixtureBundle}
use vocdoni_passport_prover.Planning.{ProofPlan}
use vocdoni_passport_prover.Certificates.{PackagedCertificatesFile}
use vocdoni_passport_prover.Pipeline.{
  ResolvedProofPlan, plan_fixture, analyze_fixture, resolve_proof_plan, prove_inner, prove_outer,
}
use vocdoni_passport_prover.Config.{CompatibilityMatrix, load_json, load_fixture_dir}
use vocdoni_passport_prover.Witness.{solve_compressed_witness, solve_compressed_witness_for_circuit}
use vocdoni_passport_prover.Proving.{ProofOptions, ultra_honk_poseidon2}
use vocdoni_passport_prover.Der.{Bytes}
use vocdoni_passport_prover.Io.{Action, ◌>>=◌, return, lift, bail}
use vocdoni_passport_prover.Cli.{
  Setting, ReferenceInputsFile, CircuitSolveJob, with_format, of_step, load_input,
  load_packaged_circuit_file, load_json_value_file, artifact_store_from_options, manifest_of,
  output_dir_or,
}
use vocdoni_passport_prover.Cli.Scripts.{run_reference_inputs_script, materialize_certificates_path}
use vocdoni_passport_prover.Cli.Jobs.{Summary, collect_solve_jobs, solve_fixture_jobs}
use vocdoni_passport_prover.Cli.Commands.{
  matrix_at, certificates_or_fetch, manifest_or_store, csca_of,
}

module _ (s : Setting) where
  unfoldable pub resolve_document_circuits_command :
      Option Text
      → Option Text
      → Option Text
      → Option Text
      → Option Text
      → Option Text
      → Option Text
      → Text
      → Action (ProofPlan × ResolvedProofPlan)
  resolve_document_circuits_command file dir cert_root certificates manifest_path version
        artifacts_dir matrix_path =
      do
        fixture ← load_input s file dir
        matrix ← matrix_at s matrix_path
        proof_plan ← lift (of_step s (plan_fixture fixture))
        analysis ← lift (of_step s (analyze_fixture s.checks s.libraries fixture))
        packaged ← certificates_or_fetch s matrix certificates cert_root
        csca ← csca_of s analysis packaged
        manifest ← manifest_or_store s matrix manifest_path version artifacts_dir
        resolved_plan ←
            lift (of_step s (resolve_proof_plan s.checks s.libraries fixture manifest csca))
        return (proof_plan, resolved_plan)

  unfoldable pub reference_inputs :
      Text → Option Text → Option Text → Text → Option Text → Action ReferenceInputsFile
  reference_inputs dir cert_root certificates matrix_path output = do
    matrix ← matrix_at s matrix_path
    materialize_certificates_path s matrix certificates cert_root
        (λ packaged path. run_reference_inputs_script s dir path output)

  -- The jobs of a fixture, which `SolveFixtureWitnesses` and `ProveFixtureInner` both find.
  unfoldable pub jobs_of :
      CompatibilityMatrix
      → Text
      → Option Text
      → FixtureBundle
      → PackagedCertificatesFile
      → Text
      → Action (List CircuitSolveJob)
  jobs_of matrix dir artifacts_dir fixture packaged certificates_path = do
    reference ← run_reference_inputs_script s dir certificates_path none
    manifest ←
        manifest_of s (artifact_store_from_options s matrix artifacts_dir)
          fixture.request.circuit_version
    analysis ← lift (of_step s (analyze_fixture s.checks s.libraries fixture))
    csca ← csca_of s analysis packaged
    resolved ← lift (of_step s (resolve_proof_plan s.checks s.libraries fixture manifest csca))
    return (collect_solve_jobs reference resolved)

  module _ (write_summary : Summary → Bytes) where
    -- What both commands do with the jobs.
    unfoldable pub run_fixture :
        Text
        → Option Text
        → Option Text
        → Option Text
        → Text
        → Option Text
        → Text
        → Bool
        → ProofOptions
        → Action Summary
    run_fixture dir cert_root certificates artifacts_dir matrix_path output_dir part generate_proofs
          options =
        do
          matrix ← matrix_at s matrix_path
          fixture ← load_fixture_dir s.config_json s.os.fs.join dir
          materialize_certificates_path s matrix certificates cert_root
              λ packaged certificates_path.
                jobs_of matrix dir artifacts_dir fixture packaged certificates_path >>= λ jobs.
                output_dir_or s output_dir dir part >>= λ outputs.
                solve_fixture_jobs s write_summary
                  (artifact_store_from_options s matrix artifacts_dir)
                  fixture.request.circuit_version jobs (some outputs) generate_proofs options

    unfoldable pub solve_fixture_witnesses :
        Text → Option Text → Option Text → Option Text → Text → Option Text → Action Summary
    solve_fixture_witnesses dir cert_root certificates artifacts_dir matrix_path output_dir =
        run_fixture dir cert_root certificates artifacts_dir matrix_path output_dir
          (codes "witnesses") false ultra_honk_poseidon2

    unfoldable pub prove_fixture_inner :
        Text
        → Option Text
        → Option Text
        → Option Text
        → Text
        → Option Text
        → Bool
        → Option ℕ
        → Action Summary
    prove_fixture_inner dir cert_root certificates artifacts_dir matrix_path output_dir low_memory
          max_storage =
        run_fixture dir cert_root certificates artifacts_dir matrix_path output_dir (codes "proofs")
          true
          (record ultra_honk_poseidon2 {
            low_memory_mode = low_memory;
            max_storage_usage = max_storage;
          })

  -- It prints the number of bytes of the witness.
  unfoldable pub solve_witness : Option Text → Option Text → Option Text → Action ℕ
  solve_witness (some payload_path) none none = do
    payload ←
        load_json s.cli_json.read_payload
          (detail "failed to read witness payload: {}" (payload_path ∷ []))
          (detail "failed to parse witness payload: {}" (payload_path ∷ [])) payload_path
    witness ← with_format (solve_compressed_witness s.noir payload)
    return (length witness)
  solve_witness none (some artifact) (some inputs_path) = do
    circuit ← load_packaged_circuit_file s artifact
    inputs ← load_json_value_file s inputs_path
    witness ← with_format (solve_compressed_witness_for_circuit s.noir circuit inputs)
    return (length witness)
  solve_witness payload artifact inputs =
      bail (message "provide either --payload or both --artifact and --inputs")

  -- "ok", or the text of the error.
  unfoldable pub shown : {A : Type 0} → Outcome A → Outcome Text
  shown (ok a) = ok (codes "ok")
  shown (err e) = ok (s.cli_json.show_error e)
  shown panic = panic
  shown unfinished = unfinished

  unfoldable pub prove_all : Option Text → Option Text → Action (Text × Text)
  prove_all file dir = do
    fixture ← load_input s file dir
    inner ← lift (shown (of_step s (prove_inner fixture)))
    outer ← lift (shown (of_step s (prove_outer fixture)))
    return (inner, outer)
