-- ===== src/Cli/Entries.antt =====
-- The summary of proved jobs: each entry is about a proof that `bb` made of the job's witness.
use vocdoni_passport_prover.Prelude.{
  ◌≡◌, refl, sym, ap, subst, true, Option, none, some, List, [], ◌∷◌, length, ok,
}
use vocdoni_passport_prover.Prelude.Text.{Text, codes, text_eq_refl}
use vocdoni_passport_prover.Der.{Bytes}
use vocdoni_passport_prover.Registry.{PackagedCircuit, Disk}
use vocdoni_passport_prover.Artifacts.{ArtifactStore, load_packaged_circuit}
use vocdoni_passport_prover.Witness.{good, Env, solve_serialized_legacy_witness_for_circuit}
use vocdoni_passport_prover.Proving.{ProofArtifacts, ProofOptions}
use vocdoni_passport_prover.Proving.Proofs.{Proved, prove_circuit_with_witness-Proved}
use vocdoni_passport_prover.Proving.Verification.{Verified, verify_circuit_proof-Verified}
use vocdoni_passport_prover.Io.{World, within_io}
use vocdoni_passport_prover.Io.Laws.{>>=-eq-ok_io, within_io-eq-ok, lift-next, step-next}
use vocdoni_passport_prover.Cli.{
  Setting, CircuitSolveJob, verification_keys_match, packaged_verification_key, verify_inner_proof,
  circuit_of,
}
use vocdoni_passport_prover.Cli.Jobs.{
  ProofEntry, persist_if, JobEntry, Summary, prove, prove_job, prove_job_if, solve_job,
  persist_witness, run_job, run_jobs, persist_summary, create_if, solve_fixture_jobs,
}

-- Each item of one list with the item at its place in the other.
pub Pairs {ℓ} : {A B : Type ℓ} → (A → B → Type 0) → List A → List B → Type 0
Pairs P [] [] = Unit {0}
Pairs P [] (y ∷ ys) = ⊥
Pairs P (x ∷ xs) [] = ⊥
Pairs P (x ∷ xs) (y ∷ ys) = P x y × Pairs P xs ys

module _ (s : Setting) where
  pub packaged_verification_key-eq-ok :
      (circuit : PackagedCircuit) {key vk : Bytes}
      → s.noir.decode_base64 circuit.vkey ≡ good key
      → packaged_verification_key s circuit ≡ ok vk
      → vk ≡ key
  unfolding packaged_verification_key
  packaged_verification_key-eq-ok circuit d h = cc (rw (packaged_verification_key, d) at h)

  pub verification_keys_match_refl : (vk : Bytes) → verification_keys_match vk vk ≡ true
  unfolding verification_keys_match
  verification_keys_match_refl vk = text_eq_refl vk

  -- The numbers of an entry are those of a proof. The keys match.
  pub record EntryOf (options : ProofOptions) (circuit : PackagedCircuit) (witness : Bytes)
      (entry : ProofEntry) : Type 0 where
    pub before : World
    pub artifacts : ProofArtifacts
    pub proved :
        Proved s.os s.config_json s.registry_json s.noir.decode_base64 s.platform circuit witness
          options before artifacts
    pub checked : World
    pub verified :
        Verified s.os s.config_json s.registry_json s.noir.decode_base64 s.platform artifacts.proof
          artifacts.public_inputs artifacts.verification_key options checked entry.proof_verified
    pub proof_bytes : entry.proof_bytes ≡ length artifacts.proof
    pub count : entry.public_inputs_count ≡ artifacts.public_inputs_count
    pub matches : entry.generated_vk_matches_packaged ≡ true

  prove_job-EntryOf :
      (output_dir : Option Text) (options : ProofOptions) (job : CircuitSolveJob)
      (circuit : PackagedCircuit) (witness : Bytes) (w : World) {w' : World} {entry : ProofEntry}
      → prove_job s output_dir options job circuit witness w ≡ (w', ok entry)
      → EntryOf options circuit witness entry
  unfolding prove_job verify_inner_proof
  prove_job-EntryOf output_dir options job circuit witness w {entry = entry} h =
      let (w1, proof, h1, k1) =
        >>=-eq-ok_io (within_io _ (prove s circuit witness options)) _ w h in
      let proved =
        prove_circuit_with_witness-Proved s.os s.config_json s.registry_json s.noir.decode_base64
          s.platform circuit witness options w
          (within_io-eq-ok _ (prove s circuit witness options) w h1) in
      let (vk, packaged, k2) = lift-next (packaged_verification_key s circuit) _ w1 k1 in
      let same = packaged_verification_key-eq-ok circuit proved.decoded packaged in
      let (w3, verified, h3, k3) =
        >>=-eq-ok_io (within_io _ (verify_inner_proof s proof vk options)) _ w1 k2 in
      let answered =
        verify_circuit_proof-Verified s.os s.config_json s.registry_json s.noir.decode_base64
          s.platform proof.proof proof.public_inputs vk options w1
          (within_io-eq-ok _ (verify_inner_proof s proof vk options) w1 h3) in
      let (w4, u, h4, k4) =
        >>=-eq-ok_io
          (persist_if s output_dir job.circuit_name proof vk
            (verification_keys_match vk proof.verification_key))
          _ w3 k3 in
      let made : record {
        proof_bytes = length proof.proof;
        public_inputs_count = proof.public_inputs_count;
        proof_verified = verified;
        generated_vk_matches_packaged = verification_keys_match vk proof.verification_key;
      }
          ≡ entry =
        cc (ap (λ x. x.1) k4) in
      subst (EntryOf options circuit witness) made record {
        before = w;
        artifacts = proof;
        proved = proved;
        checked = w1;
        verified =
            subst
              (λ v.
                Verified s.os s.config_json s.registry_json s.noir.decode_base64 s.platform
                  proof.proof proof.public_inputs v options w1 verified)
              same answered;
        proof_bytes = refl;
        count = refl;
        matches =
            subst (λ v. verification_keys_match v proof.verification_key ≡ true) (sym same)
              (verification_keys_match_refl proof.verification_key);
      }

  -- A job whose entry is about a proof: the circuit from the store, a witness in the legacy format.
  pub record Entered (store : ArtifactStore) (version : Text) (options : ProofOptions)
      (job : CircuitSolveJob) (entry : JobEntry) : Type 0 where
    pub name : entry.circuit_name ≡ job.circuit_name
    pub disk : Disk
    pub circuit : PackagedCircuit
    pub loaded :
        load_packaged_circuit s.registry_json s.os.fs.join store disk version job.circuit_name
        ≡ ok circuit
    pub format : Env
    pub witness : Bytes
    pub solved :
        (solve_serialized_legacy_witness_for_circuit s.noir circuit job.inputs format).0
        ≡ ok witness
    pub witness_bytes : entry.witness_bytes ≡ length witness
    pub proof : ProofEntry
    pub listed : entry.proof ≡ some proof
    pub entry_of : EntryOf options circuit witness proof

  run_job-Entered :
      (store : ArtifactStore) (version : Text) (output_dir : Option Text) (options : ProofOptions)
      (job : CircuitSolveJob) (w : World) {w' : World} {entry : JobEntry}
      → run_job s store version output_dir true options job w ≡ (w', ok entry)
      → Entered store version options job entry
  unfolding run_job prove_job_if solve_job
  run_job-Entered store version output_dir options job w {entry = entry} h =
      let (w1, circuit, h1, k1) =
        >>=-eq-ok_io (circuit_of s store version job.circuit_name) _ w h in
      let (w2, witness, h2, k2) =
        >>=-eq-ok_io (within_io _ (solve_job s true job circuit)) _ w1 k1 in
      let (w3, paths, h3, k3) = >>=-eq-ok_io (persist_witness s output_dir job witness) _ w2 k2 in
      let (w4, proof, h4, k4) =
        >>=-eq-ok_io (prove_job_if s true output_dir options job circuit witness) _ w3 k3 in
      let (w5, p, h5, k5) =
        >>=-eq-ok_io (prove_job s output_dir options job circuit witness) _ w3 h4 in
      let made : record {
        circuit_name = job.circuit_name;
        witness_bytes = length witness;
        paths = paths;
        proof = proof;
      }
          ≡ entry =
        cc (ap (λ x. x.1) k4) in
      subst (Entered store version options job) made record {
        name = refl;
        disk = w.files.disk;
        circuit = circuit;
        loaded = ap (λ x. x.1) h1;
        format = w1.format;
        witness = witness;
        solved = ap (λ x. x.1) (within_io-eq-ok _ (solve_job s true job circuit) w1 h2);
        witness_bytes = refl;
        proof = p;
        listed = cc (ap (λ x. x.1) k5);
        entry_of = prove_job-EntryOf output_dir options job circuit witness w3 h5;
      }

  run_jobs-Entered :
      (store : ArtifactStore) (version : Text) (output_dir : Option Text) (options : ProofOptions)
      (jobs : List CircuitSolveJob) (w : World) {w' : World} {entries : List JobEntry}
      → run_jobs s store version output_dir true options jobs w ≡ (w', ok entries)
      → Pairs (Entered store version options) jobs entries
  unfolding run_jobs Pairs
  run_jobs-Entered store version output_dir options [] w {entries = entries} h =
      let made : [] ≡ entries = cc (ap (λ x. x.1) h) in
      subst (Pairs (Entered store version options) []) made tt
  run_jobs-Entered store version output_dir options (job ∷ jobs) w {entries = all} h =
      let (w1, entry, h1, k1) =
        >>=-eq-ok_io (run_job s store version output_dir true options job) _ w h in
      let (w2, entries, h2, k2) =
        >>=-eq-ok_io (run_jobs s store version output_dir true options jobs) _ w1 k1 in
      let made : entry ∷ entries ≡ all = cc (ap (λ x. x.1) k2) in
      subst (Pairs (Entered store version options) (job ∷ jobs)) made (
        run_job-Entered store version output_dir options job w h1,
        run_jobs-Entered store version output_dir options jobs w1 h2,
      )

  persist_summary-circuits :
      (write_summary : Summary → Bytes) (output_dir : Option Text) (entries : List JobEntry)
      (w : World) {w' : World} {summary : Summary}
      → persist_summary s write_summary output_dir true entries w ≡ (w', ok summary)
      → entries ≡ summary.circuits
  unfolding persist_summary
  persist_summary-circuits write_summary none entries w {summary = summary} h =
      let made : record { generate_proofs = true; circuits = entries; summary_path = none }
          ≡ summary =
        cc (ap (λ x. x.1) h) in
      ap (λ (x : Summary). x.circuits) made
  persist_summary-circuits write_summary (some dir) entries w {summary = summary} h =
      let (c, k) = step-next s.os _ _ _ _ w h in
      let made : record {
        generate_proofs = true;
        circuits = entries;
        summary_path = some (s.os.fs.join dir (codes "summary.json"));
      }
          ≡ summary =
        cc (ap (λ x. x.1) k) in
      ap (λ (x : Summary). x.circuits) made

-- A run of the jobs with proofs that comes to its end has one entry for each job, in order. For
-- each of them the circuit was found in the store and its witness was solved in the legacy
-- format; `bb prove` made the proof of that witness, of which the entry has the sizes; the
-- entry's verdict is how `bb verify` ended on that proof with the circuit's packaged key; and the
-- entry says that the generated key matches the packaged one.
pub solve_fixture_jobs-Entered :
    (s : Setting) (write_summary : Summary → Bytes) (store : ArtifactStore) (version : Text)
    (jobs : List CircuitSolveJob) (output_dir : Option Text) (options : ProofOptions) (w w' : World)
    (summary : Summary)
    → solve_fixture_jobs s write_summary store version jobs output_dir true options w
      ≡ (w', ok summary)
    → Pairs (Entered s store version options) jobs summary.circuits
unfolding solve_fixture_jobs
solve_fixture_jobs-Entered s write_summary store version jobs output_dir options w w' summary h =
    let (w1, u, h1, k1) = >>=-eq-ok_io (create_if s write_summary output_dir) _ w h in
    let (w2, entries, h2, k2) =
      >>=-eq-ok_io (run_jobs s store version output_dir true options jobs) _ w1 k1 in
    subst (Pairs (Entered s store version options) jobs)
      (persist_summary-circuits s write_summary output_dir entries w2 k2)
      (run_jobs-Entered s store version output_dir options jobs w1 h2)
