-- ===== src/Proving/Proofs.antt =====
-- A proof that `prove_circuit_with_witness` returns: what `bb` was given and what it left.
use vocdoni_passport_prover.Prelude.{
  detail, suc, ◌≡◌, refl, sym, ◌∙◌, ap, subst, inl, inr, ◌↔◌, true, some, [], ◌∷◌, ok,
}
use vocdoni_passport_prover.Prelude.Text.{Text, codes}
use vocdoni_passport_prover.Der.{Bytes}
use vocdoni_passport_prover.Registry.{PackagedCircuit, RegistryJson}
use vocdoni_passport_prover.Config.{ConfigJson}
use vocdoni_passport_prover.Witness.{Attempt, good}
use vocdoni_passport_prover.Io.{
  World, Files, Os, Action, output, ◌>>=◌, put, write, add_dir, create_dir_all, temporary,
  with_temp_dir,
}
use vocdoni_passport_prover.Io.Laws.{
  read-some, >>=-eq-ok_io, write-next, create_dir_all-next, with_temp_dir-eq-ok,
}
use vocdoni_passport_prover.Proving.Binary.{run_command, ensure_bb_binary}
use vocdoni_passport_prover.Proving.{
  ProofOptions, ProofArtifacts, ProveFiles, read_required_file, collect_proof, decode_vkey,
  prove_command, write_circuit_artifact, write_witness, write_packaged_verification_key, prove_in,
  prove_circuit_with_witness,
}
use vocdoni_passport_prover.Proving.Laws.{
  Ran, run_command-next, Collected, collect_proof-Collected, public_inputs_count-eq,
}
use vocdoni_passport_prover.Witness.Agreement.{Attempt-cases}

module _ (os : Os) (json : RegistryJson) where
  abbrev pub at : Text → Text → Text
  at dir name = os.fs.join dir name

  -- The temporary directory when `bb` starts: the circuit, the witness and the packaged key.
  unfoldable pub inputs_in : Text → PackagedCircuit → Bytes → Bytes → World → World
  inputs_in dir circuit witness vk w = add_dir (at dir (codes "proof")) (
      put (at dir (codes "vk")) vk (
        put (at dir (codes "witness.gz")) witness
          (put (at dir (codes "circuit.json")) (json.write_circuit circuit) w)))

  abbrev pub prove_files : Text → ProveFiles
  prove_files dir = record {
    circuit_path = at dir (codes "circuit.json");
    witness_path = at dir (codes "witness.gz");
    vk_path = at dir (codes "vk");
    output_dir = at dir (codes "proof");
  }

  -- Every file of the temporary directory can be written.
  pub record Writable (dir : Text) : Type 0 where
    pub circuit : os.fs.can_write (at dir (codes "circuit.json")) ≡ true
    pub witness : os.fs.can_write (at dir (codes "witness.gz")) ≡ true
    pub vk : os.fs.can_write (at dir (codes "vk")) ≡ true
    pub proof : os.fs.can_create (at dir (codes "proof")) ≡ true

module _ (os : Os) (config : ConfigJson) (json : RegistryJson)
    (decode_base64 : Text → Attempt Bytes) (platform : Text × Text) where
  -- The proof is what `bb prove` left, when it was started on the circuit, the witness and the
  -- packaged key and ended with success.
  pub record Proved (circuit : PackagedCircuit) (witness : Bytes) (options : ProofOptions)
      (w : World) (a : ProofArtifacts) : Type 0 where
    pub bb : Text
    pub ready : World
    pub ensured : ensure_bb_binary os config platform w ≡ (ready, ok bb)
    pub dir : Text
    pub named : os.temporary_path ready.temporary ≡ some dir
    pub writable : Writable os json dir
    pub decoded : decode_base64 circuit.vkey ≡ good a.verification_key
    pub left : Files
    pub ran :
        Ran os
          (prove_command bb (prove_files os json dir) options)
          (inputs_in os json dir circuit witness a.verification_key ready).files
          left
    pub collected : Collected os (at os json dir (codes "proof")) a.verification_key left a

  write_packaged_verification_key-next :
      {B : Type 0} (dir : Text) (circuit : PackagedCircuit) (next : Text × Bytes → Action B)
      (w : World) {w' : World} {b : B}
      → (write_packaged_verification_key os config json decode_base64 platform dir circuit >>= next)
          w
        ≡ (w', ok b)
      → (vk : Bytes) × (decode_base64 circuit.vkey ≡ good vk)
        × (os.fs.can_write (at os json dir (codes "vk")) ≡ true)
        × (next (at os json dir (codes "vk"), vk) (put (at os json dir (codes "vk")) vk w)
            ≡ (w', ok b))
  unfolding write_packaged_verification_key decode_vkey
  write_packaged_verification_key-next dir circuit next w h =
      elim (Attempt-cases (decode_base64 circuit.vkey)) [
        | inr (e, x) ↦ cc (rw (write_packaged_verification_key, decode_vkey, x) at h)
        | inl (vk, x) ↦
            let k = rw (write_packaged_verification_key, decode_vkey, x) at h in
            let (c, n) = write-next os _ vk _ _ next w k in (vk, x, c, n)
      ]

  prove_in-Proved :
      (bb : Text) (circuit : PackagedCircuit) (witness : Bytes) (options : ProofOptions)
      (dir : Text) (w : World) {w' : World} {a : ProofArtifacts}
      → prove_in os config json decode_base64 platform bb circuit witness options dir w ≡ (w', ok a)
      → Writable os json dir
        × (decode_base64 circuit.vkey ≡ good a.verification_key)
        × ((left : Files) × Ran os
              (prove_command bb (prove_files os json dir) options)
              (inputs_in os json dir circuit witness a.verification_key w).files
              left
            × Collected os (at os json dir (codes "proof")) a.verification_key left a)
  unfolding prove_in write_circuit_artifact write_witness inputs_in
  prove_in-Proved bb circuit witness options dir w {a = a} h =
      let (c1, k1) = write-next os _ _ _ _ _ w h in
      let (c2, k2) = write-next os _ _ _ _ _ _ k1 in
      let (vk, d, c3, k3) = write_packaged_verification_key-next dir circuit _ _ k2 in
      let (c4, k4) = create_dir_all-next os _ _ _ _ k3 in
      let (left, ran, k5) = run_command-next os _ _ _ _ k4 in
      let got = collect_proof-Collected os config json decode_base64 platform _ vk _ k5 in
      (
        record { circuit = c1; witness = c2; vk = c3; proof = c4 },
        d ∙ ap good (sym got.key),
        (
          left,
          subst
              (λ k.
                Ran os (prove_command bb (prove_files os json dir) options)
                  (inputs_in os json dir circuit witness k w).files left)
              (sym got.key) ran,
          subst (λ k. Collected os (at os json dir (codes "proof")) k left a) (sym got.key) got,
        ),
      )

  pub prove_circuit_with_witness-Proved :
      (circuit : PackagedCircuit) (witness : Bytes) (options : ProofOptions) (w : World)
      {w' : World} {a : ProofArtifacts}
      → prove_circuit_with_witness os config json decode_base64 platform circuit witness options w
        ≡ (w', ok a)
      → Proved circuit witness options w a
  unfolding prove_circuit_with_witness inputs_in put add_dir
  prove_circuit_with_witness-Proved circuit witness options w h =
      let (ready, bb, ensured, k0) = >>=-eq-ok_io (ensure_bb_binary os config platform) _ w h in
      let (dir, inner, named, k1, _) = with_temp_dir-eq-ok os _ _ ready k0 in
      let (writable, decoded, (left, ran, collected)) =
        prove_in-Proved bb circuit witness options dir _ k1 in
      record {
        bb = bb;
        ready = ready;
        ensured = ensured;
        dir = dir;
        named = named;
        writable = writable;
        decoded = decoded;
        left = left;
        ran = ran;
        collected = collected;
      }

  collect_proof-eq :
      (dir : Text) (w : World) (a : ProofArtifacts)
      → Collected os dir a.verification_key w.files a
      → collect_proof os config json decode_base64 platform dir a.verification_key w ≡ (w, ok a)
  unfolding collect_proof read_required_file
  collect_proof-eq dir w a c =
      rw
        (
          read_required_file,
          read-some _
              (detail "failed to read {description}: {}"
                (codes "proof output" ∷ os.fs.join dir (codes "proof") ∷ []))
              w c.proof_left,
          read-some _
              (detail "failed to read {description}: {}"
                (codes "public inputs output" ∷ os.fs.join dir (codes "public_inputs") ∷ []))
              w c.inputs_left,
          public_inputs_count-eq a.public_inputs c.whole,
          sym c.count,
        )
        refl

  prove_in-eq :
      (bb : Text) (circuit : PackagedCircuit) (witness : Bytes) (options : ProofOptions)
      (dir : Text) (w : World) (a : ProofArtifacts) (left : Files)
      → Writable os json dir
      → decode_base64 circuit.vkey ≡ good a.verification_key
      → Ran os
          (prove_command bb (prove_files os json dir) options)
          (inputs_in os json dir circuit witness a.verification_key w).files
          left
      → Collected os (at os json dir (codes "proof")) a.verification_key left a
      → (prove_in os config json decode_base64 platform bb circuit witness options dir w).1 ≡ ok a
  unfolding prove_in write_circuit_artifact write_witness write_packaged_verification_key
      decode_vkey inputs_in write create_dir_all run_command output
  prove_in-eq bb circuit witness options dir w a left c d r got =
      rw
        (
          c.circuit, write_witness, write, c.witness, write_packaged_verification_key, decode_vkey,
          d, c.vk, c.proof, run_command, output, r.executed, r.succeeded,
        )
        (ap (λ x. x.1) (collect_proof-eq (at os json dir (codes "proof")) _ a got))

  -- For every world: the call returns these artifacts exactly when the search for `bb` ends with
  -- a command, the temporary directory can be named and filled, the packaged key is base64, `bb
  -- prove`, started on the circuit, the witness and the packaged key, ends with success, and the
  -- proof and the public inputs are the files that it left, the inputs being whole fields,
  -- counted in 32 bits. The key of the artifacts is the packaged one.
  pub prove_circuit_with_witness_iff :
      (circuit : PackagedCircuit) (witness : Bytes) (options : ProofOptions) (w : World)
      (a : ProofArtifacts)
      → ((prove_circuit_with_witness os config json decode_base64 platform circuit witness options
            w).1
          ≡ ok a)
        ↔ Proved circuit witness options w a
  unfolding prove_circuit_with_witness inputs_in put add_dir with_temp_dir temporary
  prove_circuit_with_witness_iff circuit witness options w a = (
    (λ h. prove_circuit_with_witness-Proved circuit witness options w (
        ap
          (λ o. (
            (prove_circuit_with_witness os config json decode_base64 platform circuit witness
                options w).0,
            o,
          ))
          h)),
    (λ p.
        rw (p.ensured, with_temp_dir, temporary, p.named)
          (prove_in-eq p.bb circuit witness options p.dir
            (record p.ready { temporary = suc p.ready.temporary }) a p.left p.writable p.decoded
            p.ran p.collected)),
  )
