-- ===== src/Cli/Results.antt =====
-- The result of an aggregation: what it says about its proof.
use vocdoni_passport_prover.Prelude.{◌≡◌, refl, sym, ap, subst, true, none, some, ok}
use vocdoni_passport_prover.Prelude.Text.{Text, codes, match_text, text_eq}
use vocdoni_passport_prover.Der.{Bytes}
use vocdoni_passport_prover.Witness.{
  Env, msgpack_compact, payload_of, solve_compressed_witness_with_format, solve_serialized_witness,
  solve_serialized_legacy_witness, solve_serialized_witness_for_circuit,
  solve_serialized_legacy_witness_for_circuit,
}
use vocdoni_passport_prover.Types.{OuterProofResult}
use vocdoni_passport_prover.Registry.{PackagedCircuit, Disk}
use vocdoni_passport_prover.Artifacts.{ArtifactStore, load_packaged_circuit}
use vocdoni_passport_prover.Proving.{ProofOptions}
use vocdoni_passport_prover.Proving.Proofs.{Proved, prove_circuit_with_witness-Proved}
use vocdoni_passport_prover.Proving.Verification.{Verified, verify_circuit_proof-Verified}
use vocdoni_passport_prover.PublicInputs.{bytes_to_hex, split_hex_fields, outer_nullifier}
use vocdoni_passport_prover.Io.{World, within_io}
use vocdoni_passport_prover.Io.Laws.{>>=-eq-ok_io, within_io-eq-ok, lift-next}
use vocdoni_passport_prover.Cli.{
  Setting, OuterReferenceFile, WitnessFormatArg, legacy, compact,
  solve_serialized_witness_for_circuit_with_format, verification_keys_match,
  packaged_verification_key, verify_inner_proof, circuit_of,
}
use vocdoni_passport_prover.Cli.Jobs.{prove}
use vocdoni_passport_prover.Cli.Entries.{
  packaged_verification_key-eq-ok, verification_keys_match_refl,
}
use vocdoni_passport_prover.Cli.Outer.{
  Checked, bool_text, outer_metadata, outer_result_of, prove_and_check, solve_outer, aggregate,
}

-- What the variable `NOIR_SERIALIZATION_FORMAT` is for the argument.
abbrev pub serialization_of : WitnessFormatArg → Env
serialization_of legacy = none
serialization_of compact = some msgpack_compact

module _ (s : Setting) where
  -- A proof that `bb` made, and its verdict with the packaged key.
  pub record Sound (circuit : PackagedCircuit) (witness : Bytes) (options : ProofOptions)
      (c : Checked) : Type 0 where
    pub before : World
    pub proved :
        Proved s.os s.config_json s.registry_json s.noir.decode_base64 s.platform circuit witness
          options before c.proof
    pub checked : World
    pub verified :
        Verified s.os s.config_json s.registry_json s.noir.decode_base64 s.platform c.proof.proof
          c.proof.public_inputs c.proof.verification_key options checked c.verified
    pub matches : c.matches ≡ true

  prove_and_check-Sound :
      (name : Text) (circuit : PackagedCircuit) (witness : Bytes) (options : ProofOptions)
      (w : World) {w' : World} {c : Checked}
      → prove_and_check s name circuit witness options w ≡ (w', ok c)
      → Sound circuit witness options c
  unfolding prove_and_check verify_inner_proof
  prove_and_check-Sound name circuit witness options w {c = c} h =
      let (w1, proof, h1, k1) =
        >>=-eq-ok_io (within_io _ (prove s circuit witness options)) _ w h in
      let proved =
        prove_circuit_with_witness-Proved s.os s.config_json s.registry_json s.noir.decode_base64
          s.platform circuit witness options w
          (within_io-eq-ok _ (prove s circuit witness options) w h1) in
      let (vk, packaged, k2) = lift-next (packaged_verification_key s circuit) _ w1 k1 in
      let same = packaged_verification_key-eq-ok s circuit proved.decoded packaged in
      let (w3, verified, h3, k3) =
        >>=-eq-ok_io (within_io _ (verify_inner_proof s proof vk options)) _ w1 k2 in
      let answered =
        verify_circuit_proof-Verified s.os s.config_json s.registry_json s.noir.decode_base64
          s.platform proof.proof proof.public_inputs vk options w1
          (within_io-eq-ok _ (verify_inner_proof s proof vk options) w1 h3) in
      let made : record {
        proof = proof;
        packaged_vk = vk;
        matches = verification_keys_match vk proof.verification_key;
        verified = verified;
      }
          ≡ c =
        cc (ap (λ x. x.1) k3) in
      subst (Sound circuit witness options) made record {
        before = w;
        proved = proved;
        checked = w1;
        verified =
            subst
              (λ v.
                Verified s.os s.config_json s.registry_json s.noir.decode_base64 s.platform
                  proof.proof proof.public_inputs v options w1 verified)
              same answered;
        matches =
            subst (λ v. verification_keys_match v proof.verification_key ≡ true) (sym same)
              (verification_keys_match_refl s proof.verification_key);
      }

  solve_outer-solved :
      (reference : OuterReferenceFile) (circuit : PackagedCircuit) (format : WitnessFormatArg)
      (w : World) {w' : World} {witness : Bytes}
      → solve_outer s reference circuit format w ≡ (w', ok witness)
      → (solve_compressed_witness_with_format s.noir
          (payload_of s.noir circuit reference.outer_inputs)
          (serialization_of format)
          w.format).0
        ≡ ok witness
  unfolding solve_serialized_witness_for_circuit_with_format solve_serialized_witness_for_circuit
      solve_serialized_legacy_witness_for_circuit solve_serialized_witness
      solve_serialized_legacy_witness
  solve_outer-solved reference circuit legacy w h =
      ap (λ x. x.1)
        (within_io-eq-ok _
          (solve_serialized_witness_for_circuit_with_format s circuit reference.outer_inputs legacy)
          w h)
  solve_outer-solved reference circuit compact w h =
      ap (λ x. x.1)
        (within_io-eq-ok _
          (solve_serialized_witness_for_circuit_with_format s circuit reference.outer_inputs
            compact)
          w h)

  -- The result is about one proof, whatever its verdict.
  pub record Reports (store : ArtifactStore) (reference : OuterReferenceFile)
      (format : WitnessFormatArg) (options : ProofOptions) (result : OuterProofResult)
      : Type 0 where
    pub disk : Disk
    pub circuit : PackagedCircuit
    pub loaded :
        load_packaged_circuit s.registry_json s.os.fs.join store disk reference.version
          reference.outer_circuit_name
        ≡ ok circuit
    pub env : Env
    pub witness : Bytes
    pub solved :
        (solve_compressed_witness_with_format s.noir
          (payload_of s.noir circuit reference.outer_inputs)
          (serialization_of format)
          env).0
        ≡ ok witness
    pub checked : Checked
    pub sound : Sound circuit witness options checked
    pub proof : result.proof ≡ bytes_to_hex checked.proof.proof
    pub fields : split_hex_fields checked.proof.public_inputs ≡ ok result.public_inputs
    pub nullifier : result.nullifier ≡ outer_nullifier result.public_inputs
    pub vkey_hash : result.vkey_hash ≡ circuit.vkey_hash
    pub verdict :
        match_text (codes "proof_verified") result.metadata ≡ some (bool_text checked.verified)
    pub keys :
        match_text (codes "generated_vk_matches_packaged") result.metadata ≡ some (codes "true")

  -- An aggregation that comes to its end reports on one proof of the reference's outer circuit,
  -- which `bb prove` made of the witness of the reference's inputs: its bytes in hexadecimal, its
  -- public inputs as fields, and the nullifier that they hold. The metadata has the verdict of
  -- `bb verify` on that proof with the packaged key, and says that the keys match.
  pub aggregate-Reports :
      (store : ArtifactStore) (reference : OuterReferenceFile) (format : WitnessFormatArg)
      (options : ProofOptions) (w w' : World) (result : OuterProofResult)
      → aggregate s store reference format options w ≡ (w', ok result)
      → Reports store reference format options result
  unfolding aggregate outer_result_of outer_metadata match_text text_eq
  aggregate-Reports store reference format options w w' result h =
      let (w1, circuit, h1, k1) =
        >>=-eq-ok_io (circuit_of s store reference.version reference.outer_circuit_name) _ w h in
      let (w2, witness, h2, k2) = >>=-eq-ok_io (solve_outer s reference circuit format) _ w1 k1 in
      let (w3, checked, h3, k3) =
        >>=-eq-ok_io (prove_and_check s reference.outer_circuit_name circuit witness options) _ w2
          k2 in
      let (fields, split, k4) = lift-next (split_hex_fields checked.proof.public_inputs) _ w3 k3 in
      let sound =
        prove_and_check-Sound reference.outer_circuit_name circuit witness options w2 h3 in
      let made : outer_result_of reference.version reference.outer_circuit_name circuit format
            options checked fields
          ≡ result =
        cc (ap (λ x. x.1) k4) in
      subst (Reports store reference format options) made record {
        disk = w.files.disk;
        circuit = circuit;
        loaded = ap (λ x. x.1) h1;
        env = w1.format;
        witness = witness;
        solved = solve_outer-solved reference circuit format w1 h2;
        checked = checked;
        sound = sound;
        proof = refl;
        fields = split;
        nullifier = refl;
        vkey_hash = refl;
        verdict = refl;
        keys = ap (λ b. some (bool_text b)) sound.matches;
      }
