-- ===== src/Proving/Verification.antt =====
-- An answer of `verify_circuit_proof`: what `bb verify` was given and how it ended.
use vocdoni_passport_prover.Prelude.{◌≡◌, ap, Bool, some, ok}
use vocdoni_passport_prover.Prelude.Text.{Text, codes}
use vocdoni_passport_prover.Der.{Bytes}
use vocdoni_passport_prover.Registry.{RegistryJson}
use vocdoni_passport_prover.Config.{ConfigJson}
use vocdoni_passport_prover.Witness.{Attempt}
use vocdoni_passport_prover.Io.{World, Files, Os, Output, output, put}
use vocdoni_passport_prover.Io.Laws.{>>=-eq-ok_io, step-next, output-eq-ok, with_temp_dir-eq-ok}
use vocdoni_passport_prover.Proving.Binary.{ensure_bb_binary}
use vocdoni_passport_prover.Proving.{ProofOptions, verify_command, verify_in, verify_circuit_proof}

module _ (os : Os) (config : ConfigJson) (json : RegistryJson)
    (decode_base64 : Text → Attempt Bytes) (platform : Text × Text) where
  -- The temporary directory when `bb` starts.
  unfoldable pub proof_in : Text → Bytes → Bytes → Bytes → World → World
  proof_in dir proof public_inputs vk w = put (os.fs.join dir (codes "vk")) vk (
      put (os.fs.join dir (codes "public_inputs")) public_inputs
        (put (os.fs.join dir (codes "proof")) proof w))

  -- The answer is whether `bb verify` ended with success on the proof, the inputs and the key.
  pub record Verified (proof public_inputs vk : Bytes) (options : ProofOptions) (w : World)
      (answer : Bool) : Type 0 where
    pub bb : Text
    pub ready : World
    pub ensured : ensure_bb_binary os config platform w ≡ (ready, ok bb)
    pub dir : Text
    pub named : os.temporary_path ready.temporary ≡ some dir
    pub out : Output
    pub left : Files
    pub executed :
        os.execute
          (verify_command bb
            (os.fs.join dir (codes "proof"))
            (os.fs.join dir (codes "public_inputs"))
            (os.fs.join dir (codes "vk"))
            options)
          (proof_in dir proof public_inputs vk ready).files
        ≡ some (out, left)
    pub answered : answer ≡ out.success

  pub verify_circuit_proof-Verified :
      (proof public_inputs vk : Bytes) (options : ProofOptions) (w : World) {w' : World} {b : Bool}
      → verify_circuit_proof os config json decode_base64 platform proof public_inputs vk options w
        ≡ (w', ok b)
      → Verified proof public_inputs vk options w b
  unfolding verify_circuit_proof verify_in proof_in put
  verify_circuit_proof-Verified proof public_inputs vk options w h =
      let (ready, bb, ensured, k0) = >>=-eq-ok_io (ensure_bb_binary os config platform) _ w h in
      let (dir, inner, named, k1, _) = with_temp_dir-eq-ok os _ _ ready k0 in
      let (c1, k2) = step-next os _ _ _ _ _ k1 in
      let (c2, k3) = step-next os _ _ _ _ _ k2 in
      let (c3, k4) = step-next os _ _ _ _ _ k3 in
      let (w5, out, h5, k5) = >>=-eq-ok_io (output os _ _) _ _ k4 in
      let (left, executed, _) = output-eq-ok os _ _ _ h5 in
      record {
        bb = bb;
        ready = ready;
        ensured = ensured;
        dir = dir;
        named = named;
        out = out;
        left = left;
        executed = executed;
        answered = cc (ap (λ x. x.1) k5);
      }
