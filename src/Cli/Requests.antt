-- ===== src/Cli/Requests.antt =====
-- The handler of `AggregateRequest` in crates/prover-cli/src/main.rs as a whole.
use vocdoni_passport_prover.Prelude.{ℕ, ◌≡◌, ap, subst, Bool, Option, some, none, ok}
use vocdoni_passport_prover.Prelude.Text.{Text, match_text}
use vocdoni_passport_prover.Types.{OuterProofResult}
use vocdoni_passport_prover.Config.{CompatibilityMatrix, load_compatibility_matrix}
use vocdoni_passport_prover.Io.{World}
use vocdoni_passport_prover.Io.Laws.{>>=-eq-ok_io, write-match_text}
use vocdoni_passport_prover.Cli.{
  Setting, OuterReferenceFile, WitnessFormatArg, artifact_store_from_options,
  local_artifacts_dir_for_version,
}
use vocdoni_passport_prover.Cli.Scripts.{run_aggregate_inputs_script}
use vocdoni_passport_prover.Cli.Outer.{
  outer_options, aggregate, create_parent, write_output, aggregate_request,
}
use vocdoni_passport_prover.Cli.Results.{Reports, aggregate-Reports}

module _ (s : Setting) where
  -- The file of the result, if one was asked for.
  pub Saved : Option Text → World → OuterProofResult → Type 0
  Saved none w result = Unit {0}
  Saved (some path) w result =
      match_text path w.files.disk ≡ some (s.cli_json.write_outer_result result)

  write_output-Saved :
      (output : Option Text) (result : OuterProofResult) (w : World) {w' : World} {u : Unit {0}}
      → write_output s output result w ≡ (w', ok u)
      → Saved output w' result
  unfolding write_output Saved
  write_output-Saved none result w h = tt
  write_output-Saved (some path) result w h =
      let (w1, u, h1, k1) = >>=-eq-ok_io (create_parent s (s.os.parent path)) _ w h in
      write-match_text s.os path _ _ w1 k1

  -- The matrix, the inputs that the script computed, and the result.
  pub record Answers (input : Text) (artifacts_dir : Option Text) (output : Option Text)
      (format : WitnessFormatArg) (low_memory : Bool) (max_storage : Option ℕ) (w' : World)
      (result : OuterProofResult) : Type 0 where
    pub matrix : CompatibilityMatrix
    pub dir : Text
    pub reference : OuterReferenceFile
    pub before : World
    pub asked : (run_aggregate_inputs_script s input dir before).1 ≡ ok reference
    pub reports :
        Reports s
          (artifact_store_from_options s matrix (some dir))
          reference
          format
          (outer_options low_memory max_storage)
          result
    pub saved : Saved output w' result

  -- A request that is answered: the inputs are those that the script computed for it, and the
  -- result reports on one proof of the outer circuit they name, which `bb prove` made of a
  -- witness that was solved for these inputs, in the format that was asked for: its bytes in
  -- hexadecimal, its public inputs as fields, and the nullifier that they hold. The metadata has
  -- the verdict of `bb verify` on that proof with the packaged key, whatever it is, and says
  -- that the keys match. If an output file is asked for, it holds the result.
  pub aggregate_request-Answers :
      (input : Text) (artifacts_dir : Option Text) (matrix_path : Text) (output : Option Text)
      (format : WitnessFormatArg) (low_memory : Bool) (max_storage : Option ℕ) (w w' : World)
      (result : OuterProofResult)
      → aggregate_request s input artifacts_dir matrix_path output format low_memory max_storage w
        ≡ (w', ok result)
      → Answers input artifacts_dir output format low_memory max_storage w' result
  unfolding aggregate_request
  aggregate_request-Answers input artifacts_dir matrix_path output format low_memory max_storage w
        w' result h =
      let (w1, matrix, h1, k1) =
        >>=-eq-ok_io (load_compatibility_matrix s.config_json matrix_path) _ w h in
      let (w2, dir, h2, k2) =
        >>=-eq-ok_io
          (local_artifacts_dir_for_version s matrix.registry.circuit_version artifacts_dir) _ w1
          k1 in
      let (w3, reference, h3, k3) =
        >>=-eq-ok_io (run_aggregate_inputs_script s input dir) _ w2 k2 in
      let (w4, r, h4, k4) =
        >>=-eq-ok_io
          (aggregate s (artifact_store_from_options s matrix (some dir)) reference format
            (outer_options low_memory max_storage))
          _ w3 k3 in
      let (w5, u, h5, k5) = >>=-eq-ok_io (write_output s output r) _ w4 k4 in
      let same : r ≡ result = cc (ap (λ x. x.1) k5) in
      record {
        matrix = matrix;
        dir = dir;
        reference = reference;
        before = w2;
        asked = ap (λ x. x.1) h3;
        reports =
            subst
              (Reports s (artifact_store_from_options s matrix (some dir)) reference format
                (outer_options low_memory max_storage))
              same
              (aggregate-Reports s _ reference format (outer_options low_memory max_storage) w3 w4 r
                h4);
        saved =
            subst (Saved output w') same (
              subst (λ x. Saved output x r) (ap (λ x. x.0) k5) (write_output-Saved output r w4 h5));
      }
