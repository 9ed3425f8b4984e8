-- ===== src/Witness/History.antt =====
-- Calls of the solver and of the ACIR reader in a row: they share the environment variable.
use vocdoni_passport_prover.Prelude.{
  ◌≡◌, refl, ap, List, [], ◌∷◌, map, Outcome, ◌>>=◌, Option, none, ap₂, inl, inr, Outcome-cases,
}
use vocdoni_passport_prover.Prelude.Text.{Text}
use vocdoni_passport_prover.Der.{Bytes}
use vocdoni_passport_prover.Witness.{
  Noir, Env, WitnessPayload, solve_stack, solve_compressed_witness_with_format,
  solve_serialized_witness, solve_serialized_legacy_witness, solve_compressed_witness,
  decompress_witness_stack, solve_legacy_witness, acir_program, get_acir_buffer_uncompressed,
}

pub data Call : Type 0 where
  serialized serialized_legacy compressed legacy : WitnessPayload → Call
  acir : Text → Call

module _ (noir : Noir) where
  unfoldable pub call : Call → Env → Outcome Bytes × Env
  call (serialized p) env = solve_serialized_witness noir p env
  call (serialized_legacy p) env = solve_serialized_legacy_witness noir p env
  call (compressed p) env = solve_compressed_witness noir p env
  call (legacy p) env = solve_legacy_witness noir p env
  call (acir b) env = get_acir_buffer_uncompressed noir b env

  unfoldable pub run : List Call → Env → List (Outcome Bytes)
  run [] env = []
  run (c ∷ cs) env = let (answer, env') = call c env in answer ∷ run cs env'

  solve_with_format-env :
      (p : WitnessPayload) (format : Option Text) (env : Env)
      → (solve_compressed_witness_with_format noir p format env).0
        ≡ (solve_compressed_witness_with_format noir p format none).0
  unfolding solve_compressed_witness_with_format
  solve_with_format-env p format env = elim (Outcome-cases (solve_stack noir p)) [
    | inl (a, e) ↦ rw (solve_compressed_witness_with_format, e)
    | inr (inl (a, e)) ↦ rw (solve_compressed_witness_with_format, e)
    | inr (inr (inl e)) ↦ rw (solve_compressed_witness_with_format, e)
    | inr (inr (inr e)) ↦ rw (solve_compressed_witness_with_format, e)
  ]

  acir-env :
      (b : Text) (env : Env)
      → (get_acir_buffer_uncompressed noir b env).0 ≡ (get_acir_buffer_uncompressed noir b none).0
  unfolding get_acir_buffer_uncompressed
  acir-env b env = elim (Outcome-cases (acir_program noir b)) [
    | inl (a, e) ↦ rw (get_acir_buffer_uncompressed, e)
    | inr (inl (a, e)) ↦ rw (get_acir_buffer_uncompressed, e)
    | inr (inr (inl e)) ↦ rw (get_acir_buffer_uncompressed, e)
    | inr (inr (inr e)) ↦ rw (get_acir_buffer_uncompressed, e)
  ]

  call-env : (c : Call) (env : Env) → (call c env).0 ≡ (call c none).0
  unfolding call solve_serialized_witness solve_serialized_legacy_witness solve_compressed_witness
      solve_legacy_witness
  call-env (serialized p) env = solve_with_format-env p _ env
  call-env (serialized_legacy p) env = solve_with_format-env p _ env
  call-env (compressed p) env =
      ap (λ o. o >>= decompress_witness_stack noir) (solve_with_format-env p _ env)
  call-env (legacy p) env =
      ap (λ o. o >>= decompress_witness_stack noir) (solve_with_format-env p _ env)
  call-env (acir b) env = acir-env b env

-- A list of calls, in any order and with the variable set to anything: each call gives what it
-- gives alone with the variable unset. A solve in the compact format does not change what a solve
-- in the legacy format returns after it, and neither does a call that fails half-way.
pub run-map :
    (noir : Noir) (calls : List Call) (env : Env)
    → run noir calls env ≡ map (λ c. (call noir c none).0) calls
unfolding run
run-map noir [] env = refl
run-map noir (c ∷ cs) env = ap₂ (λ x xs. x ∷ xs) (call-env noir c env) (run-map noir cs _)
