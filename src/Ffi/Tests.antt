-- ===== src/Ffi/Tests.antt =====
-- A caller that holds two results and frees the first one, and the theorems at its session.
use vocdoni_passport_prover.Prelude.{
  ◌≡◌, refl, some, [], ◌∷◌, length, ◌==◌, if◌then◌else◌, All, arith,
}
use vocdoni_passport_prover.Prelude.Text.{Text, codes, is_utf8}
use vocdoni_passport_prover.Der.{Bytes}
use vocdoni_passport_prover.Witness.{Attempt, good, bad}
use vocdoni_passport_prover.Ffi.{
  Heap, Block, AcvmWitnessFfiResult, alloc, take_block, dealloc, strlen, ok_result, has_zero,
  c_string, err_result, from_raw_parts, result_of, solve_bytes, acvm_witness_solve_json_utf8,
  free_buffer, free_error, acvm_witness_free_ffi_result,
}
use vocdoni_passport_prover.Ffi.Sessions.{
  data_result, error_result, Session, spoken, answer, Reach, starts, steps, solves, frees, Owned,
}
use vocdoni_passport_prover.Ffi.Ownership.{Freeable, block_counts, Reach-Freeable}
use vocdoni_passport_prover.Ffi.Delivery.{Delivered, read_result, Reach-Delivered}

-- It solves "{}" only.
abbrev solver : Text → Attempt Bytes
solver text = if length text == 2 then good (7 ∷ 8 ∷ 9 ∷ []) else bad (codes "no")

abbrev message_block : Block
message_block = record { ptr = 3; bytes = 110 ∷ 111 ∷ 0 ∷ [] }

abbrev two_results : Session
two_results = record {
  heap = record {
    live = message_block ∷ record { ptr = 2; bytes = 7 ∷ 8 ∷ 9 ∷ [] } ∷ [];
    next = 4;
  };
  held = (error_result 3, bad (codes "no")) ∷ (data_result 2 3, good (7 ∷ 8 ∷ 9 ∷ [])) ∷ [];
}

abbrev one_result : Session
one_result = record {
  heap = record { live = message_block ∷ []; next = 4 };
  held = (error_result 3, bad (codes "no")) ∷ [];
}

two_results-Reach : Reach solver two_results
unfolding alloc take_block dealloc strlen ok_result has_zero c_string err_result from_raw_parts
    result_of solve_bytes acvm_witness_solve_json_utf8 spoken answer is_utf8
two_results-Reach =
    steps (steps starts (solves (some (codes "{}x")) 2 _ _ refl refl))
      (solves (some (codes "[")) 1 _ _ refl refl)

one_result-Reach : Reach solver one_result
unfolding take_block dealloc strlen free_buffer free_error acvm_witness_free_ffi_result
one_result-Reach = steps two_results-Reach (
    frees ((error_result 3, bad (codes "no")) ∷ []) (data_result 2 3, good (7 ∷ 8 ∷ 9 ∷ [])) [] _
      refl refl refl)

Reach-Freeable_example :
    Owned one_result
    × (length one_result.heap.live ≡ block_counts one_result.held)
    × All (Freeable one_result.heap) one_result.held
Reach-Freeable_example = Reach-Freeable solver one_result one_result-Reach

Reach-Delivered_example :
    All (Delivered one_result.heap.live) one_result.held
    × ((made : AcvmWitnessFfiResult × Heap) × (acvm_witness_solve_json_utf8 solver
            (some (codes "{}x"))
            2
            one_result.heap
          ≡ some made)
        × (read_result made.0 made.1.live ≡ some (answer solver (some (codes "{}x")) 2)))
Reach-Delivered_example =
    Reach-Delivered solver one_result (codes "{}x") 2 one_result-Reach (omega arith)
