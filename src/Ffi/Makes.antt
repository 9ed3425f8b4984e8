-- ===== src/Ffi/Makes.antt =====
-- A call that makes a result: the blocks that it adds to the heap.
use vocdoni_passport_prover.Prelude.{
  ℕ, ◌≤◌, ◌≡◌, refl, subst, inl, inr, false, Option, none, some, List, [], ◌∷◌, ◌++◌, length, take,
  leb, ◌==◌, if◌then◌else◌, arith, Bool-cases,
}
use vocdoni_passport_prover.Prelude.Text.{Text, codes, is_utf8}
use vocdoni_passport_prover.Der.{Bytes}
use vocdoni_passport_prover.Witness.{Attempt, good, bad}
use vocdoni_passport_prover.Ffi.{
  Block, Heap, AcvmWitnessFfiResult, first_address, alloc, has_zero, c_string, ok_result,
  err_result, result_of, from_raw_parts, solve_bytes, acvm_witness_solve_json_utf8,
}
use vocdoni_passport_prover.Ffi.Blocks.{Below}
use vocdoni_passport_prover.Ffi.Sessions.{
  error_result, Holds, holds_bytes, holds_nothing, holds_message, spoken, answer,
}

-- What a call that makes a result does to the heap.
pub record Adds (a : Attempt Bytes) (h : Heap) (made : AcvmWitnessFfiResult × Heap) : Type 0 where
  pub mine : List Block
  pub holds : Holds (made.0, a) mine
  pub live : made.1.live ≡ mine ++ h.live
  pub below : Below made.1.next made.1.live
  pub real : first_address ≤ made.1.next

ok_result-Adds :
    (bytes : Bytes) (h : Heap)
    → first_address ≤ h.next
    → Below h.next h.live
    → Adds (good bytes) h (ok_result bytes h)
unfolding ok_result alloc Below
ok_result-Adds [] h r k = record {
  mine = [];
  holds = holds_nothing refl refl;
  live = refl;
  below = k;
  real = r;
}
ok_result-Adds (b ∷ bs) h r k = record {
  mine = record { ptr = h.next; bytes = b ∷ bs } ∷ [];
  holds = holds_bytes (record { ptr = h.next; bytes = b ∷ bs }) (omega arith) refl refl;
  live = refl;
  below = (r, omega arith, k);
  real = omega arith;
}

abbrev pub without_zero : Text → Text
without_zero msg = if has_zero msg then codes "invalid error string" else msg

has_zero-without_zero : (msg : Text) → has_zero (without_zero msg) ≡ false
unfolding has_zero
has_zero-without_zero msg = elim (Bool-cases (has_zero msg)) [ inl e ↦ rw (e) | inr e ↦ rw (e) e ]

err_result-Adds :
    (msg : Text) (h : Heap)
    → first_address ≤ h.next
    → Below h.next h.live
    → Adds (bad (without_zero msg)) h (err_result msg h)
unfolding err_result c_string alloc Below
err_result-Adds msg h r k = placed (without_zero msg) (has_zero-without_zero msg)
  where
    placed :
        (m : Text)
        → has_zero m ≡ false
        → Adds (bad m) h (let (ptr, h') = alloc (m ++ 0 ∷ []) h in (error_result ptr, h'))
    placed [] z = record {
      mine = record { ptr = h.next; bytes = 0 ∷ [] } ∷ [];
      holds = holds_message h.next [] z refl refl;
      live = refl;
      below = (r, omega arith, k);
      real = omega arith;
    }
    placed (c ∷ m) z = record {
      mine = record { ptr = h.next; bytes = c ∷ m ++ 0 ∷ [] } ∷ [];
      holds = holds_message h.next (c ∷ m) z refl refl;
      live = refl;
      below = (r, omega arith, k);
      real = omega arith;
    }

result_of-Adds :
    (a : Attempt Bytes) (h : Heap)
    → first_address ≤ h.next
    → Below h.next h.live
    → Adds (spoken a) h (result_of a h)
unfolding result_of spoken
result_of-Adds (good bytes) h r k = ok_result-Adds bytes h r k
result_of-Adds (bad msg) h r k = err_result-Adds msg h r k

module _ (solve : Text → Attempt Bytes) where
  -- Every branch of a call that returns.
  solve-cases :
      (memory : Option Bytes) (len : ℕ) (h : Heap) (made : AcvmWitnessFfiResult × Heap)
      → acvm_witness_solve_json_utf8 solve memory len h ≡ some made
      → (a : Attempt Bytes) × (result_of a h ≡ made) × (spoken a ≡ answer solve memory len)
  unfolding acvm_witness_solve_json_utf8 solve_bytes from_raw_parts answer result_of spoken has_zero
  solve-cases none len h made e = (bad (codes "empty or null JSON input"), cc, refl)
  solve-cases (some memory) len h made e = elim (Bool-cases (len == 0)) [
    | inl z ↦ (bad (codes "empty or null JSON input"), cc (rw (z) at e), rw (answer, z))
    | inr z ↦ elim (Bool-cases (leb len (length memory))) [
      | inr b ↦ cc (rw (z, from_raw_parts, b) at e)
      | inl b ↦ elim (Bool-cases (is_utf8 (take len memory))) [
        | inl u ↦
            (solve (take len memory), cc (rw (z, from_raw_parts, b, u) at e), rw (answer, z, u))
        | inr u ↦
            (bad (codes "invalid UTF-8"), cc (rw (z, from_raw_parts, b, u) at e), rw (answer, z, u))
      ]
    ]
  ]

  pub solve-Adds :
      (memory : Option Bytes) (len : ℕ) (h : Heap) (made : AcvmWitnessFfiResult × Heap)
      → first_address ≤ h.next
      → Below h.next h.live
      → acvm_witness_solve_json_utf8 solve memory len h ≡ some made
      → Adds (answer solve memory len) h made
  solve-Adds memory len h made r k e =
      let (a, e1, e2) = solve-cases memory len h made e in
      subst (λ b. Adds b h made) e2 (subst (λ m. Adds (spoken a) h m) e1 (result_of-Adds a h r k))
