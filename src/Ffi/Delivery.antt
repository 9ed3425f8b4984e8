-- ===== src/Ffi/Delivery.antt =====
-- What a caller reads in the memory of a result, at any time before it frees it.
use vocdoni_passport_prover.Prelude.{
  ℕ, ◌<◌, ◌≤◌, ◌≡◌, refl, sym, ap, subst, inl, inr, false, Option, none, some, List, [], ◌∷◌, ◌++◌,
  length, take, take-append, leb, ◌==◌, if◌then◌else◌, All, arith, Bool-cases,
}
use vocdoni_passport_prover.Prelude.Text.{Text, codes}
use vocdoni_passport_prover.Der.{Bytes}
use vocdoni_passport_prover.Witness.{Attempt, good, bad}
use vocdoni_passport_prover.Ffi.{
  Block, Heap, AcvmWitnessFfiResult, take_block, strlen, has_zero, err_result, from_raw_parts,
  solve_bytes, acvm_witness_solve_json_utf8,
}
use vocdoni_passport_prover.Ffi.Blocks.{Below, take_block-Below, strlen-has_zero}
use vocdoni_passport_prover.Ffi.Sessions.{
  Handle, data_result, error_result, Holds, holds_bytes, holds_nothing, holds_message, Session,
  answer, solves, Reach, steps, Owned,
}
use vocdoni_passport_prover.Ffi.Ownership.{Reach-Owned, Owns-All}

unfoldable pub read_block : ℕ → List Block → Option Bytes
read_block p live = elim (take_block p live) [ none ↦ none | some (b, rest) ↦ some b.bytes ]

-- The client's side, as `acvm_witness_ffi.h` tells it: `len` bytes at `ptr` if the status is zero,
-- and otherwise the C string.
unfoldable pub read_result : AcvmWitnessFfiResult → List Block → Option (Attempt Bytes)
read_result r live =
    if r.status == 0
    then (if r.data_buffer.len == 0
        then some (good [])
        else elim (read_block r.data_buffer.ptr live) [
          | none ↦ none
          | some bytes ↦
              if leb r.data_buffer.len (length bytes)
              then some (good (take r.data_buffer.len bytes))
              else none
        ])
    else elim (read_block r.error_utf8 live) [
      | none ↦ none
      | some bytes ↦ elim (strlen bytes) [ none ↦ none | some n ↦ some (bad (take n bytes)) ]
    ]

read_block-Below :
    (n : ℕ) (front : List Block) (b : Block) (back : List Block)
    → Below n (front ++ b ∷ back)
    → read_block b.ptr (front ++ b ∷ back) ≡ some b.bytes
unfolding read_block
read_block-Below n front b back k = rw (read_block, take_block-Below n front b back k)

take-length {ℓ} : {A : Type ℓ} (xs : List A) → take (length xs) xs ≡ xs
take-length [] = refl
take-length (x ∷ xs) = ap (◌∷◌ x) (take-length xs)

read_data :
    (n : ℕ) (front back : List Block) (b : Block)
    → 0 < length b.bytes
    → Below n (front ++ b ∷ back)
    → read_result (data_result b.ptr (length b.bytes)) (front ++ b ∷ back) ≡ some (good b.bytes)
unfolding read_result
read_data n front back b pos k =
    let there = read_block-Below n front b back k in let all = take-length b.bytes in ground arith

read_message :
    (n : ℕ) (front back : List Block) (p : ℕ) (msg : Text)
    → has_zero msg ≡ false
    → Below n (front ++ record { ptr = p; bytes = msg ++ 0 ∷ [] } ∷ back)
    → read_result (error_result p) (front ++ record { ptr = p; bytes = msg ++ 0 ∷ [] } ∷ back)
      ≡ some (bad msg)
unfolding read_result
read_message n front back p msg z k =
    let b : Block = record { ptr = p; bytes = msg ++ 0 ∷ [] } in
    rw (read_block-Below n front b back k, strlen-has_zero msg z, take-append msg (0 ∷ []))

-- The caller reads the answer.
pub Delivered : List Block → Handle → Type 0
Delivered live x = read_result x.0 live ≡ some x.1

Holds-Delivered :
    (n : ℕ) (x : Handle) (front mine back : List Block)
    → Holds x mine
    → Below n (front ++ (mine ++ back))
    → Delivered (front ++ (mine ++ back)) x
unfolding Delivered read_result
Holds-Delivered n x front mine back (holds_bytes b pos m e) k =
    subst (λ y. Delivered (front ++ (mine ++ back)) y) (sym e)
      (subst
        (λ bs.
          read_result (data_result b.ptr (length b.bytes)) (front ++ (bs ++ back))
          ≡ some (good b.bytes))
        (sym m) (read_data n front back b pos (subst (λ bs. Below n (front ++ (bs ++ back))) m k)))
Holds-Delivered n x front mine back (holds_nothing m e) k =
    subst (λ y. Delivered (front ++ (mine ++ back)) y) (sym e) refl
Holds-Delivered n x front mine back (holds_message p msg z m e) k =
    subst (λ y. Delivered (front ++ (mine ++ back)) y) (sym e)
      (subst (λ bs. read_result (error_result p) (front ++ (bs ++ back)) ≡ some (bad msg)) (sym m)
        (read_message n front back p msg z (subst (λ bs. Below n (front ++ (bs ++ back))) m k)))

Owned-Delivered : (s : Session) → Owned s → All (Delivered s.heap.live) s.held
Owned-Delivered s o =
    Owns-All s.heap s.held [] s.heap.live
      (λ x f mine b mine_held e.
        subst (λ live. Delivered live x) (sym e)
          (Holds-Delivered s.heap.next x f mine b mine_held (subst (Below s.heap.next) e o.below)))
      o.owns refl

-- A call with as many bytes as it says comes to an end.
acvm_witness_solve_json_utf8-length :
    (solve : Text → Attempt Bytes) (memory : Bytes) (len : ℕ) (h : Heap)
    → len ≤ length memory
    → (made : AcvmWitnessFfiResult × Heap) × (acvm_witness_solve_json_utf8 solve (some memory) len h
        ≡ some made)
unfolding acvm_witness_solve_json_utf8 from_raw_parts
acvm_witness_solve_json_utf8-length solve memory len h fits = elim (Bool-cases (len == 0)) [
  | inl z ↦ (err_result (codes "empty or null JSON input") h, ground arith)
  | inr z ↦ (solve_bytes solve (take len memory) h, ground arith)
]

-- In a session that a caller has reached from an empty heap: each result it holds still reads as
-- the answer of the call that made it, whatever was solved and freed in between. And the next
-- call, on memory of at least as many bytes as it is told, comes to an end with a result that
-- reads as its answer: the solver's bytes or message, with a message that has a zero byte
-- replaced, the message for input that is empty or not UTF-8.
pub Reach-Delivered :
    (solve : Text → Attempt Bytes) (s : Session) (memory : Bytes) (len : ℕ)
    → Reach solve s
    → len ≤ length memory
    → All (Delivered s.heap.live) s.held
      × ((made : AcvmWitnessFfiResult × Heap) × (acvm_witness_solve_json_utf8 solve
              (some memory)
              len
              s.heap
            ≡ some made)
          × (read_result made.0 made.1.live ≡ some (answer solve (some memory) len)))
unfolding Delivered
Reach-Delivered solve s memory len reach fits =
    let o = Reach-Owned solve s reach in
    let (made, e) = acvm_witness_solve_json_utf8-length solve memory len s.heap fits in
    let next = Reach-Owned solve _ (steps reach (solves (some memory) len made.0 made.1 e refl)) in
    (Owned-Delivered s o, (made, e, (Owned-Delivered _ next).0))
