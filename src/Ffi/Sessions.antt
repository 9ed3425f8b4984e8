-- ===== src/Ffi/Sessions.antt =====
-- A caller that solves and frees in any order, and which blocks of the heap belong to which
-- results.
use vocdoni_passport_prover.Prelude.{
  ℕ, ◌<◌, ◌≤◌, ◌≡◌, false, Option, none, some, List, [], ◌∷◌, ◌++◌, length, take, ◌==◌,
  if◌then◌else◌,
}
use vocdoni_passport_prover.Prelude.Text.{Text, codes, is_utf8}
use vocdoni_passport_prover.Der.{Bytes}
use vocdoni_passport_prover.Witness.{Attempt, good, bad}
use vocdoni_passport_prover.Ffi.{
  Block, Heap, AcvmWitnessFfiResult, null, dangling, first_address, has_zero,
  acvm_witness_solve_json_utf8, acvm_witness_free_ffi_result,
}
use vocdoni_passport_prover.Ffi.Blocks.{Below}

-- A result that the caller has not freed, and the answer that it stands for.
abbrev pub Handle : Type 0
Handle = AcvmWitnessFfiResult × Attempt Bytes

abbrev pub data_result : ℕ → ℕ → AcvmWitnessFfiResult
data_result p n = record {
  status = 0;
  data_buffer = record { ptr = p; len = n };
  error_utf8 = null;
}

abbrev pub error_result : ℕ → AcvmWitnessFfiResult
error_result p = record { status = 1; data_buffer = record { ptr = null; len = 0 }; error_utf8 = p }

-- The blocks of one result, which spell its answer.
pub data Holds (x : Handle) (blocks : List Block) : Type 0 where
  holds_bytes :
      (b : Block)
      → 0 < length b.bytes
      → blocks ≡ b ∷ []
      → x ≡ (data_result b.ptr (length b.bytes), good b.bytes)
      → Holds x blocks
  holds_nothing : blocks ≡ [] → x ≡ (data_result dangling 0, good []) → Holds x blocks
  holds_message :
      (p : ℕ) (msg : Text)
      → has_zero msg ≡ false
      → blocks ≡ record { ptr = p; bytes = msg ++ 0 ∷ [] } ∷ []
      → x ≡ (error_result p, bad msg)
      → Holds x blocks

-- The live blocks are those of the results, in the same order, and no others.
unfoldable pub Owns : List Handle → List Block → Type 0
Owns [] live = live ≡ []
Owns (x ∷ held) live =
    (mine : List Block) × (rest : List Block) × (live ≡ mine ++ rest)
    × Holds x mine
    × Owns held rest

pub record Session : Type 0 where
  pub heap : Heap
  pub held : List Handle

-- What the caller is told for its input, without the memory that carries it.
unfoldable pub spoken : Attempt Bytes → Attempt Bytes
spoken (good bytes) = good bytes
spoken (bad msg) = bad (if has_zero msg then codes "invalid error string" else msg)

module _ (solve : Text → Attempt Bytes) where
  unfoldable pub answer : Option Bytes → ℕ → Attempt Bytes
  answer none len = bad (codes "empty or null JSON input")
  answer (some memory) len =
      if len == 0
      then bad (codes "empty or null JSON input")
      else if is_utf8 (take len memory)
      then spoken (solve (take len memory))
      else bad (codes "invalid UTF-8")

  -- One call of the caller.
  pub data Step (s t : Session) : Type 0 where
    solves :
        (memory : Option Bytes) (len : ℕ) (r : AcvmWitnessFfiResult) (h : Heap)
        → acvm_witness_solve_json_utf8 solve memory len s.heap ≡ some (r, h)
        → t ≡ record { heap = h; held = (r, answer memory len) ∷ s.held }
        → Step s t
    frees :
        (before : List Handle) (x : Handle) (after : List Handle) (h : Heap)
        → s.held ≡ before ++ x ∷ after
        → acvm_witness_free_ffi_result x.0 s.heap ≡ some h
        → t ≡ record { heap = h; held = before ++ after }
        → Step s t

  -- The sessions that begin with an empty heap.
  pub data Reach : Session → Type 0 where
    starts : Reach (record { heap = record { live = []; next = first_address }; held = [] })
    steps : {s t : Session} → Reach s → Step s t → Reach t

pub record Owned (s : Session) : Type 0 where
  pub real : first_address ≤ s.heap.next
  pub below : Below s.heap.next s.heap.live
  pub owns : Owns s.held s.heap.live
