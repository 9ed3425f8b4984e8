-- ===== src/Ffi.antt =====
-- crates/acvm-witness-jni/src/ffi.rs: the C interface of the witness solver, over a heap. Every
-- allocation has an address of its own: a use of a block that was given back is a fault.
pub mod Blocks
pub mod Sessions
pub mod Frees
pub mod Makes
pub mod Ownership
pub mod Delivery
mod Tests
use vocdoni_passport_prover.Prelude.{
  ℕ, zero, suc, ◌+◌, ◌<◌, Bool, true, false, ◌&&◌, ◌||◌, not, Option, none, some, List, [], ◌∷◌,
  ◌++◌, length, take, ltb, leb, ◌==◌, if◌then◌else◌,
}
use vocdoni_passport_prover.Prelude.Text.{Text, codes, is_utf8}
use vocdoni_passport_prover.Der.{Bytes}
use vocdoni_passport_prover.Witness.{Attempt, good, bad}

-- An allocation: its address, and what was written to it.
pub record Block : Type 0 where
  pub ptr : ℕ
  pub bytes : Bytes

-- The live allocations, the last one first, and the next address.
pub record Heap : Type 0 where
  pub live : List Block
  pub next : ℕ

abbrev pub null : ℕ
null = 0

-- What a slice of no bytes points to: no allocation, and not null.
abbrev pub dangling : ℕ
dangling = 1

abbrev pub first_address : ℕ
first_address = 2

unfoldable pub alloc : Bytes → Heap → ℕ × Heap
alloc [] h = (dangling, h)
alloc (b ∷ bs) h =
    (h.next, record { live = record { ptr = h.next; bytes = b ∷ bs } ∷ h.live; next = suc h.next })

-- The block at an address, and the others.
unfoldable pub take_block : ℕ → List Block → Option (Block × List Block)
take_block p [] = none
take_block p (b ∷ bs) =
    if b.ptr == p
    then some (b, bs)
    else elim (take_block p bs) [ none ↦ none | some (c, rest) ↦ some (c, b ∷ rest) ]

-- `dealloc` with the layout of so many bytes. Another size than the allocation's is a fault.
unfoldable pub dealloc : ℕ → ℕ → List Block → Option (List Block)
dealloc p size live = elim (take_block p live) [
  | none ↦ none
  | some (b, rest) ↦ if length b.bytes == size then some rest else none
]

-- `strlen`: the bytes in front of the first zero. There is a fault if there is none.
unfoldable pub strlen : Bytes → Option ℕ
strlen [] = none
strlen (b ∷ bs) = elim (b == 0) [
  | true ↦ some 0
  | false ↦ elim (strlen bs) [ none ↦ none | some n ↦ some (suc n) ]
]

pub record AcvmWitnessBuffer : Type 0 where
  pub ptr : ℕ
  pub len : ℕ

pub record AcvmWitnessFfiResult : Type 0 where
  pub status : ℕ
  pub data_buffer : AcvmWitnessBuffer
  pub error_utf8 : ℕ

-- `into_boxed_slice` and `forget`: the buffer is the caller's.
unfoldable pub ok_result : Bytes → Heap → AcvmWitnessFfiResult × Heap
ok_result bytes h =
    let (ptr, h') = alloc bytes h in
    (
      record {
        status = 0;
        data_buffer = record { ptr = ptr; len = length bytes };
        error_utf8 = null;
      },
      h',
    )

unfoldable pub has_zero : Text → Bool
has_zero [] = false
has_zero (b ∷ bs) = b == 0 || has_zero bs

-- `CString::new(msg).unwrap_or_else(…)`: a message with a zero byte is replaced.
unfoldable pub c_string : Text → Bytes
c_string msg = (if has_zero msg then codes "invalid error string" else msg) ++ 0 ∷ []

unfoldable pub err_result : Text → Heap → AcvmWitnessFfiResult × Heap
err_result msg h =
    let (ptr, h') = alloc (c_string msg) h in
    (record { status = 1; data_buffer = record { ptr = null; len = 0 }; error_utf8 = ptr }, h')

-- The caller's memory at `json_ptr`; nothing, if the pointer is null. `from_raw_parts` over more
-- bytes than are there is a fault.
unfoldable pub from_raw_parts : Bytes → ℕ → Option Bytes
from_raw_parts memory len = if leb len (length memory) then some (take len memory) else none

unfoldable pub result_of : Attempt Bytes → Heap → AcvmWitnessFfiResult × Heap
result_of (good bytes) h = ok_result bytes h
result_of (bad msg) h = err_result msg h

module _ (solve : Text → Attempt Bytes) where
  unfoldable pub solve_bytes : Bytes → Heap → AcvmWitnessFfiResult × Heap
  solve_bytes bytes h =
      if is_utf8 bytes then result_of (solve bytes) h else err_result (codes "invalid UTF-8") h

  unfoldable pub acvm_witness_solve_json_utf8 :
      Option Bytes → ℕ → Heap → Option (AcvmWitnessFfiResult × Heap)
  acvm_witness_solve_json_utf8 none len h = some (err_result (codes "empty or null JSON input") h)
  acvm_witness_solve_json_utf8 (some memory) len h =
      if len == 0
      then some (err_result (codes "empty or null JSON input") h)
      else elim (from_raw_parts memory len) [
        | none ↦ none
        | some bytes ↦ some (solve_bytes bytes h)
      ]

-- `drop(Vec::from_raw_parts(ptr, len, len))`, if there is a buffer.
unfoldable pub free_buffer : AcvmWitnessBuffer → List Block → Option (List Block)
free_buffer d live =
    if not (d.ptr == null) && ltb 0 d.len then dealloc d.ptr d.len live else some live

-- `drop(CString::from_raw(error))`: the layout is found by `strlen`.
unfoldable pub free_error : ℕ → List Block → Option (List Block)
free_error p live = if p == null then some live else elim (take_block p live) [
  | none ↦ none
  | some (b, rest) ↦ elim (strlen b.bytes) [ none ↦ none | some n ↦ dealloc p (suc n) live ]
]

unfoldable pub acvm_witness_free_ffi_result : AcvmWitnessFfiResult → Heap → Option Heap
acvm_witness_free_ffi_result r h = elim (free_buffer r.data_buffer h.live) [
  | none ↦ none
  | some live ↦ elim (free_error r.error_utf8 live) [
    | none ↦ none
    | some rest ↦ some (record h { live = rest })
  ]
]
