-- ===== src/Ffi/Blocks.antt =====
-- The allocator under the C interface: addresses that fall along the list of live blocks, and a
-- block that is found and given back among the others.
use vocdoni_passport_prover.Prelude.{
  ℕ, suc, ◌<◌, ◌≤◌, ◌≡◌, refl, false, some, List, [], ◌∷◌, ◌++◌, length, arith,
}
use vocdoni_passport_prover.Ffi.{
  Block, take_block, dealloc, strlen, has_zero, free_buffer, free_error, first_address,
}
use vocdoni_passport_prover.Prelude.Text.{Text}

-- Every address is below the one before it, and a real one.
unfoldable pub Below : ℕ → List Block → Type 0
Below n [] = Unit {0}
Below n (b ∷ bs) = (first_address ≤ b.ptr) × (b.ptr < n) × Below b.ptr bs

pub Below-mono : (m n : ℕ) (bs : List Block) → m ≤ n → Below m bs → Below n bs
unfolding Below
Below-mono m n [] h k = tt
Below-mono m n (b ∷ bs) h (l, u, k) = (l, omega arith, k)

pub Below-remove :
    (n : ℕ) (front : List Block) (b : Block) (back : List Block)
    → Below n (front ++ b ∷ back)
    → Below n (front ++ back)
unfolding Below
Below-remove n [] b back (l, u, k) = Below-mono b.ptr n back (omega arith) k
Below-remove n (c ∷ front) b back (l, u, k) = (l, u, Below-remove c.ptr front b back k)

pub Below-at :
    (n : ℕ) (front : List Block) (b : Block) (back : List Block)
    → Below n (front ++ b ∷ back)
    → (first_address ≤ b.ptr) × (b.ptr < n)
unfolding Below
Below-at n [] b back (l, u, k) = (l, u)
Below-at n (c ∷ front) b back (l, u, k) =
    let (l', u') = Below-at c.ptr front b back k in (l', omega arith)

pub take_block-Below :
    (n : ℕ) (front : List Block) (b : Block) (back : List Block)
    → Below n (front ++ b ∷ back)
    → take_block b.ptr (front ++ b ∷ back) ≡ some (b, front ++ back)
unfolding take_block Below
take_block-Below n [] b back k = ground arith
take_block-Below n (c ∷ front) b back (l, u, k) =
    let ih = take_block-Below c.ptr front b back k in
    let (l', u') = Below-at c.ptr front b back k in rw (ih) (ground arith)

pub dealloc-Below :
    (n : ℕ) (front : List Block) (b : Block) (back : List Block)
    → Below n (front ++ b ∷ back)
    → dealloc b.ptr (length b.bytes) (front ++ b ∷ back) ≡ some (front ++ back)
unfolding dealloc
dealloc-Below n front b back k = rw (dealloc, take_block-Below n front b back k) (ground arith)

pub free_buffer-Below :
    (n : ℕ) (front : List Block) (b : Block) (back : List Block)
    → 0 < length b.bytes
    → Below n (front ++ b ∷ back)
    → free_buffer (record { ptr = b.ptr; len = length b.bytes }) (front ++ b ∷ back)
      ≡ some (front ++ back)
unfolding free_buffer
free_buffer-Below n front b back h k =
    let (l, u) = Below-at n front b back k in let d = dealloc-Below n front b back k in ground arith

pub strlen-has_zero :
    (msg : Text) → has_zero msg ≡ false → strlen (msg ++ 0 ∷ []) ≡ some (length msg)
unfolding strlen has_zero
strlen-has_zero [] h = refl
strlen-has_zero (c ∷ msg) h =
    let ih : has_zero msg ≡ false → _ = strlen-has_zero msg in ground arith

pub length-c_string : (msg : Text) → length (msg ++ 0 ∷ []) ≡ suc (length msg)
length-c_string [] = refl
length-c_string (c ∷ msg) = rw (length-c_string msg)

pub free_error-Below :
    (n : ℕ) (front : List Block) (p : ℕ) (msg : Text) (back : List Block)
    → has_zero msg ≡ false
    → Below n (front ++ record { ptr = p; bytes = msg ++ 0 ∷ [] } ∷ back)
    → free_error p (front ++ record { ptr = p; bytes = msg ++ 0 ∷ [] } ∷ back)
      ≡ some (front ++ back)
unfolding free_error
free_error-Below n front p msg back h k =
    let b : Block = record { ptr = p; bytes = msg ++ 0 ∷ [] } in
    let (l, u) = Below-at n front b back k in
    let t = take_block-Below n front b back k in
    let d = dealloc-Below n front b back k in
    let s = strlen-has_zero msg h in
    let e = length-c_string msg in rw (free_error, t) (ground arith)
