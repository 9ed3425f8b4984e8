-- ===== src/Ffi/Frees.antt =====
-- A held result is given back: its blocks go, and no others.
use vocdoni_passport_prover.Prelude.{
  ℕ, ◌<◌, ◌≡◌, refl, sym, ◌∙◌, ap, subst, false, some, List, [], ◌∷◌, ◌++◌, length,
}
use vocdoni_passport_prover.Prelude.Text.{Text}
use vocdoni_passport_prover.Ffi.{
  Block, Heap, AcvmWitnessFfiResult, dangling, has_zero, free_buffer, free_error,
  acvm_witness_free_ffi_result,
}
use vocdoni_passport_prover.Ffi.Blocks.{Below, free_buffer-Below, free_error-Below}
use vocdoni_passport_prover.Ffi.Sessions.{
  Handle, data_result, error_result, Holds, holds_bytes, holds_nothing, holds_message,
}

-- The two halves of a free.
free-parts :
    (r : AcvmWitnessFfiResult) (h : Heap) (live rest : List Block)
    → free_buffer r.data_buffer h.live ≡ some live
    → free_error r.error_utf8 live ≡ some rest
    → acvm_witness_free_ffi_result r h ≡ some (record h { live = rest })
unfolding acvm_witness_free_ffi_result
free-parts r h live rest b e = rw (acvm_witness_free_ffi_result, b, e)

free_data :
    (n : ℕ) (front back : List Block) (b : Block) (h : Heap)
    → 0 < length b.bytes
    → h.live ≡ front ++ b ∷ back
    → Below n h.live
    → acvm_witness_free_ffi_result (data_result b.ptr (length b.bytes)) h
      ≡ some (record h { live = front ++ back })
unfolding free_error
free_data n front back b h pos s k =
    free-parts (data_result b.ptr (length b.bytes)) h (front ++ back) (front ++ back)
      (rw (s) (free_buffer-Below n front b back pos (subst (Below n) s k))) refl

free_message :
    (n : ℕ) (front back : List Block) (p : ℕ) (msg : Text) (h : Heap)
    → has_zero msg ≡ false
    → h.live ≡ front ++ record { ptr = p; bytes = msg ++ 0 ∷ [] } ∷ back
    → Below n h.live
    → acvm_witness_free_ffi_result (error_result p) h ≡ some (record h { live = front ++ back })
unfolding free_buffer
free_message n front back p msg h z s k =
    free-parts (error_result p) h h.live (front ++ back) refl
      (rw (s) (free_error-Below n front p msg back z (subst (Below n) s k)))

-- A held result can be given back, and only its blocks go.
pub free-Holds :
    (x : Handle) (front mine back : List Block) (h : Heap)
    → Holds x mine
    → h.live ≡ front ++ (mine ++ back)
    → Below h.next h.live
    → acvm_witness_free_ffi_result x.0 h ≡ some (record h { live = front ++ back })
unfolding free_buffer free_error
free-Holds x front mine back h (holds_bytes b pos m e) s k =
    let there : h.live ≡ front ++ b ∷ back = s ∙ ap (λ bs. front ++ (bs ++ back)) m in
    subst (λ y. acvm_witness_free_ffi_result y.0 h ≡ some (record h { live = front ++ back }))
      (sym e) (free_data h.next front back b h pos there k)
free-Holds x front mine back h (holds_nothing m e) s k =
    let there : h.live ≡ front ++ back = s ∙ ap (λ bs. front ++ (bs ++ back)) m in
    subst (λ y. acvm_witness_free_ffi_result y.0 h ≡ some (record h { live = front ++ back }))
      (sym e) (free-parts (data_result dangling 0) h h.live (front ++ back) refl (ap some there))
free-Holds x front mine back h (holds_message p msg z m e) s k =
    let there : h.live ≡ front ++ record { ptr = p; bytes = msg ++ 0 ∷ [] } ∷ back =
      s ∙ ap (λ bs. front ++ (bs ++ back)) m in
    subst (λ y. acvm_witness_free_ffi_result y.0 h ≡ some (record h { live = front ++ back }))
      (sym e) (free_message h.next front back p msg h z there k)
