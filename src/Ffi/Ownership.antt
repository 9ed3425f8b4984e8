-- ===== src/Ffi/Ownership.antt =====
-- The results that a caller holds own the heap.
use vocdoni_passport_prover.Prelude.{
  ℕ, ◌+◌, ◌≡◌, refl, sym, ◌∙◌, ap, subst, some, List, [], ◌∷◌, ◌++◌, append_assoc, length,
  length-append, ◌==◌, if◌then◌else◌, All, arith,
}
use vocdoni_passport_prover.Prelude.Text.{Text}
use vocdoni_passport_prover.Der.{Bytes}
use vocdoni_passport_prover.Witness.{Attempt}
use vocdoni_passport_prover.Ffi.{Block, Heap, AcvmWitnessFfiResult, acvm_witness_free_ffi_result}
use vocdoni_passport_prover.Ffi.Blocks.{Below, Below-remove}
use vocdoni_passport_prover.Ffi.Sessions.{
  Handle, Holds, holds_bytes, holds_nothing, holds_message, Owns, Session, Step, solves, frees,
  Reach, starts, steps, Owned,
}
use vocdoni_passport_prover.Ffi.Frees.{free-Holds}
use vocdoni_passport_prover.Ffi.Makes.{solve-Adds}

Owns-middle :
    (before : List Handle) (x : Handle) (after : List Handle) (live : List Block)
    → Owns (before ++ x ∷ after) live
    → (front : List Block) × (mine : List Block) × (back : List Block) × (live
        ≡ front ++ (mine ++ back))
      × Holds x mine
      × Owns (before ++ after) (front ++ back)
unfolding Owns
Owns-middle [] x after live (mine, rest, e, held, o) = ([], mine, rest, e, held, o)
Owns-middle (y ∷ before) x after live (his, rest, e, held, o) =
    let (front, mine, back, e', held', o') = Owns-middle before x after rest o in
    (
      his ++ front,
      mine,
      back,
      e ∙ ap (λ bs. his ++ bs) e' ∙ sym (append_assoc his front (mine ++ back)),
      held',
      (his, front ++ back, append_assoc his front back, held, o'),
    )

Below-middle :
    (n : ℕ) (front mine back : List Block)
    → Below n (front ++ (mine ++ back))
    → Below n (front ++ back)
Below-middle n front [] back k = k
Below-middle n front (b ∷ mine) back k =
    Below-middle n front mine back (Below-remove n front b (mine ++ back) k)

module _ (solve : Text → Attempt Bytes) where
  -- The heap and the results stay in step.
  step-Owned : (s t : Session) → Step solve s t → Owned s → Owned t
  unfolding Owns
  step-Owned s t (solves memory len r h e f) o =
      let a = solve-Adds solve memory len s.heap (r, h) o.real o.below e in
      subst Owned (sym f) record {
        real = a.real;
        below = a.below;
        owns = (a.mine, s.heap.live, a.live, a.holds, o.owns);
      }
  step-Owned s t (frees before x after h e f g) o =
      let at : Owns (before ++ x ∷ after) s.heap.live =
        subst (λ hs. Owns hs s.heap.live) e o.owns in
      let (front, mine, back, e', mine_held, others) = Owns-middle before x after s.heap.live at in
      let freed = free-Holds x front mine back s.heap mine_held e' o.below in
      let same : record s.heap { live = front ++ back } ≡ h = cc (freed, f) in
      let kept = Below-middle s.heap.next front mine back (subst (Below s.heap.next) e' o.below) in
      subst Owned (sym g) (
        subst (λ h'. Owned (record { heap = h'; held = before ++ after })) same
          record { real = o.real; below = kept; owns = others })

  pub Reach-Owned : (s : Session) → Reach solve s → Owned s
  unfolding Owns Below
  Reach-Owned s starts = record { real = omega arith; below = tt; owns = refl }
  Reach-Owned s (steps {s = before} reach step) =
      step-Owned before s step (Reach-Owned before reach)

pub Freeable : Heap → Handle → Type 0
Freeable h x = (h' : Heap) × (acvm_witness_free_ffi_result x.0 h ≡ some h')

-- The allocations that a result owns: the bytes of a success, if there are any, or the message.
unfoldable pub block_count : AcvmWitnessFfiResult → ℕ
block_count r = if r.status == 0 then if r.data_buffer.len == 0 then 0 else 1 else 1

unfoldable pub block_counts : List Handle → ℕ
block_counts [] = 0
block_counts (x ∷ held) = block_count x.0 + block_counts held

-- All that holds of a result of its own holds of every result, at any place among the others.
pub Owns-All {ℓ} :
    {P : Handle → Type ℓ} (h : Heap) (held : List Handle) (front live : List Block)
    → ((x : Handle) (f mine b : List Block) → Holds x mine → h.live ≡ f ++ (mine ++ b) → P x)
    → Owns held live
    → h.live ≡ front ++ live
    → All P held
unfolding Owns
Owns-All h [] front live each o e = tt
Owns-All h (x ∷ held) front live each (mine, rest, e', mine_held, o) e =
    let here = e ∙ ap (λ bs. front ++ bs) e' in
    (
      each x front mine rest mine_held here,
      Owns-All h held (front ++ mine) rest each o (here ∙ sym (append_assoc front mine rest)),
    )

Holds-block_count : (x : Handle) (mine : List Block) → Holds x mine → block_count x.0 ≡ length mine
unfolding block_count
Holds-block_count x mine (holds_bytes b pos m e) =
    subst (λ y. block_count y.0 ≡ length mine) (sym e) (rw (m) (ground arith))
Holds-block_count x mine (holds_nothing m e) =
    subst (λ y. block_count y.0 ≡ length mine) (sym e) (rw (m) refl)
Holds-block_count x mine (holds_message p msg z m e) =
    subst (λ y. block_count y.0 ≡ length mine) (sym e) (rw (m) refl)

Owns-block_counts :
    (held : List Handle) (live : List Block) → Owns held live → block_counts held ≡ length live
unfolding Owns block_counts
Owns-block_counts [] live o = rw (o) refl
Owns-block_counts (x ∷ held) live (mine, rest, e, mine_held, o) =
    let here = Holds-block_count x mine mine_held in
    let others = Owns-block_counts held rest o in
    rw (e, length-append mine rest) (omega (arith, here, others))

-- In every session that a caller reaches from an empty heap by solving and by freeing the results
-- it holds, in any order and with any input that does not fault: the live blocks are exactly those
-- of the results that are still held, each as many as its status and its length say, and each held
-- result can be freed without a fault.
pub Reach-Freeable :
    (solve : Text → Attempt Bytes) (s : Session)
    → Reach solve s
    → Owned s × (length s.heap.live ≡ block_counts s.held) × All (Freeable s.heap) s.held
unfolding Freeable
Reach-Freeable solve s reach =
    let o = Reach-Owned solve s reach in
    (
      o,
      sym (Owns-block_counts s.held s.heap.live o.owns),
      Owns-All s.heap s.held [] s.heap.live
          (λ x f mine b mine_held e.
            (record s.heap { live = f ++ b }, free-Holds x f mine b s.heap mine_held e o.below))
          o.owns refl,
    )
