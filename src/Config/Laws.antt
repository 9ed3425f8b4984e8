-- ===== src/Config/Laws.antt =====
-- Loading a file, by crates/prover-core/src/config.rs and crates/prover-core/src/fixture.rs, leaves
-- the world as it is.
use vocdoni_passport_prover.Prelude.{◌≡◌, sym, ◌∙◌, ap, inl, inr, Option, ok, Error}
use vocdoni_passport_prover.Prelude.Text.{Text, match_text}
use vocdoni_passport_prover.Config.{load_json}
use vocdoni_passport_prover.Io.{World, read, read_to_string}
use vocdoni_passport_prover.Io.Laws.{Option-cases, >>=-eq-ok_io}

read-world : (path : Text) (e : Error) (w : World) → (read path e w).0 ≡ w
unfolding read
read-world path e w = elim (Option-cases (match_text path w.files.disk)) [
  | inl n ↦ rw (read, n)
  | inr (b, x) ↦ rw (read, x)
]

pub load_json-world :
    {A : Type 0} (reader : Text → Option A) (at_read at_parse : Error) (path : Text) (w : World)
    {w' : World} {a : A}
    → load_json reader at_read at_parse path w ≡ (w', ok a)
    → w' ≡ w
unfolding load_json read_to_string
load_json-world reader at_read at_parse path w h =
    let (w1, raw, h1, k1) = >>=-eq-ok_io (read_to_string path at_read) _ w h in
    let (w2, bytes, h2, k2) = >>=-eq-ok_io (read path at_read) _ w h1 in
    sym (ap (λ x. x.0) k1)
    ∙ sym (ap (λ x. x.0) k2)
    ∙ sym (ap (λ x. x.0) h2)
    ∙ read-world path at_read w
