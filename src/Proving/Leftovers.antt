-- ===== src/Proving/Leftovers.antt =====
-- The files outside of a temporary directory when it is dropped.
use vocdoni_passport_prover.Prelude.{◌≡◌, refl, inl, inr, false, subst, Bool-cases, [], ◌∷◌}
use vocdoni_passport_prover.Prelude.Text.{Text, text_eq, eq_of_text_eq, match_text}
use vocdoni_passport_prover.Registry.{Disk}
use vocdoni_passport_prover.Io.{Os, outside}

module _ (os : Os) where
  -- A file that is not in the directory stays.
  pub match_text-outside_kept :
      (dir path : Text) (disk : Disk)
      → os.removes dir path ≡ false
      → match_text path (outside os dir disk) ≡ match_text path disk
  unfolding outside match_text
  match_text-outside_kept dir path [] h = refl
  match_text-outside_kept dir path ((p, bytes) ∷ disk) h = elim (Bool-cases (text_eq path p)) [
    | inl e ↦
        let same = eq_of_text_eq path p e in
        let kept : os.removes dir p ≡ false = subst (λ x. os.removes dir x ≡ false) same h in
        rw (outside, kept, e)
    | inr e ↦ elim (Bool-cases (os.removes dir p)) [
      | inl i ↦ rw (outside, i, e) (match_text-outside_kept dir path disk h)
      | inr o ↦ rw (outside, o, e) (match_text-outside_kept dir path disk h)
    ]
  ]
