-- ===== src/Mrz/Layout.antt =====
-- `parse_mrz` reads the fields of a passport's two lines, and panics on no ASCII text.
use vocdoni_passport_prover.Prelude.{
  ℕ, ◌≤◌, Bool, ◌&&◌, [], ◌∷◌, leb, length, take, drop, ok, ◌≡◌, arith, Bool-cases, inl, inr,
}
use vocdoni_passport_prover.Prelude.Text.{
  Text, codes, remove, split_fillers, starts_with, slice-IsAscii, IsAscii,
}
use vocdoni_passport_prover.Mrz.{
  MrzFields, no_fillers, no_fillers_or_bars, name_part, parse_td3, parse_td1, clean_mrz, parse_mrz,
}

remove-IsAscii : (test : ℕ → Bool) (s : Text) → IsAscii s → IsAscii (remove test s)
unfolding remove
remove-IsAscii test [] a = tt
remove-IsAscii test (c ∷ s) a = elim (Bool-cases (test c)) [
  | inl h ↦ rw h (remove-IsAscii test s a.1)
  | inr h ↦ rw h (a.0, remove-IsAscii test s a.1)
]

parse_td3-IsAscii : (s : Text) → IsAscii s → 88 ≤ length s → (f : MrzFields) × (parse_td3 s ≡ ok f)
unfolding parse_td3
parse_td3-IsAscii s a h = (
  record {
    issuing_country = no_fillers (take 3 (drop 2 s));
    document_number = no_fillers_or_bars (take 9 (drop 44 s));
    nationality = no_fillers (take 3 (drop 54 s));
    date_of_birth = no_fillers (take 6 (drop 57 s));
    gender = no_fillers (take 1 (drop 64 s));
    expiry_date = no_fillers_or_bars (take 6 (drop 65 s));
    last_name = name_part (split_fillers [] (take 39 (drop 5 s))) 0;
    first_name = name_part (split_fillers [] (take 39 (drop 5 s))) 1;
  },
  rw (
    slice-IsAscii s 5 44 a (omega arith) (omega arith),
    slice-IsAscii s 2 5 a (omega arith) (omega arith),
    slice-IsAscii s 44 53 a (omega arith) (omega arith),
    slice-IsAscii s 54 57 a (omega arith) (omega arith),
    slice-IsAscii s 57 63 a (omega arith) (omega arith),
    slice-IsAscii s 64 65 a (omega arith) (omega arith),
    slice-IsAscii s 65 71 a (omega arith) (omega arith),
  ),
)

-- Every ASCII text has fields: however short or long it is, no slice panics.
pub parse_mrz-IsAscii : (mrz : Text) → IsAscii mrz → (f : MrzFields) × (parse_mrz mrz ≡ ok f)
unfolding parse_mrz clean_mrz
parse_mrz-IsAscii mrz a =
    elim (Bool-cases (leb 88 (length (clean_mrz mrz)) && starts_with (codes "P") (clean_mrz mrz))) [
      | inl h ↦ rw h (
          parse_td3-IsAscii (clean_mrz mrz) (remove-IsAscii _ _ (remove-IsAscii _ mrz a))
            (ground arith))
      | inr h ↦ (parse_td1 (clean_mrz mrz), rw h)
    ]
