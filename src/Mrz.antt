-- ===== src/Mrz.antt =====
-- crates/prover-core/src/analysis.rs: `MrzFields`, `extract_mrz_from_dg1` and `parse_mrz`.
pub mod Layout
pub mod Lines
pub mod Td3
pub mod Search
mod Tests
use vocdoni_passport_prover.Prelude.{
  ℕ, zero, suc, ◌+◌, ◌-◌, ◌*◌, Bool, true, false, ◌&&◌, ◌||◌, Option, none, some, List, [], ◌∷◌,
  ltb, leb, ◌==◌, if◌then◌else◌, get_elem?, length, message, Outcome, ok, err, ◌>>=◌, ◌>>◌,
}
use vocdoni_passport_prover.Prelude.Text.{
  Text, codes, trim, remove, blank, split_fillers, starts_with, get_range, slice, bytes_slice,
  is_utf8,
}

pub record MrzFields : Type 0 where
  pub issuing_country : Text
  pub document_number : Text
  pub nationality : Text
  pub date_of_birth : Text
  pub gender : Text
  pub expiry_date : Text
  pub last_name : Text
  pub first_name : Text

-- `String::from_utf8(bytes).context(…)`.
unfoldable pub from_utf8 : List ℕ → Outcome Text
from_utf8 bytes =
    if is_utf8 bytes then ok bytes else err (message "DG1 MRZ is not valid UTF-8/ASCII")

-- The test at one index of the loop of `extract_mrz_from_dg1`: the place behind the tag and the
-- length byte, and the length, if they fit. All three bytes are inside, so no index panics.
unfoldable pub mrz_at : List ℕ → ℕ → Option (ℕ × ℕ)
mrz_at dg1 i = elim (get_elem? dg1 i) [
  | none ↦ none
  | some a ↦ elim (get_elem? dg1 (i + 1)) [
    | none ↦ none
    | some b ↦ elim (get_elem? dg1 (i + 2)) [
      | none ↦ none
      | some len ↦
          if a == 0x5f && b == 0x1f && leb (i + 3 + len) (length dg1)
          then some (i + 3, len)
          else none
    ]
  ]
]

-- The loop, with the indices that are left.
unfoldable pub find_mrz : ℕ → List ℕ → ℕ → Option (ℕ × ℕ)
find_mrz zero dg1 i = none
find_mrz (suc left) dg1 i = elim (mrz_at dg1 i) [
  | some r ↦ some r
  | none ↦ find_mrz left dg1 (i + 1)
]

unfoldable pub extract_mrz_from_dg1 : List ℕ → Outcome Text
extract_mrz_from_dg1 dg1 = elim (find_mrz (length dg1 - 2) dg1 0) [
  | some (start, len) ↦ do bytes ← bytes_slice dg1 start (start + len); from_utf8 bytes
  | none ↦ if is_utf8 dg1 then ok dg1 else err (message "DG1 fallback ASCII decode failed")
]

-- `replace('<', "")` and `replace(['<', '_'], "")`.
abbrev pub no_fillers : Text → Text
no_fillers = remove (λ c. c == b'<')

abbrev pub no_fillers_or_bars : Text → Text
no_fillers_or_bars = remove (λ c. c == b'<' || c == b'_')

-- `names.get(i).copied().unwrap_or_default().replace('<', " ").trim()`.
unfoldable pub name_part : List Text → ℕ → Text
name_part names i = elim (get_elem? names i) [
  | none ↦ trim (blank b'<' [])
  | some n ↦ trim (blank b'<' n)
]

-- `get(a..b).unwrap_or_default()`.
unfoldable pub get_or_default : Text → ℕ → ℕ → Text
get_or_default s a b = elim (get_range s a b) [ none ↦ [] | some t ↦ t ]

-- The branch for the two lines of a passport, which slices.
unfoldable pub parse_td3 : Text → Outcome MrzFields
parse_td3 clean = do
  names ← slice clean 5 44
  issuing ← slice clean 2 5
  number ← slice clean 44 53
  nation ← slice clean 54 57
  birth ← slice clean 57 63
  sex ← slice clean 64 65
  expiry ← slice clean 65 71
  ok (record {
    issuing_country = no_fillers issuing;
    document_number = no_fillers_or_bars number;
    nationality = no_fillers nation;
    date_of_birth = no_fillers birth;
    gender = no_fillers sex;
    expiry_date = no_fillers_or_bars expiry;
    last_name = name_part (split_fillers [] names) 0;
    first_name = name_part (split_fillers [] names) 1;
  })

-- The branch for the three lines of an identity card, which takes what is there.
unfoldable pub parse_td1 : Text → MrzFields
parse_td1 clean =
    let names = split_fillers [] (get_or_default clean 60 90) in
    record {
      issuing_country = no_fillers (get_or_default clean 2 5);
      document_number = no_fillers_or_bars (get_or_default clean 5 14);
      nationality = no_fillers (get_or_default clean 45 48);
      date_of_birth = no_fillers (get_or_default clean 30 36);
      gender = no_fillers (get_or_default clean 37 38);
      expiry_date = no_fillers_or_bars (get_or_default clean 38 44);
      last_name = name_part names 0;
      first_name = name_part names 1;
    }

unfoldable pub clean_mrz : Text → Text
clean_mrz mrz = remove (λ c. c == 32) (remove (λ c. c == b'\n') mrz)

unfoldable pub parse_mrz : Text → Outcome MrzFields
parse_mrz mrz =
    let clean = clean_mrz mrz in
    if leb 88 (length clean) && starts_with (codes "P") clean
    then parse_td3 clean
    else ok (parse_td1 clean)
