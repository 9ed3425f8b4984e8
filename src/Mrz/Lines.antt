-- ===== src/Mrz/Lines.antt =====
-- The two lines of a passport as ICAO 9303 lays them out, and the names in them.
use vocdoni_passport_prover.Prelude.{
  ℕ, suc, ◌+◌, ◌-◌, ◌≤◌, Bool, false, List, [], ◌∷◌, ◌++◌, length, length-append, replicate, All,
  ok, ◌≡◌, ◌≢◌, refl, ap, ◌∙◌, arith, append_assoc, append-nil, take-append, drop-append,
}
use vocdoni_passport_prover.Prelude.Text.{
  Text, trim, remove, blank, split_fillers, slice, slice-IsAscii, IsAscii, IsVisible, trim-visible,
}
use vocdoni_passport_prover.Mrz.{MrzFields, no_fillers, no_fillers_or_bars}

abbrev pub IsLetter : ℕ → Type 0
IsLetter c = (b'A' ≤ c) × (c ≤ b'Z')

-- The parts of the two lines, in their order.
pub record Td3 : Type 0 where
  pub kind : ℕ
  pub issuing : Text
  pub surname : Text
  pub given : Text
  pub fillers : ℕ
  pub number : Text
  pub number_check : ℕ
  pub nation : Text
  pub birth : Text
  pub birth_check : ℕ
  pub sex : ℕ
  pub expiry : Text
  pub rest : Text

pub record IsTd3 (t : Td3) : Type 0 where
  pub kind_visible : IsVisible t.kind
  pub issuing_visible : All IsVisible t.issuing
  pub surname_letters : All IsLetter t.surname
  pub given_letters : All IsLetter t.given
  pub number_visible : All IsVisible t.number
  pub number_check_visible : IsVisible t.number_check
  pub nation_visible : All IsVisible t.nation
  pub birth_visible : All IsVisible t.birth
  pub birth_check_visible : IsVisible t.birth_check
  pub sex_visible : IsVisible t.sex
  pub expiry_visible : All IsVisible t.expiry
  pub rest_visible : All IsVisible t.rest
  pub issuing_size : length t.issuing ≡ 3
  pub names_size : length t.surname + (2 + (length t.given + t.fillers)) ≡ 39
  pub fillers_size : 2 ≤ t.fillers
  pub number_size : length t.number ≡ 9
  pub nation_size : length t.nation ≡ 3
  pub birth_size : length t.birth ≡ 6
  pub expiry_size : length t.expiry ≡ 6
  pub rest_size : 17 ≤ length t.rest

-- The surname, two fillers, the given name, and fillers up to the end of the line.
unfoldable pub names_of : Td3 → Text
names_of t = t.surname ++ (b'<' ∷ b'<' ∷ (t.given ++ replicate t.fillers b'<'))

unfoldable pub td3_text : Td3 → Text
td3_text t =
    b'P'
    ∷ t.kind
    ∷ (t.issuing
        ++ (names_of t
            ++ (t.number
                ++ (t.number_check
                    ∷ (t.nation ++ (t.birth ++ (t.birth_check ∷ t.sex ∷ (t.expiry ++ t.rest))))))))

-- What is read of the lines: every part with its fillers taken out, and the names.
abbrev pub fields_of : Td3 → MrzFields
fields_of t = record {
  issuing_country = no_fillers t.issuing;
  document_number = no_fillers_or_bars t.number;
  nationality = no_fillers t.nation;
  date_of_birth = no_fillers t.birth;
  gender = no_fillers (t.sex ∷ []);
  expiry_date = no_fillers_or_bars t.expiry;
  last_name = t.surname;
  first_name = t.given;
}

pub remove_none :
    (P : ℕ → Type 0) (test : ℕ → Bool) (s : Text)
    → ((c : ℕ) → P c → test c ≡ false)
    → All P s
    → remove test s ≡ s
unfolding remove
remove_none P test [] h a = refl
remove_none P test (c ∷ s) h a = rw (h c a.0, remove_none P test s h a.1)

pub slice_part :
    (s pre part post : Text) (a b : ℕ)
    → IsAscii s
    → s ≡ pre ++ (part ++ post)
    → a ≡ length pre
    → b ≡ length pre + length part
    → slice s a b ≡ ok part
slice_part s pre part post a b h e la lb =
    let size : length s ≡ length pre + (length part + length post) =
      ap length e ∙ omega (arith, length-append pre (part ++ post), length-append part post) in
    let width : b - a ≡ length part = omega arith in
    slice-IsAscii s a b h (omega arith) (omega arith)
    ∙ rw (width, e, la) (rw (drop-append pre (part ++ post), take-append part post))

split_fillers_step :
    (c d : ℕ) (cur s : Text)
    → c ≢ b'<'
    → split_fillers cur (c ∷ d ∷ s) ≡ split_fillers (cur ++ c ∷ []) (d ∷ s)
unfolding split_fillers
split_fillers_step c d cur s h = ground arith

split_fillers_sep :
    (cur rest : Text) → split_fillers cur (b'<' ∷ b'<' ∷ rest) ≡ cur ∷ split_fillers [] rest
unfolding split_fillers
split_fillers_sep cur rest = refl

-- A name of letters is split off before two fillers.
split_fillers-letters :
    (s cur rest : Text)
    → All IsLetter s
    → split_fillers cur (s ++ (b'<' ∷ b'<' ∷ rest)) ≡ (cur ++ s) ∷ split_fillers [] rest
split_fillers-letters [] cur rest a = rw append-nil (split_fillers_sep cur rest)
split_fillers-letters (c ∷ []) cur rest a =
    split_fillers_step c b'<' cur (b'<' ∷ rest) (omega arith)
    ∙ split_fillers_sep (cur ++ c ∷ []) rest
split_fillers-letters (c ∷ d ∷ s) cur rest a =
    split_fillers_step c d cur (s ++ (b'<' ∷ b'<' ∷ rest)) (omega arith)
    ∙ split_fillers-letters (d ∷ s) (cur ++ c ∷ []) rest a.1
    ∙ rw (append_assoc cur (c ∷ []) (d ∷ s))

pub letters-IsVisible : (s : Text) → All IsLetter s → All IsVisible s
letters-IsVisible [] a = tt
letters-IsVisible (c ∷ s) a = (omega arith, letters-IsVisible s a.1)

blank-letters : (s : Text) → All IsLetter s → blank b'<' s ≡ s
unfolding blank
blank-letters [] a = refl
blank-letters (c ∷ s) a = ground (arith, blank-letters s a.1)

pub name-letters : (s : Text) → All IsLetter s → trim (blank b'<' s) ≡ s
name-letters s a = rw (blank-letters s a) (trim-visible s (letters-IsVisible s a))

-- Both names come out of the names' part of the line.
pub names-split :
    (surname given : Text) (k : ℕ)
    → All IsLetter surname
    → All IsLetter given
    → (rest : List Text) × (split_fillers []
          (surname ++ (b'<' ∷ b'<' ∷ (given ++ replicate (suc (suc k)) b'<')))
        ≡ surname ∷ given ∷ rest)
names-split surname given k a b = (
  split_fillers [] (replicate k b'<'),
  split_fillers-letters surname [] (given ++ replicate (suc (suc k)) b'<') a
      ∙ ap (◌∷◌ surname) (split_fillers-letters given [] (replicate k b'<') b),
)
