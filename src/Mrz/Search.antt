-- ===== src/Mrz/Search.antt =====
-- `extract_mrz_from_dg1` finds the text behind the tag 5F1F.
use vocdoni_passport_prover.Prelude.{
  ℕ, suc, ◌+◌, ◌-◌, true, none, some, List, [], ◌∷◌, ◌++◌, get_elem?, get_elem?-append, length,
  length-append, All, ok, ◌≡◌, ◌≢◌, refl, arith, append_assoc, append-nil, le→leb,
}
use vocdoni_passport_prover.Prelude.Text.{Text, bytes_slice_middle, is_utf8}
use vocdoni_passport_prover.Mrz.{from_utf8, mrz_at, find_mrz, extract_mrz_from_dg1}

-- The bytes at a place, the one behind it and the next.
get_elem?-second :
    (pre : List ℕ) (a b : ℕ) (rest : List ℕ)
    → get_elem? (pre ++ (a ∷ b ∷ rest)) (length pre + 1) ≡ some b
get_elem?-second pre a b rest =
    let same : (pre ++ a ∷ []) ++ (b ∷ rest) ≡ pre ++ (a ∷ b ∷ rest) =
      append_assoc pre (a ∷ []) (b ∷ rest) in
    let size : length (pre ++ a ∷ []) ≡ length pre + 1 = length-append pre (a ∷ []) in
    rw (same, size) at (get_elem?-append (pre ++ a ∷ []) b rest)

get_elem?-third :
    (pre : List ℕ) (a b c : ℕ) (rest : List ℕ)
    → get_elem? (pre ++ (a ∷ b ∷ c ∷ rest)) (length pre + 2) ≡ some c
get_elem?-third pre a b c rest =
    let same : (pre ++ (a ∷ b ∷ [])) ++ (c ∷ rest) ≡ pre ++ (a ∷ b ∷ c ∷ rest) =
      append_assoc pre (a ∷ b ∷ []) (c ∷ rest) in
    let size : length (pre ++ (a ∷ b ∷ [])) ≡ length pre + 2 = length-append pre (a ∷ b ∷ []) in
    rw (same, size) at (get_elem?-append (pre ++ (a ∷ b ∷ [])) c rest)

-- A file with the tagged text behind some bytes.
abbrev pub tagged : List ℕ → Text → List ℕ → List ℕ
tagged pre mrz rest = pre ++ (0x5f ∷ 0x1f ∷ length mrz ∷ (mrz ++ rest))

length-tagged :
    (pre : List ℕ) (mrz : Text) (rest : List ℕ)
    → length (tagged pre mrz rest) ≡ length pre + (3 + (length mrz + length rest))
length-tagged pre mrz rest =
    omega
      (arith, length-append pre (0x5f ∷ 0x1f ∷ length mrz ∷ (mrz ++ rest)), length-append mrz rest)

mrz_at-tagged :
    (pre : List ℕ) (mrz : Text) (rest : List ℕ)
    → mrz_at (tagged pre mrz rest) (length pre) ≡ some (length pre + 3, length mrz)
unfolding mrz_at
mrz_at-tagged pre mrz rest =
    rw (get_elem?-append pre 0x5f (0x1f ∷ length mrz ∷ (mrz ++ rest)), mrz_at)
      (rw (get_elem?-second pre 0x5f 0x1f (length mrz ∷ (mrz ++ rest))) (
        rw (
          get_elem?-third pre 0x5f 0x1f (length mrz) (mrz ++ rest),
          length-tagged pre mrz rest,
          le→leb (length pre + 3 + length mrz) (length pre + (3 + (length mrz + length rest)))
              (omega arith),
        )))

mrz_at-other : (dg1 : List ℕ) (i a : ℕ) → get_elem? dg1 i ≡ some a → a ≢ 0x5f → mrz_at dg1 i ≡ none
unfolding mrz_at
mrz_at-other dg1 i a h n = ground arith

get_at :
    (done tail : List ℕ) (c : ℕ) (rest more : List ℕ)
    → tail ≡ c ∷ more
    → get_elem? ((done ++ tail) ++ rest) (length done) ≡ some c
get_at done tail c rest more e =
    rw (e, append_assoc done (c ∷ more) rest) (get_elem?-append done c (more ++ rest))

-- The loop passes over bytes that do not begin the tag.
find_mrz-skip :
    (pre done : List ℕ) (mrz : Text) (rest : List ℕ) (left : ℕ)
    → All (λ c. c ≢ 0x5f) pre
    → find_mrz (length pre + suc left) (tagged (done ++ pre) mrz rest) (length done)
      ≡ some (length (done ++ pre) + 3, length mrz)
unfolding find_mrz
find_mrz-skip [] done mrz rest left h =
    let one : 0 + suc left ≡ suc left = omega arith in
    rw (one, append-nil done) (rw (mrz_at-tagged done mrz rest, find_mrz))
find_mrz-skip (c ∷ pre) done mrz rest left h =
    let more : suc (length pre) + suc left ≡ suc (length pre + suc left) = omega arith in
    let same : (done ++ c ∷ []) ++ pre ≡ done ++ c ∷ pre = append_assoc done (c ∷ []) pre in
    let size : length (done ++ c ∷ []) ≡ length done + 1 = length-append done (c ∷ []) in
    let here : get_elem? (tagged (done ++ c ∷ pre) mrz rest) (length done) ≡ some c =
      get_at done (c ∷ pre) c (0x5f ∷ 0x1f ∷ length mrz ∷ (mrz ++ rest)) pre refl in
    rw more (
      rw (mrz_at-other (tagged (done ++ c ∷ pre) mrz rest) (length done) c here h.0, find_mrz)
        (rw (same, size) at (find_mrz-skip pre (done ++ c ∷ []) mrz rest left h.1)))

-- The text behind the first tag 5F1F of the data group is returned, whatever stands behind it, if
-- no byte in front of the tag is 5F and the text is UTF-8.
pub extract_mrz_from_dg1-tagged :
    (pre : List ℕ) (mrz : Text) (rest : List ℕ)
    → All (λ c. c ≢ 0x5f) pre
    → is_utf8 mrz ≡ true
    → extract_mrz_from_dg1 (tagged pre mrz rest) ≡ ok mrz
unfolding extract_mrz_from_dg1 from_utf8
extract_mrz_from_dg1-tagged pre mrz rest h u =
    let rounds : length (tagged pre mrz rest) - 2 ≡ length pre + suc (length mrz + length rest) =
      omega (arith, length-tagged pre mrz rest) in
    let same : (pre ++ (0x5f ∷ 0x1f ∷ length mrz ∷ [])) ++ (mrz ++ rest) ≡ tagged pre mrz rest =
      append_assoc pre (0x5f ∷ 0x1f ∷ length mrz ∷ []) (mrz ++ rest) in
    let size : length (pre ++ (0x5f ∷ 0x1f ∷ length mrz ∷ [])) ≡ length pre + 3 =
      length-append pre (0x5f ∷ 0x1f ∷ length mrz ∷ []) in
    let cut =
      rw (same, size) at (bytes_slice_middle (pre ++ (0x5f ∷ 0x1f ∷ length mrz ∷ [])) mrz rest) in
    rw (rounds, find_mrz-skip pre [] mrz rest (length mrz + length rest) h, extract_mrz_from_dg1)
      (rw (cut, u))
