-- ===== src/Mrz/Td3.antt =====
-- `parse_mrz` reads the two lines of a passport back.
use vocdoni_passport_prover.Prelude.{
  ℕ, zero, suc, ◌-◌, ◌≤◌, true, List, [], ◌∷◌, ◌++◌, ◌==◌, length, length-append, replicate, All,
  All-append, ok, ◌≡◌, refl, sym, arith, append_assoc, le→leb, length-replicate,
}
use vocdoni_passport_prover.Prelude.Text.{
  Text, codes, split_fillers, starts_with, slice, IsAscii, IsVisible,
}
use vocdoni_passport_prover.Mrz.{name_part, parse_td3, clean_mrz, parse_mrz}
use vocdoni_passport_prover.Mrz.Lines.{
  IsLetter, Td3, IsTd3, names_of, td3_text, fields_of, remove_none, slice_part, letters-IsVisible,
  name-letters, names-split,
}

replicate-IsVisible : (k : ℕ) → All IsVisible (replicate k b'<')
replicate-IsVisible zero = tt
replicate-IsVisible (suc k) = (omega arith, replicate-IsVisible k)

names_of-IsVisible : (t : Td3) → IsTd3 t → All IsVisible (names_of t)
unfolding names_of
names_of-IsVisible t h =
    All-append IsVisible t.surname _ (letters-IsVisible t.surname h.surname_letters) (
      omega arith,
      (
        omega arith,
        All-append IsVisible t.given _ (letters-IsVisible t.given h.given_letters)
            (replicate-IsVisible t.fillers),
      ),
    )

td3_text-IsVisible : (t : Td3) → IsTd3 t → All IsVisible (td3_text t)
unfolding td3_text
td3_text-IsVisible t h = (
  omega arith,
  (
    h.kind_visible,
    All-append IsVisible t.issuing _ h.issuing_visible (
        All-append IsVisible (names_of t) _ (names_of-IsVisible t h) (
          All-append IsVisible t.number _ h.number_visible (
            h.number_check_visible,
            All-append IsVisible t.nation _ h.nation_visible (
                All-append IsVisible t.birth _ h.birth_visible (
                  h.birth_check_visible,
                  (
                    h.sex_visible,
                    All-append IsVisible t.expiry t.rest h.expiry_visible h.rest_visible,
                  ),
                )),
          ))),
  ),
)

visible-IsAscii : (s : Text) → All IsVisible s → IsAscii s
visible-IsAscii [] a = tt
visible-IsAscii (c ∷ s) a = (omega arith, visible-IsAscii s a.1)

length-names_of : (t : Td3) → IsTd3 t → length (names_of t) ≡ 39
unfolding names_of
length-names_of t h = omega (
  arith,
  length-append t.surname (b'<' ∷ b'<' ∷ (t.given ++ replicate t.fillers b'<')),
  length-append t.given (replicate t.fillers b'<'),
  length-replicate {A = ℕ} t.fillers b'<',
  h.names_size,
)

clean_mrz-visible : (s : Text) → All IsVisible s → clean_mrz s ≡ s
unfolding clean_mrz
clean_mrz-visible s a =
    rw (remove_none IsVisible (λ c. c == b'\n') s (λ c v. ground arith) a)
      (remove_none IsVisible (λ c. c == 32) s (λ c v. ground arith) a)

-- The slices that `parse_td3` takes are the parts.
record Slices (t : Td3) (s : Text) : Type 0 where
  names : slice s 5 44 ≡ ok (names_of t)
  issuing : slice s 2 5 ≡ ok t.issuing
  number : slice s 44 53 ≡ ok t.number
  nation : slice s 54 57 ≡ ok t.nation
  birth : slice s 57 63 ≡ ok t.birth
  sex : slice s 64 65 ≡ ok (t.sex ∷ [])
  expiry : slice s 65 71 ≡ ok t.expiry

td3_text-Slices : (t : Td3) → IsTd3 t → Slices t (td3_text t)
unfolding td3_text
td3_text-Slices t h =
    let a : IsAscii (td3_text t) = visible-IsAscii (td3_text t) (td3_text-IsVisible t h) in
    let n : length (names_of t) ≡ 39 = length-names_of t h in
    let p1 : Text = b'P' ∷ t.kind ∷ [] in
    let p2 : Text = b'P' ∷ t.kind ∷ t.issuing in
    let p3 = p2 ++ names_of t in
    let p4 = p3 ++ (t.number ++ t.number_check ∷ []) in
    let p5 = p4 ++ t.nation in
    let p6 = p5 ++ (t.birth ++ t.birth_check ∷ []) in
    let p7 = p6 ++ t.sex ∷ [] in
    let i = h.issuing_size in
    let l3 : length p3 ≡ 44 = omega (arith, length-append p2 (names_of t)) in
    let l4 : length p4 ≡ 54 = omega (
      arith,
      length-append p3 (t.number ++ t.number_check ∷ []),
      length-append t.number (t.number_check ∷ []),
      h.number_size,
    ) in
    let l5 : length p5 ≡ 57 = omega (arith, length-append p4 t.nation, h.nation_size) in
    let l6 : length p6 ≡ 64 = omega (
      arith,
      length-append p5 (t.birth ++ t.birth_check ∷ []),
      length-append t.birth (t.birth_check ∷ []),
      h.birth_size,
    ) in
    let l7 : length p7 ≡ 65 = omega (arith, length-append p6 (t.sex ∷ [])) in
    record {
      names = slice_part _ p2 (names_of t) _ 5 44 a refl (omega arith) (omega arith);
      issuing = slice_part _ p1 t.issuing _ 2 5 a refl (omega arith) (omega arith);
      number =
          slice_part _ p3 t.number
            (t.number_check
              ∷ (t.nation ++ (t.birth ++ (t.birth_check ∷ t.sex ∷ (t.expiry ++ t.rest)))))
            44 53 a (simp append_assoc) (sym l3) (omega (arith, h.number_size));
      nation =
          slice_part _ p4 t.nation (t.birth ++ (t.birth_check ∷ t.sex ∷ (t.expiry ++ t.rest))) 54 57
            a (simp append_assoc) (sym l4) (omega (arith, h.nation_size));
      birth =
          slice_part _ p5 t.birth (t.birth_check ∷ t.sex ∷ (t.expiry ++ t.rest)) 57 63 a
            (simp append_assoc) (sym l5) (omega (arith, h.birth_size));
      sex =
          slice_part _ p6 (t.sex ∷ []) (t.expiry ++ t.rest) 64 65 a (simp append_assoc) (sym l6)
            (omega arith);
      expiry =
          slice_part _ p7 t.expiry t.rest 65 71 a (simp append_assoc) (sym l7)
            (omega (arith, h.expiry_size));
    }

parse_td3-Slices :
    (t : Td3) (s : Text) (rest : List Text)
    → Slices t s
    → split_fillers [] (names_of t) ≡ t.surname ∷ t.given ∷ rest
    → All IsLetter t.surname
    → All IsLetter t.given
    → parse_td3 s ≡ ok (fields_of t)
unfolding parse_td3 name_part
parse_td3-Slices t s rest c e a b = rw (
  c.names,
  c.issuing,
  c.number,
  c.nation,
  c.birth,
  c.sex,
  c.expiry,
  e,
  name-letters t.surname a,
  name-letters t.given b,
)

names_of-split :
    (t : Td3) (k : ℕ) (rest : List Text)
    → t.fillers ≡ suc (suc k)
    → split_fillers [] (t.surname ++ (b'<' ∷ b'<' ∷ (t.given ++ replicate (suc (suc k)) b'<')))
      ≡ t.surname ∷ t.given ∷ rest
    → split_fillers [] (names_of t) ≡ t.surname ∷ t.given ∷ rest
unfolding names_of
names_of-split t k rest e h = rw e h

starts_td3 : (t : Td3) → starts_with (codes "P") (td3_text t) ≡ true
unfolding td3_text starts_with
starts_td3 t = refl

td3_text_long : (t : Td3) → IsTd3 t → 88 ≤ length (td3_text t)
unfolding td3_text
td3_text_long t h =
    let tail1 = t.birth_check ∷ t.sex ∷ (t.expiry ++ t.rest) in
    let tail2 = t.number_check ∷ (t.nation ++ (t.birth ++ tail1)) in
    omega (
      arith,
      length-append t.issuing (names_of t ++ (t.number ++ tail2)),
      length-append (names_of t) (t.number ++ tail2),
      length-append t.number tail2,
      length-append t.nation (t.birth ++ tail1),
      length-append t.birth tail1,
      length-append t.expiry t.rest,
      length-names_of t h,
      h.issuing_size,
      h.number_size,
      h.nation_size,
      h.birth_size,
      h.expiry_size,
      h.rest_size,
    )

-- The two lines of a passport are read back. Where the lines are visible ASCII, laid out as ICAO
-- 9303 lays them out, with names of letters and two fillers or more behind the given name, the
-- names come out as they are and every other field with its fillers taken out.
pub parse_mrz-td3_text : (t : Td3) → IsTd3 t → parse_mrz (td3_text t) ≡ ok (fields_of t)
unfolding parse_mrz
parse_mrz-td3_text t h =
    let two : t.fillers ≡ suc (suc (t.fillers - 2)) = omega (arith, h.fillers_size) in
    let (rest, split) =
      names-split t.surname t.given (t.fillers - 2) h.surname_letters h.given_letters in
    rw
      (
        clean_mrz-visible (td3_text t) (td3_text-IsVisible t h),
        le→leb 88 (length (td3_text t)) (td3_text_long t h),
        starts_td3 t,
      )
      (parse_td3-Slices t (td3_text t) rest (td3_text-Slices t h)
        (names_of-split t (t.fillers - 2) rest two split) h.surname_letters h.given_letters)
