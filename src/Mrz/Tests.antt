-- ===== src/Mrz/Tests.antt =====
-- The lines of a sample passport, and the theorems at them.
use vocdoni_passport_prover.Prelude.{ℕ, true, List, [], ◌∷◌, ◌≡◌, refl, arith, ok}
use vocdoni_passport_prover.Prelude.Text.{codes, is_utf8}
use vocdoni_passport_prover.Mrz.{MrzFields, extract_mrz_from_dg1, parse_mrz}
use vocdoni_passport_prover.Mrz.Layout.{parse_mrz-IsAscii}
use vocdoni_passport_prover.Mrz.Lines.{Td3, IsTd3, names_of, td3_text, fields_of}
use vocdoni_passport_prover.Mrz.Td3.{parse_mrz-td3_text}
use vocdoni_passport_prover.Mrz.Search.{tagged, extract_mrz_from_dg1-tagged}

abbrev john : Td3
john = record {
  kind = b'<';
  issuing = codes "ZKR";
  surname = codes "SMITH";
  given = codes "JOHN";
  fillers = 28;
  number = codes "ZP1111111";
  number_check = b'_';
  nation = codes "ZKR";
  birth = codes "951112";
  birth_check = b'_';
  sex = b'M';
  expiry = codes "350101";
  rest = codes "_<<<<<<<<<<<<<<<<";
}

john_text :
    td3_text john
    ≡ codes
        "P<ZKRSMITH<<JOHN<<<<<<<<<<<<<<<<<<<<<<<<<<<<ZP1111111_ZKR951112_M350101_<<<<<<<<<<<<<<<<"
unfolding td3_text names_of
john_text = refl

john-IsTd3 : IsTd3 john
john-IsTd3 = omega arith

parse_mrz-td3_text_example : parse_mrz (td3_text john) ≡ ok (fields_of john)
parse_mrz-td3_text_example = parse_mrz-td3_text john john-IsTd3

parse_mrz-IsAscii_example : (f : MrzFields) × (parse_mrz (codes "I<UTO") ≡ ok f)
parse_mrz-IsAscii_example = parse_mrz-IsAscii (codes "I<UTO") (omega arith)

abbrev dg1_front : List ℕ
dg1_front = 0x61 ∷ 0x08 ∷ []

card_utf8 : is_utf8 (codes "I<UTO") ≡ true
unfolding is_utf8
card_utf8 = refl

extract_mrz_from_dg1-tagged_example :
    extract_mrz_from_dg1 (tagged dg1_front (codes "I<UTO") []) ≡ ok (codes "I<UTO")
extract_mrz_from_dg1-tagged_example =
    extract_mrz_from_dg1-tagged dg1_front (codes "I<UTO") [] (omega arith) card_utf8
