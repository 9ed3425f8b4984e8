-- ===== src/Witness/Example.antt =====
-- A Noir whose serialization shows the format.
use vocdoni_passport_prover.Prelude.{Option, none, some, [], ◌∷◌, ◌++◌}
use vocdoni_passport_prover.Prelude.Text.{Text, codes}
use vocdoni_passport_prover.Der.{Bytes}
use vocdoni_passport_prover.Witness.{Noir, good, bad}

abbrev shown : Option Text → Bytes → Bytes
shown none bytes = 0 ∷ bytes
shown (some format) bytes = format ++ bytes

abbrev pub noir : Noir
noir = record {
  Abi = Unit {0};
  InputMap = Text;
  WitnessMap = Text;
  Program = Bytes;
  WitnessStack = Bytes;
  decode_base64 = λ t. elim t [ [] ↦ bad (codes "empty") | c ∷ cs ↦ good (c ∷ cs) ];
  to_string = λ v. good (codes "null");
  parse_abi = λ v. good tt;
  parse_inputs = λ t abi. good t;
  encode = λ abi inputs. good inputs;
  deserialize_program = λ b. good b;
  execute_program = λ p w. good (p ++ w);
  serialize = λ format w. good (shown format w);
  serialize_program = λ format p. shown format p;
  gunzip = λ b. good b;
}
