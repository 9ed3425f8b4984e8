-- ===== src/Io/Example.antt =====
-- A machine on which every command ends with success and leaves a proof in the temporary directory.
use vocdoni_passport_prover.Prelude.{
  true, none, some, [], ◌∷◌, ◌++◌, length, take, replicate, if◌then◌else◌,
}
use vocdoni_passport_prover.Prelude.Text.{codes, text_eq}
use vocdoni_passport_prover.Der.{Bytes}
use vocdoni_passport_prover.Io.{Files, Os, Output, World}

abbrev pub inputs : Bytes
inputs = replicate 32 1 ++ replicate 32 2

abbrev output : Output
output = record { success = true; status = []; stdout = []; stderr = [] }

abbrev with_proof : Files → Files
with_proof files = record {
  disk = (codes "t/proof/proof", 9 ∷ 8 ∷ []) ∷ (codes "t/proof/public_inputs", inputs) ∷ files.disk;
  dirs = files.dirs;
}

abbrev pub os : Os
os = record {
  fs = record {
    join = λ dir name. dir ++ b'/' ∷ name;
    can_create = λ p. true;
    can_write = λ p. true;
  };
  var = λ name. if text_eq name (codes "BB_BINARY_PATH") then some (codes "bb") else none;
  canonicalize = λ path files. none;
  parent = λ path. none;
  file_name = λ path. none;
  current_exe = none;
  manifest_dir = codes "/";
  temporary_path = λ n. some (codes "t");
  can_chmod = λ path. true;
  removes = λ dir path. text_eq dir (take (length dir) path);
  execute = λ command files. some (output, with_proof files);
}

abbrev pub world : World
world = record {
  files = record {
    disk = (codes "bb", []) ∷ (codes "r/circuits/outer.json", codes "{}") ∷ [];
    dirs = [];
  };
  format = none;
  temporary = 0;
  ran = [];
}
