-- ===== src/Proving/Downloads.antt =====
-- A machine on which `bb` is downloaded, and the theorem of the cache at it.
use vocdoni_passport_prover.Prelude.{◌≡◌, refl, subst, true, false, none, some, [], ◌∷◌, ok}
use vocdoni_passport_prover.Prelude.Text.{Text, codes, text_eq, match_text, is_utf8}
use vocdoni_passport_prover.Config.{ConfigJson, load_json, load_compatibility_matrix}
use vocdoni_passport_prover.Io.{
  contains, exists_in, read, as_text, read_to_string, put, add_dir, write, create_dir_all, output,
  temporary, outside, dirs_outside, remove_dir, with_temp_dir, canonical_root, workspace_root,
  Files, Os, Output, World,
}
use vocdoni_passport_prover.Io.Example.{os}
use vocdoni_passport_prover.Cli.Example.{matrix}
use vocdoni_passport_prover.Registry.{option_text_eq}
use vocdoni_passport_prover.Proving.Binary.{
  compatibility_matrix_path, bb_release_cache_dir, release_asset_name, official_url, bb_release_url,
  run_command, install, download_in, ensure_downloaded_bb_binary, ensure_bb_binary,
}
use vocdoni_passport_prover.Proving.Binary
use vocdoni_passport_prover.Proving.Cache.{ensure_bb_binary-again}

abbrev output_of : Output
output_of = record { success = true; status = []; stdout = []; stderr = [] }

abbrev with_bb : Files → Files
with_bb files = record { disk = (codes "t/bb", 7 ∷ []) ∷ files.disk; dirs = files.dirs }

abbrev downloader : Os
downloader = record os {
  var = λ name. none;
  execute = λ command files. some (output_of, with_bb files);
}

abbrev config : ConfigJson
config = record {
  read_matrix = λ t. some matrix;
  read_bundle = λ t. none;
  read_document = λ t. none;
  read_request = λ t. none;
  read_outer = λ t. none;
}

abbrev platform : Text × Text
platform = (codes "linux", codes "x86_64")

abbrev before : World
before = record {
  files = record { disk = (codes "//../../config/compatibility-matrix.json", []) ∷ []; dirs = [] };
  format = none;
  temporary = 0;
  ran = [];
}

abbrev bb : Text
bb = codes "//../../../.cache/barretenberg-release/v/bb"

abbrev after : World
after = (ensure_bb_binary downloader config platform before).0

-- Two commands are started the first time.
downloaded : ensure_bb_binary downloader config platform before ≡ (after, ok bb)
unfolding load_compatibility_matrix load_json read_to_string as_text read exists_in contains put
    add_dir write create_dir_all output temporary outside dirs_outside remove_dir with_temp_dir
    canonical_root workspace_root Binary.matrix compatibility_matrix_path bb_release_cache_dir
    release_asset_name official_url bb_release_url run_command install download_in
    ensure_downloaded_bb_binary ensure_bb_binary text_eq match_text is_utf8 option_text_eq
downloaded = refl

ensure_bb_binary-again_example :
    (exists_in bb after.files ≡ true)
    × (ensure_bb_binary downloader config platform (record after { ran = [] })
        ≡ (record after { ran = [] }, ok bb))
unfolding load_compatibility_matrix load_json read_to_string as_text read exists_in contains put
    add_dir write create_dir_all output temporary outside dirs_outside remove_dir with_temp_dir
    canonical_root workspace_root Binary.matrix compatibility_matrix_path bb_release_cache_dir
    release_asset_name official_url bb_release_url run_command install download_in
    ensure_downloaded_bb_binary ensure_bb_binary text_eq match_text is_utf8 option_text_eq
ensure_bb_binary-again_example =
    ensure_bb_binary-again downloader config platform before after (record after { ran = [] }) bb
      refl downloaded
      (λ dir e.
        let same : codes "t" ≡ dir = cc in subst (λ d. downloader.removes d bb ≡ false) same refl)
      refl refl refl
