-- ===== src/Proving/Binary.antt =====
-- The command `bb` of crates/prover-core/src/proving.rs: an own path, a download that is cached,
-- or a build from source. Commands are started by `run_command`.
use vocdoni_passport_prover.Prelude.{
  Option, none, some, List, [], ◌∷◌, ◌++◌, message, detail, Outcome, ok, err, if◌then◌else◌,
}
use vocdoni_passport_prover.Prelude.Text.{Text, codes, text_eq, match_text, trim, is_empty}
use vocdoni_passport_prover.Config.{ConfigJson, CompatibilityMatrix, load_compatibility_matrix}
use vocdoni_passport_prover.Registry.{option_text_eq}
use vocdoni_passport_prover.Io.{
  Os, Command, Action, ◌>>=◌, ◌>>◌, return, lift, bail, exists, read, write, create_dir_all, output,
  with_temp_dir, workspace_root,
}

abbrev pub command : Text → List Text → Command
command program args = record { program = program; args = args; current_dir = none }

module _ (os : Os) where
  unfoldable pub run_command : Command → Text → Action (Unit {0})
  run_command cmd description = do
    out ← output os cmd (detail "failed to execute {description}" (description ∷ []))
    if out.success
        then return tt
        else bail (
            detail "{description} failed with status {}.\nstdout:\n{}\nstderr:\n{}"
              (description ∷ out.status ∷ trim out.stdout ∷ trim out.stderr ∷ []))

module _ (os : Os) (config : ConfigJson) (platform : Text × Text) where
  abbrev under_root : Text → Action Text
  under_root path = do root ← workspace_root os; return (os.fs.join root path)

  unfoldable pub bb_source_dir : Action Text
  bb_source_dir = elim (os.var (codes "VOCDONI_AZTEC_PACKAGES_CPP_DIR")) [
    | some dir ↦ return dir
    | none ↦ under_root (codes "../.cache/aztec-packages-src/aztec-packages/barretenberg/cpp")
  ]

  unfoldable pub compatibility_matrix_path : Action Text
  compatibility_matrix_path = under_root (codes "config/compatibility-matrix.json")

  unfoldable pub bb_release_cache_dir : Action Text
  bb_release_cache_dir = under_root (codes "../.cache/barretenberg-release")

  unfoldable pub bb_build_dir : Action Text
  bb_build_dir = under_root (codes "../.cache/barretenberg-zkpassport/build")

  unfoldable pub aztec_source_cache_dir : Action Text
  aztec_source_cache_dir = under_root (codes "../.cache/aztec-packages-src")

  unfoldable pub release_asset_name : Text × Text → Option Text
  release_asset_name (os_name, arch) =
      if text_eq os_name (codes "linux")
      then match_text arch (
          (codes "x86_64", codes "barretenberg-amd64-linux.tar.gz")
          ∷ (codes "aarch64", codes "barretenberg-arm64-linux.tar.gz")
          ∷ [])
      else if text_eq os_name (codes "macos")
      then match_text arch (
          (codes "x86_64", codes "barretenberg-amd64-darwin.tar.gz")
          ∷ (codes "aarch64", codes "barretenberg-arm64-darwin.tar.gz")
          ∷ [])
      else none

  -- The matrix, from its path.
  unfoldable pub matrix : Action CompatibilityMatrix
  matrix = do path ← compatibility_matrix_path; load_compatibility_matrix config path

  unfoldable pub official_url : CompatibilityMatrix → Outcome Text
  official_url m = elim m.proving.bb_binary_source [
    | some url ↦ ok url
    | none ↦ elim (release_asset_name platform) [
      | none ↦ err (message "unsupported platform for official bb release binary")
      | some asset ↦ ok (
          codes "https://github.com/AztecProtocol/aztec-packages/releases/download/v"
          ++ m.proving.bb_version
          ++ codes "/"
          ++ asset)
    ]
  ]

  unfoldable pub bb_release_url : Action Text
  bb_release_url = elim (os.var (codes "BB_BINARY_DOWNLOAD_URL")) [
    | some url ↦ if is_empty (trim url) then (do m ← matrix; lift (official_url m)) else return url
    | none ↦ do m ← matrix; lift (official_url m)
  ]

  -- `fs::copy`, `metadata` and `set_permissions`. The file stays when its mode cannot be set.
  unfoldable pub install : Text → Text → Action (Unit {0})
  install extracted binary = do
    bytes ← read extracted (detail "failed to cache bb binary at {}" (binary ∷ []))
    write os binary bytes (detail "failed to cache bb binary at {}" (binary ∷ []))
    if os.can_chmod binary
        then return tt
        else bail (detail "failed to mark bb binary executable: {}" (binary ∷ []))

  -- What happens in the temporary directory of a download.
  unfoldable pub download_in : Text → Text → Action Text
  download_in binary temp_dir = do
    url ← bb_release_url
    run_command os
        (command (codes "curl")
          (codes "-LfsS" ∷ url ∷ codes "-o" ∷ os.fs.join temp_dir (codes "bb.tar.gz") ∷ []))
        (codes "download official bb release")
    run_command os
        (command (codes "tar")
          (codes "-xzf" ∷ os.fs.join temp_dir (codes "bb.tar.gz") ∷ codes "-C" ∷ temp_dir ∷ []))
        (codes "extract official bb release")
    there ← exists (os.fs.join temp_dir (codes "bb"))
    if there
        then install (os.fs.join temp_dir (codes "bb")) binary >> return binary
        else bail (
            detail "official bb release archive did not contain expected `bb` binary: {}"
              (url ∷ []))

  unfoldable pub ensure_downloaded_bb_binary : Action Text
  ensure_downloaded_bb_binary = do
    m ← matrix
    cache ← bb_release_cache_dir
    let cache_dir = os.fs.join cache (codes "v" ++ m.proving.bb_version) in
        let binary = os.fs.join cache_dir (codes "bb") in
        exists binary >>= λ there.
        if there
        then return binary
        else (create_dir_all os cache_dir
              (detail "failed to create bb release cache directory: {}" (cache_dir ∷ []))
            >> with_temp_dir os (message "failed to create temporary bb release directory")
                (download_in binary))

  -- The checkout of the sources, unless it is there.
  unfoldable pub clone_sources : Text → Action (Unit {0})
  clone_sources source_checkout = do
    m ← matrix
    cache ← aztec_source_cache_dir
    create_dir_all os cache
        (detail "failed to create aztec source cache directory: {}" (cache ∷ []))
    run_command os
        (command (codes "git") (
          codes "clone"
          ∷ (codes "https://github.com/"
              ++ (if is_empty (trim m.proving.preferred_fork)
                  then codes "AztecProtocol/aztec-packages"
                  else m.proving.preferred_fork))
          ∷ source_checkout
          ∷ []))
        (codes "clone aztec-packages")
    run_command os
        (record {
          program = codes "git";
          args = codes "checkout" ∷ (codes "v" ++ m.proving.bb_version) ∷ [];
          current_dir = some source_checkout;
        })
        (codes "checkout aztec-packages ref")

  unfoldable pub build : Text → Text → Text → Action Text
  build source_dir build_dir binary = do
    create_dir_all os build_dir (detail "failed to create bb build directory: {}" (build_dir ∷ []))
    run_command os
        (command (codes "cmake") (
          codes "-S"
          ∷ source_dir
          ∷ codes "-B"
          ∷ build_dir
          ∷ codes "-G"
          ∷ codes "Ninja"
          ∷ codes "-DCMAKE_BUILD_TYPE=Release"
          ∷ codes "-DCMAKE_C_COMPILER=clang"
          ∷ codes "-DCMAKE_CXX_COMPILER=clang++"
          ∷ codes
              "-DCMAKE_CXX_FLAGS=-Wno-error=sign-conversion -Wno-error=missing-field-initializers"
          ∷ codes "-DTRACY_ENABLE=OFF"
          ∷ []))
        (codes "bb cmake configure")
    run_command os
        (command (codes "cmake") (codes "--build" ∷ build_dir ∷ codes "--target" ∷ codes "bb" ∷ []))
        (codes "bb cmake build")
    return binary

  unfoldable pub build_from_source : Action Text
  build_from_source = do
    cache ← aztec_source_cache_dir
    checked_out ← exists (os.fs.join cache (codes "aztec-packages"))
    if checked_out then return tt else clone_sources (os.fs.join cache (codes "aztec-packages"))
    source_dir ← bb_source_dir
    build_dir ← bb_build_dir
    there ← exists (os.fs.join build_dir (codes "bin/bb"))
    if there
        then return (os.fs.join build_dir (codes "bin/bb"))
        else build source_dir build_dir (os.fs.join build_dir (codes "bin/bb"))

  unfoldable pub own_bb_binary : Text → Action Text
  own_bb_binary path = do
    there ← exists path
    if there then return path else bail (detail "BB_BINARY_PATH does not exist: {}" (path ∷ []))

  unfoldable pub ensure_bb_binary : Action Text
  ensure_bb_binary = elim (os.var (codes "BB_BINARY_PATH")) [
    | some path ↦ own_bb_binary path
    | none ↦
        if option_text_eq (os.var (codes "VOCDONI_ALLOW_BB_SOURCE_BUILD")) (some (codes "1"))
        then build_from_source
        else ensure_downloaded_bb_binary
  ]
