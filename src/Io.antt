-- ===== src/Io.antt =====
-- What crates/prover-core/src/proving.rs, crates/prover-core/src/fixture.rs,
-- crates/prover-core/src/config.rs and crates/prover-cli/src/main.rs do outside of their own
-- data: files, directories, environment variables and commands. `std` and the commands are
-- parameters.
pub mod Laws
pub mod Example
use vocdoni_passport_prover.Prelude.{
  ℕ, suc, Bool, true, false, ◌||◌, ◌&&◌, Option, none, some, List, [], ◌∷◌, ◌++◌, Error, message,
  detail, Outcome, ok, err, panic, unfinished, if◌then◌else◌,
}
use vocdoni_passport_prover.Prelude.Text.{Text, codes, text_eq, match_text, trim, is_utf8}
use vocdoni_passport_prover.Der.{Bytes}
use vocdoni_passport_prover.Registry.{Disk, FileSystem}
use vocdoni_passport_prover.Witness.{Env}

-- The files, the last one written first, and the directories.
pub record Files : Type 0 where
  pub disk : Disk
  pub dirs : List Text

-- `Command`: the program, its arguments and its working directory.
pub record Command : Type 0 where
  pub program : Text
  pub args : List Text
  pub current_dir : Option Text

-- `Output`: `status`, and both streams, `from_utf8_lossy`.
pub record Output : Type 0 where
  pub success : Bool
  pub status : Text
  pub stdout : Text
  pub stderr : Text

-- `NOIR_SERIALIZATION_FORMAT`, the temporary names used so far, and the commands started, the last
-- one first.
pub record World : Type 0 where
  pub files : Files
  pub format : Env
  pub temporary : ℕ
  pub ran : List Command

-- `std` and the commands. `execute` has nothing if a command cannot be started. Every other
-- environment variable is constant. `removes` tells which paths go away when a temporary directory
-- or file is dropped: those in it, as far as they can be removed. `Drop` passes over the others.
pub record Os : Type 0 where
  pub fs : FileSystem
  pub var : Text → Option Text
  pub canonicalize : Text → Files → Option Text
  pub parent : Text → Option Text
  pub file_name : Text → Option Text
  pub current_exe : Option Text
  pub manifest_dir : Text
  pub temporary_path : ℕ → Option Text
  pub can_chmod : Text → Bool
  pub removes : Text → Text → Bool
  pub execute : Command → Files → Option (Output × Files)

abbrev pub Action : Type 0 → Type 0
Action A = World → World × Outcome A

abbrev pub continue : {A B : Type 0} → World × Outcome A → (A → Action B) → World × Outcome B
continue (w, ok a) next = next a w
continue (w, err e) next = (w, err e)
continue (w, panic) next = (w, panic)
continue (w, unfinished) next = (w, unfinished)

infixl 5 ◌>>=◌ ◌>>◌
abbrev pub ◌>>=◌ : {A B : Type 0} → Action A → (A → Action B) → Action B
◌>>=◌ m next w = continue (m w) next

abbrev pub ◌>>◌ : {B : Type 0} → Action (Unit {0}) → Action B → Action B
step >> next = step >>= λ _. next

abbrev pub return : {A : Type 0} → A → Action A
return a w = (w, ok a)

-- A step that does nothing to the world.
abbrev pub lift : {A : Type 0} → Outcome A → Action A
lift o w = (w, o)

abbrev pub bail : {A : Type 0} → Error → Action A
bail e w = (w, err e)

-- `with_context` on a whole step.
abbrev pub replace : {A : Type 0} → Error → World × Outcome A → World × Outcome A
replace e (w, ok a) = (w, ok a)
replace e (w, err _) = (w, err e)
replace e (w, panic) = (w, panic)
replace e (w, unfinished) = (w, unfinished)

abbrev pub within_io : {A : Type 0} → Error → Action A → Action A
within_io e m w = replace e (m w)

unfoldable pub contains : Text → List Text → Bool
contains p [] = false
contains p (d ∷ dirs) = text_eq p d || contains p dirs

unfoldable pub exists_in : Text → Files → Bool
exists_in path files = elim (match_text path files.disk) [
  | some bytes ↦ true
  | none ↦ contains path files.dirs
]

-- `Path::exists`.
abbrev pub exists : Text → Action Bool
exists path w = (w, ok (exists_in path w.files))

-- `fs::read`.
unfoldable pub read : Text → Error → Action Bytes
read path e w = elim (match_text path w.files.disk) [
  | some bytes ↦ (w, ok bytes)
  | none ↦ (w, err e)
]

unfoldable pub as_text : Error → Bytes → Outcome Text
as_text e bytes = if is_utf8 bytes then ok bytes else err e

-- `fs::read_to_string`.
unfoldable pub read_to_string : Text → Error → Action Text
read_to_string path e = do bytes ← read path e; lift (as_text e bytes)

unfoldable pub put : Text → Bytes → World → World
put path bytes w = record w {
  files = record { disk = (path, bytes) ∷ w.files.disk; dirs = w.files.dirs };
}

unfoldable pub add_dir : Text → World → World
add_dir path w = record w { files = record { disk = w.files.disk; dirs = path ∷ w.files.dirs } }

abbrev pub after_command : Command → Files → World → World
after_command command files w = record w { files = files; ran = command ∷ w.ran }

module _ (os : Os) where
  -- `fs::write`.
  unfoldable pub write : Text → Bytes → Error → Action (Unit {0})
  write path bytes e w = if os.fs.can_write path then (put path bytes w, ok tt) else (w, err e)

  unfoldable pub create_dir_all : Text → Error → Action (Unit {0})
  create_dir_all path e w = if os.fs.can_create path then (add_dir path w, ok tt) else (w, err e)

  -- `Command::output`.
  unfoldable pub output : Command → Error → Action Output
  output command e w = elim (os.execute command w.files) [
    | none ↦ (w, err e)
    | some (out, files) ↦ (after_command command files w, ok out)
  ]

  -- `TempDir::new` and `NamedTempFile::new`: a name of their own.
  unfoldable pub temporary : Error → Action Text
  temporary e w = elim (os.temporary_path w.temporary) [
    | none ↦ (w, err e)
    | some path ↦ (record w { temporary = suc w.temporary }, ok path)
  ]

  unfoldable pub outside : {A : Type 0} → Text → List (Text × A) → List (Text × A)
  outside dir [] = []
  outside dir ((path, a) ∷ rest) =
      if os.removes dir path then outside dir rest else (path, a) ∷ outside dir rest

  unfoldable pub dirs_outside : Text → List Text → List Text
  dirs_outside dir [] = []
  dirs_outside dir (path ∷ rest) =
      if os.removes dir path then dirs_outside dir rest else path ∷ dirs_outside dir rest

  -- A `TempDir` is dropped: what is in it is removed, as far as that can be done.
  unfoldable pub remove_dir : Text → World → World
  remove_dir dir w = record w {
    files = record { disk = outside dir w.files.disk; dirs = dirs_outside dir w.files.dirs };
  }

  abbrev pub dropping : {A : Type 0} → Text → World × Outcome A → World × Outcome A
  dropping dir (w, o) = (remove_dir dir w, o)

  -- The body runs with a temporary directory, and however it ends, the directory is dropped.
  unfoldable pub with_temp_dir : {A : Type 0} → Error → (Text → Action A) → Action A
  with_temp_dir e body w = continue (temporary e w) (λ dir w'. dropping dir (body dir w'))

  unfoldable pub without_file : Text → Disk → Disk
  without_file path [] = []
  without_file path ((p, bytes) ∷ rest) =
      if text_eq p path && os.removes path p
      then without_file path rest
      else (p, bytes) ∷ without_file path rest

  abbrev pub removing : {A : Type 0} → Text → World × Outcome A → World × Outcome A
  removing path (w, o) = (
    record w { files = record { disk = without_file path w.files.disk; dirs = w.files.dirs } },
    o,
  )

  -- The body runs with a temporary file, empty at first, which is removed, if it can be, when it is
  -- dropped.
  unfoldable pub with_temp_file : {A : Type 0} → Error → (Text → Action A) → Action A
  with_temp_file e body w =
      continue (temporary e w) (λ path w'. removing path (body path (put path [] w')))

  -- `workspace_root`, which proving.rs and main.rs both declare.
  unfoldable pub canonical_root : Files → Text
  canonical_root files =
      let compiled = os.fs.join os.manifest_dir (codes "../..") in
      elim (os.canonicalize compiled files) [
        | some root ↦ root
        | none ↦ elim os.current_exe [
          | none ↦ compiled
          | some exe ↦ elim (os.parent exe) [
            | none ↦ compiled
            | some parent ↦ elim (os.canonicalize (os.fs.join parent (codes "..")) files) [
              | some root ↦ root
              | none ↦ compiled
            ]
          ]
        ]
      ]

  unfoldable pub workspace_root : Action Text
  workspace_root w = elim (os.var (codes "VOCDONI_WORKSPACE_ROOT")) [
    | some root ↦ (w, ok (if exists_in root w.files then root else canonical_root w.files))
    | none ↦ (w, ok (canonical_root w.files))
  ]
