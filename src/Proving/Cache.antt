-- ===== src/Proving/Cache.antt =====
-- The command `bb` that `ensure_bb_binary` of crates/prover-core/src/proving.rs has found once.
use vocdoni_passport_prover.Prelude.{
  ◌≡◌, sym, ◌∙◌, ap, subst, true, false, Bool-cases, inl, inr, some, ok, ◌++◌, if◌then◌else◌,
}
use vocdoni_passport_prover.Prelude.Text.{Text, codes}
use vocdoni_passport_prover.Registry.{option_text_eq}
use vocdoni_passport_prover.Config.{load_compatibility_matrix, ConfigJson, CompatibilityMatrix}
use vocdoni_passport_prover.Config.Laws.{load_json-world}
use vocdoni_passport_prover.Io.{World, Os, exists_in, canonical_root, workspace_root, return}
use vocdoni_passport_prover.Io.Laws.{Option-cases, >>=-eq-ok_io}
use vocdoni_passport_prover.Proving.Binary.{
  matrix, bb_release_cache_dir, compatibility_matrix_path, ensure_downloaded_bb_binary,
  own_bb_binary, ensure_bb_binary,
}
use vocdoni_passport_prover.Proving.Fetching.{fetch, found_or_fetched}

module _ (os : Os) where
  workspace_root-ok : (w : World) → (root : Text) × (workspace_root os w ≡ (w, ok root))
  unfolding workspace_root
  workspace_root-ok w = elim (Option-cases (os.var (codes "VOCDONI_WORKSPACE_ROOT"))) [
    | inl n ↦ (canonical_root os w.files, rw (workspace_root, n))
    | inr (root, s) ↦
        (if exists_in root w.files then root else canonical_root os w.files, rw (workspace_root, s))
  ]

module _ (os : Os) (config : ConfigJson) (platform : Text × Text) where
  abbrev binary_of : CompatibilityMatrix → Text → Text
  binary_of m cache = os.fs.join (os.fs.join cache (codes "v" ++ m.proving.bb_version)) (codes "bb")

  bb_release_cache_dir-ok :
      (w : World) → (cache : Text) × (bb_release_cache_dir os config platform w ≡ (w, ok cache))
  unfolding bb_release_cache_dir
  bb_release_cache_dir-ok w =
      let (root, e) = workspace_root-ok os w in
      (os.fs.join root (codes "../.cache/barretenberg-release"), rw (bb_release_cache_dir, e))

  matrix-world :
      (w : World) {w' : World} {m : CompatibilityMatrix}
      → matrix os config platform w ≡ (w', ok m)
      → w' ≡ w
  unfolding matrix compatibility_matrix_path load_compatibility_matrix
  matrix-world w h =
      let (root, e) = workspace_root-ok os w in
      load_json-world config.read_matrix _ _ _ w (rw (matrix, compatibility_matrix_path, e) at h)

  -- A cached download.
  ensure_downloaded_bb_binary-cached :
      (w : World) (m : CompatibilityMatrix) (cache : Text)
      → matrix os config platform w ≡ (w, ok m)
      → bb_release_cache_dir os config platform w ≡ (w, ok cache)
      → exists_in (binary_of m cache) w.files ≡ true
      → ensure_downloaded_bb_binary os config platform w ≡ (w, ok (binary_of m cache))
  unfolding ensure_downloaded_bb_binary
  ensure_downloaded_bb_binary-cached w m cache a b c = rw (ensure_downloaded_bb_binary, a, b, c)

  ensure_downloaded_bb_binary-left :
      (w : World) {w' : World} {bb : Text}
      → ensure_downloaded_bb_binary os config platform w ≡ (w', ok bb)
      → ((dir : Text) → os.temporary_path w.temporary ≡ some dir → os.removes dir bb ≡ false)
      → (m : CompatibilityMatrix) × (cache : Text) × (matrix os config platform w ≡ (w, ok m))
        × (bb_release_cache_dir os config platform w ≡ (w, ok cache))
        × (binary_of m cache ≡ bb)
        × (exists_in bb w'.files ≡ true)
  unfolding ensure_downloaded_bb_binary
  ensure_downloaded_bb_binary-left w {w' = w'} {bb = bb} h away =
      let (w1, m, h1, k1) = >>=-eq-ok_io (matrix os config platform) _ w h in
      let still : w1 ≡ w = matrix-world w h1 in
      let (w2, cache, h2, k2) = >>=-eq-ok_io (bb_release_cache_dir os config platform) _ w1 k1 in
      let (cache', hc) = bb_release_cache_dir-ok w in
      let read : bb_release_cache_dir os config platform w ≡ (w2, ok cache) =
        subst (λ x. bb_release_cache_dir os config platform x ≡ (w2, ok cache)) still h2 in
      let stays : w2 ≡ w = ap (λ x. x.0) (sym read ∙ hc) in
      let (same, there) =
        found_or_fetched os config platform (os.fs.join cache (codes "v" ++ m.proving.bb_version))
          (binary_of m cache) w
          (subst
            (λ x.
              (if exists_in (binary_of m cache) x.files
                  then return (binary_of m cache)
                  else fetch os config platform
                      (os.fs.join cache (codes "v" ++ m.proving.bb_version)) (binary_of m cache))
                x
              ≡ (w', ok bb))
            stays k2)
          away in
      (
        m,
        cache,
        subst (λ x. matrix os config platform w ≡ (x, ok m)) still h1,
        subst (λ x. bb_release_cache_dir os config platform w ≡ (x, ok cache)) stays read,
        same,
        there,
      )

  -- `BB_BINARY_PATH` names a file that is there.
  own_bb_binary-eq-ok :
      (path : Text) (w : World) {w' : World} {bb : Text}
      → own_bb_binary os config platform path w ≡ (w', ok bb)
      → (exists_in path w.files ≡ true) × (path ≡ bb) × (w ≡ w')
  unfolding own_bb_binary
  own_bb_binary-eq-ok path w h = elim (Bool-cases (exists_in path w.files)) [
    | inl y ↦ let k = rw (own_bb_binary, y) at h in (y, cc (ap (λ x. x.1) k), ap (λ x. x.0) k)
    | inr n ↦ cc (rw (own_bb_binary, n) at h)
  ]

  matrix-again :
      (w later : World) (m : CompatibilityMatrix)
      → matrix os config platform w ≡ (w, ok m)
      → (matrix os config platform later).1 ≡ (matrix os config platform w).1
      → matrix os config platform later ≡ (later, ok m)
  matrix-again w later m h same =
      let read : matrix os config platform later ≡ ((matrix os config platform later).0, ok m) =
        ap (λ x. ((matrix os config platform later).0, x)) (same ∙ ap (λ x. x.1) h) in
      read ∙ ap (λ x. (x, ok m)) (matrix-world later read)

  cache-again :
      (w later : World) (cache : Text)
      → bb_release_cache_dir os config platform w ≡ (w, ok cache)
      → (bb_release_cache_dir os config platform later).1
        ≡ (bb_release_cache_dir os config platform w).1
      → bb_release_cache_dir os config platform later ≡ (later, ok cache)
  cache-again w later cache h same =
      let (other, e) = bb_release_cache_dir-ok later in
      e ∙ ap (λ x. (later, x)) (sym (ap (λ x. x.1) e) ∙ same ∙ ap (λ x. x.1) h)

-- Without builds from source, a `bb` that was found is there, and it is found again, by a call that
-- does nothing else: no command is started and no file is changed. It was the path that the
-- environment states, a download from before or a download of the first call, made in a temporary
-- directory that does not hold the cache. Between the calls no file has changed, and the
-- compatibility matrix and the place of the cache are for the second call what they were for the
-- first.
pub ensure_bb_binary-again :
    (os : Os) (config : ConfigJson) (platform : Text × Text) (w w' later : World) (bb : Text)
    → option_text_eq (os.var (codes "VOCDONI_ALLOW_BB_SOURCE_BUILD")) (some (codes "1")) ≡ false
    → ensure_bb_binary os config platform w ≡ (w', ok bb)
    → ((dir : Text) → os.temporary_path w.temporary ≡ some dir → os.removes dir bb ≡ false)
    → later.files ≡ w'.files
    → (matrix os config platform later).1 ≡ (matrix os config platform w).1
    → (bb_release_cache_dir os config platform later).1
      ≡ (bb_release_cache_dir os config platform w).1
    → (exists_in bb w'.files ≡ true) × (ensure_bb_binary os config platform later ≡ (later, ok bb))
unfolding ensure_bb_binary own_bb_binary
ensure_bb_binary-again os config platform w w' later bb download h away files at_matrix at_cache =
    elim (Option-cases (os.var (codes "BB_BINARY_PATH"))) [
      | inl n ↦
          let (m, cache, hm, hc, same, there) =
            ensure_downloaded_bb_binary-left os config platform w
              (rw (ensure_bb_binary, n, download) at h) away in
          let again : exists_in (binary_of os config platform m cache) later.files ≡ true =
            rw (same, files) there in
          let found =
            ensure_downloaded_bb_binary-cached os config platform later m cache
              (matrix-again os config platform w later m hm at_matrix)
              (cache-again os config platform w later cache hc at_cache) again in
          (there, rw (ensure_bb_binary, n, download) (found ∙ ap (λ x. (later, ok x)) same))
      | inr (path, s) ↦
          let (y, same, stays) =
            own_bb_binary-eq-ok os config platform path w (rw (ensure_bb_binary, s) at h) in
          let there : exists_in bb w'.files ≡ true =
            subst (λ (x : World). exists_in bb x.files ≡ true) stays
              (subst (λ x. exists_in x w.files ≡ true) same y) in
          let again : exists_in path later.files ≡ true = rw (same, files) there in
          (there, rw (ensure_bb_binary, s, own_bb_binary, again, same))
    ]
