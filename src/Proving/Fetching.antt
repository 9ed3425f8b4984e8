-- ===== src/Proving/Fetching.antt =====
-- A download of `bb` by crates/prover-core/src/proving.rs: what it leaves in the cache.
use vocdoni_passport_prover.Prelude.{
  ◌≡◌, sym, ◌∙◌, ap, subst, true, false, Bool-cases, inl, inr, some, ok, if◌then◌else◌, [], ◌∷◌,
  message, detail, Error,
}
use vocdoni_passport_prover.Prelude.Text.{Text, codes, match_text}
use vocdoni_passport_prover.Config.{ConfigJson}
use vocdoni_passport_prover.Io.{
  World, Os, Files, write, exists_in, read, remove_dir, with_temp_dir, add_dir, create_dir_all,
  ◌>>◌, return, bail, Action,
}
use vocdoni_passport_prover.Io.Laws.{
  >>=-eq-ok_io, create_dir_all-next, with_temp_dir-eq-ok, write-match_text,
}
use vocdoni_passport_prover.Proving.Binary.{bb_release_url, download_in, install}
use vocdoni_passport_prover.Proving.Laws.{run_command-next}
use vocdoni_passport_prover.Proving.Leftovers.{match_text-outside_kept}

exists_in-match_text :
    (path : Text) (files : Files) {bytes : Text}
    → match_text path files.disk ≡ some bytes
    → exists_in path files ≡ true
unfolding exists_in
exists_in-match_text path files h = rw (exists_in, h)

module _ (os : Os) (config : ConfigJson) (platform : Text × Text) where
  install-left :
      (extracted binary : Text) (w : World) {w' : World} {u : Unit {0}}
      → install os config platform extracted binary w ≡ (w', ok u)
      → (bytes : Text) × (match_text binary w'.files.disk ≡ some bytes)
  unfolding install
  install-left extracted binary w {w' = w'} h =
      let (w1, bytes, h1, k1) = >>=-eq-ok_io (read extracted _) _ w h in
      let (w2, v, h2, k2) = >>=-eq-ok_io (write os binary bytes _) _ w1 k1 in
      elim (Bool-cases (os.can_chmod binary)) [
        | inl y ↦
            let same : w2 ≡ w' = ap (λ x. x.0) (rw (y) at k2) in
            (
              bytes,
              subst (λ (x : World). match_text binary x.files.disk ≡ some bytes) same
                  (write-match_text os binary bytes _ w1 h2),
            )
        | inr n ↦ cc (rw (n) at k2)
      ]

  -- The end of a download.
  extracted-left :
      (extracted binary : Text) (e : Error) (w : World) {w' : World} {bb : Text}
      → (if exists_in extracted w.files
            then install os config platform extracted binary >> return binary
            else bail e)
          w
        ≡ (w', ok bb)
      → (binary ≡ bb) × ((bytes : Text) × (match_text binary w'.files.disk ≡ some bytes))
  extracted-left extracted binary e w h = elim (Bool-cases (exists_in extracted w.files)) [
    | inr n ↦ cc (rw (n) at h)
    | inl y ↦
        let (w1, u, h1, k1) =
          >>=-eq-ok_io (install os config platform extracted binary) _ w (rw (y) at h) in
        (
          cc (ap (λ x. x.1) k1),
          subst (λ (x : World). (bytes : Text) × (match_text binary x.files.disk ≡ some bytes))
              (ap (λ x. x.0) k1) (install-left extracted binary w h1),
        )
  ]

  -- The file that a download returns is there in the end.
  download_in-left :
      (binary dir : Text) (w : World) {w' : World} {bb : Text}
      → download_in os config platform binary dir w ≡ (w', ok bb)
      → (binary ≡ bb) × ((bytes : Text) × (match_text binary w'.files.disk ≡ some bytes))
  unfolding download_in
  download_in-left binary dir w h =
      let (w1, url, h1, k1) = >>=-eq-ok_io (bb_release_url os config platform) _ w h in
      let (left1, ran1, k2) = run_command-next os _ _ _ w1 k1 in
      let (left2, ran2, k3) = run_command-next os _ _ _ _ k2 in
      extracted-left (os.fs.join dir (codes "bb")) binary _ _ k3

  -- With the matrix and the cache, what is left of the download.
  abbrev pub fetch : Text → Text → Action Text
  fetch cache_dir binary =
      create_dir_all os cache_dir
        (detail "failed to create bb release cache directory: {}" (cache_dir ∷ []))
      >> with_temp_dir os (message "failed to create temporary bb release directory")
          (download_in os config platform binary)

  fetch-left :
      (cache_dir binary : Text) (w : World) {w' : World} {bb : Text}
      → fetch cache_dir binary w ≡ (w', ok bb)
      → (dir : Text) × (os.temporary_path w.temporary ≡ some dir)
        × (binary ≡ bb)
        × (os.removes dir binary ≡ false → exists_in binary w'.files ≡ true)
  unfolding remove_dir add_dir
  fetch-left cache_dir binary w {w' = w'} h =
      let (c, k) =
        create_dir_all-next os cache_dir _
          (λ _.
            with_temp_dir os (message "failed to create temporary bb release directory")
              (download_in os config platform binary))
          w h in
      let (dir, inner, t, d, same) =
        with_temp_dir-eq-ok os _ (download_in os config platform binary) _ k in
      let (b, (bytes, found)) = download_in-left binary dir _ d in
      (
        dir,
        t,
        b,
        λ o.
            subst (λ (x : World). exists_in binary x.files ≡ true) (sym same)
              (exists_in-match_text binary (remove_dir os dir inner).files
                (match_text-outside_kept os dir binary inner.files.disk o ∙ found)),
      )

  pub found_or_fetched :
      (cache_dir binary : Text) (w : World) {w' : World} {bb : Text}
      → (if exists_in binary w.files then return binary else fetch cache_dir binary) w ≡ (w', ok bb)
      → ((dir : Text) → os.temporary_path w.temporary ≡ some dir → os.removes dir bb ≡ false)
      → (binary ≡ bb) × (exists_in bb w'.files ≡ true)
  found_or_fetched cache_dir binary w {w' = w'} {bb = bb} h away =
      elim (Bool-cases (exists_in binary w.files)) [
        | inl y ↦
            let k = rw (y) at h in
            let same : binary ≡ bb = cc (ap (λ x. x.1) k) in
            let stays : w ≡ w' = ap (λ x. x.0) k in
            (
              same,
              subst (λ (x : World). exists_in bb x.files ≡ true) stays
                  (subst (λ x. exists_in x w.files ≡ true) same y),
            )
        | inr n ↦
            let (dir, t, same, left) = fetch-left cache_dir binary w (rw (n) at h) in
            let kept : os.removes dir binary ≡ false = rw (same) (away dir t) in
            (same, subst (λ x. exists_in x w'.files ≡ true) same (left kept))
      ]
