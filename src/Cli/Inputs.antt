-- ===== src/Cli/Inputs.antt =====
-- The fixture that a command loads, from a file or from a directory.
use vocdoni_passport_prover.Prelude.{
  ◌≡◌, sym, ◌∙◌, ap, subst, inl, inr, Option, none, some, ok, Error, Outcome-cases, Bool-cases,
  message,
}
use vocdoni_passport_prover.Prelude.Text.{Text}
use vocdoni_passport_prover.Types.{
  FixtureBundle, IsValid, OuterProofResult, validate, validate-eq-ok,
}
use vocdoni_passport_prover.Pipeline.{validate_fixture}
use vocdoni_passport_prover.Config.{
  ConfigJson, load_json, load_fixture_bundle, load_fixture_dir, load_expected_outer, part,
  bundle_of,
}
use vocdoni_passport_prover.Io.{World, ◌>>◌, lift, return, within_io, exists_in}
use vocdoni_passport_prover.Io.Laws.{>>=-eq-ok_io}
use vocdoni_passport_prover.Config.Laws.{load_json-world}
use vocdoni_passport_prover.Cli.{Setting, of_step, load_input}
use vocdoni_passport_prover.Cli.Commands.{validate_fixture_command}

-- The last steps of both loaders.
validated :
    (e : Error) (b : FixtureBundle) (w : World) {w' : World} {c : FixtureBundle}
    → (within_io e (lift (validate b)) >> return b) w ≡ (w', ok c)
    → (validate c ≡ ok tt) × (w' ≡ w)
validated e b w {c = c} h = elim (Outcome-cases (validate b)) [
  | inl (u, v) ↦
      let k = rw (v) at h in
      let same : b ≡ c = cc (ap (λ x. x.1) k) in
      (subst (λ x. validate x ≡ ok tt) same v, sym (ap (λ x. x.0) k))
  | inr (inl (x, v)) ↦ cc (rw (v) at h)
  | inr (inr (inl v)) ↦ cc (rw (v) at h)
  | inr (inr (inr v)) ↦ cc (rw (v) at h)
]

module _ (json : ConfigJson) where
  load_fixture_bundle-validate :
      (path : Text) (w : World) {w' : World} {b : FixtureBundle}
      → load_fixture_bundle json path w ≡ (w', ok b)
      → (validate b ≡ ok tt) × (w' ≡ w)
  unfolding load_fixture_bundle
  load_fixture_bundle-validate path w h =
      let (w1, b1, h1, k1) = >>=-eq-ok_io (load_json json.read_bundle _ _ path) _ w h in
      let (v, e) = validated (message "fixture bundle validation failed") b1 w1 k1 in
      (v, e ∙ load_json-world json.read_bundle _ _ path w h1)

  load_expected_outer-world :
      (path : Text) (w : World) {w' : World} {r : Option OuterProofResult}
      → load_expected_outer json path w ≡ (w', ok r)
      → w' ≡ w
  unfolding load_expected_outer
  load_expected_outer-world path w h = elim (Bool-cases (exists_in path w.files)) [
    | inr n ↦ sym (ap (λ x. x.0) (rw (load_expected_outer, n) at h))
    | inl y ↦
        let (w1, r, h1, k1) =
          >>=-eq-ok_io (part json json.read_outer path) _ w (rw (load_expected_outer, y) at h) in
        sym (ap (λ x. x.0) k1) ∙ load_json-world json.read_outer _ _ path w h1
  ]

  load_fixture_dir-validate :
      (join : Text → Text → Text) (dir : Text) (w : World) {w' : World} {b : FixtureBundle}
      → load_fixture_dir json join dir w ≡ (w', ok b)
      → (validate b ≡ ok tt) × (w' ≡ w)
  unfolding load_fixture_dir
  load_fixture_dir-validate join dir w h =
      let (w1, document, h1, k1) = >>=-eq-ok_io (part json json.read_document _) _ w h in
      let (w2, request, h2, k2) = >>=-eq-ok_io (part json json.read_request _) _ w1 k1 in
      let (w3, outer, h3, k3) = >>=-eq-ok_io (load_expected_outer json _) _ w2 k2 in
      let (v, e) =
        validated (message "fixture directory validation failed") (bundle_of document request outer)
          w3 k3 in
      (
        v,
        e
            ∙ load_expected_outer-world _ w2 h3
            ∙ load_json-world json.read_request _ _ _ w1 h2
            ∙ load_json-world json.read_document _ _ _ w h1,
      )

load_input-validate :
    (s : Setting) (file dir : Option Text) (w : World) {w' : World} {b : FixtureBundle}
    → load_input s file dir w ≡ (w', ok b)
    → (validate b ≡ ok tt) × (w' ≡ w)
unfolding load_input
load_input-validate s (some file) none w h = load_fixture_bundle-validate s.config_json file w h
load_input-validate s none (some dir) w h =
    load_fixture_dir-validate s.config_json s.os.fs.join dir w h
load_input-validate s none none w h = cc
load_input-validate s (some file) (some dir) w h = cc

-- Whatever options it is given: if a command loads a fixture, it is valid, no file or directory
-- is changed by that, and `ValidateFixture` with the same options prints that fixture: its second
-- validation never fails.
pub load_input-IsValid :
    (s : Setting) (file dir : Option Text) (w w' : World) (b : FixtureBundle)
    → load_input s file dir w ≡ (w', ok b)
    → IsValid b × (w' ≡ w) × (validate_fixture_command s file dir w ≡ (w, ok b))
unfolding validate_fixture_command validate_fixture of_step
load_input-IsValid s file dir w w' b h =
    let (v, e) = load_input-validate s file dir w h in
    ((validate-eq-ok b).0 v, e, rw (h, validate_fixture, v) (ap (λ x. (x, ok b)) e))
