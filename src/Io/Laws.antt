-- ===== src/Io/Laws.antt =====
-- Steps that went well: what they returned and what they left.
use vocdoni_passport_prover.Prelude.{
  subst, suc, ◌≡◌, refl, sym, ◌∙◌, ap, ◌⊎◌, inl, inr, Option, none, some, Error, Outcome, ok, err,
  panic, unfinished, Bool-cases, true,
}
use vocdoni_passport_prover.Prelude.Text.{Text, match_text, text_eq_refl}
use vocdoni_passport_prover.Der.{Bytes}
use vocdoni_passport_prover.Io.{
  Files, add_dir, after_command, return, ◌>>◌, lift, Command, Output, World, Os, Action, continue,
  ◌>>=◌, replace, within_io, read, put, write, create_dir_all, output, temporary, with_temp_dir,
  remove_dir, dropping,
}

pub Option-cases {ℓ} : {A : Type ℓ} (o : Option A) → (o ≡ none) ⊎ ((a : A) × (o ≡ some a))
Option-cases none = inl refl
Option-cases (some a) = inr (a, refl)

continue-eq-ok :
    {A B : Type 0} (m : World × Outcome A) (next : A → Action B) {w' : World} {b : B}
    → continue m next ≡ (w', ok b)
    → (w1 : World) × (a : A) × (m ≡ (w1, ok a)) × (next a w1 ≡ (w', ok b))
continue-eq-ok (w, ok a) next h = (w, a, refl, h)
continue-eq-ok (w, err e) next h = cc
continue-eq-ok (w, panic) next h = cc
continue-eq-ok (w, unfinished) next h = cc

pub >>=-eq-ok_io :
    {A B : Type 0} (m : Action A) (next : A → Action B) (w : World) {w' : World} {b : B}
    → (m >>= next) w ≡ (w', ok b)
    → (w1 : World) × (a : A) × (m w ≡ (w1, ok a)) × (next a w1 ≡ (w', ok b))
>>=-eq-ok_io m next w h = continue-eq-ok (m w) next h

replace-eq-ok :
    {A : Type 0} (e : Error) (m : World × Outcome A) {w' : World} {a : A}
    → replace e m ≡ (w', ok a)
    → m ≡ (w', ok a)
replace-eq-ok e (w, ok a) h = h
replace-eq-ok e (w, err _) h = cc
replace-eq-ok e (w, panic) h = cc
replace-eq-ok e (w, unfinished) h = cc

pub within_io-eq-ok :
    {A : Type 0} (e : Error) (m : Action A) (w : World) {w' : World} {a : A}
    → within_io e m w ≡ (w', ok a)
    → m w ≡ (w', ok a)
within_io-eq-ok e m w h = replace-eq-ok e (m w) h

pub read-next :
    {B : Type 0} (path : Text) (e : Error) (next : Bytes → Action B) (w : World) {w' : World}
    {b : B}
    → (read path e >>= next) w ≡ (w', ok b)
    → (bytes : Bytes) × (match_text path w.files.disk ≡ some bytes) × (next bytes w ≡ (w', ok b))
unfolding read
read-next path e next w h = elim (Option-cases (match_text path w.files.disk)) [
  | inl n ↦ cc (rw (read, n) at h)
  | inr (bytes, s) ↦ (bytes, s, rw (read, s) at h)
]

pub read-some :
    (path : Text) (e : Error) (w : World) {bytes : Bytes}
    → match_text path w.files.disk ≡ some bytes
    → read path e w ≡ (w, ok bytes)
unfolding read
read-some path e w h = rw (read, h)

pub lift-next :
    {A B : Type 0} (o : Outcome A) (next : A → Action B) (w : World) {w' : World} {b : B}
    → (lift o >>= next) w ≡ (w', ok b)
    → (a : A) × (o ≡ ok a) × (next a w ≡ (w', ok b))
lift-next (ok a) next w h = (a, refl, h)
lift-next (err e) next w h = cc
lift-next panic next w h = cc
lift-next unfinished next w h = cc

module _ (os : Os) where
  -- A file that was written can be read.
  pub write-match_text :
      (path : Text) (bytes : Bytes) (e : Error) (w : World) {w' : World} {u : Unit {0}}
      → write os path bytes e w ≡ (w', ok u)
      → match_text path w'.files.disk ≡ some bytes
  unfolding write put match_text
  write-match_text path bytes e w h = elim (Bool-cases (os.fs.can_write path)) [
    | inl c ↦
        subst (λ (x : World). match_text path x.files.disk ≡ some bytes)
          (ap (λ x. x.0) (rw (write, c) at h)) (rw (text_eq_refl path))
    | inr c ↦ cc (rw (write, c) at h)
  ]

  -- A file is written, and what follows goes well.
  pub write-next :
      {A B : Type 0} (path : Text) (bytes : Bytes) (e : Error) (a : A) (next : A → Action B)
      (w : World) {w' : World} {b : B}
      → ((write os path bytes e >> return a) >>= next) w ≡ (w', ok b)
      → (os.fs.can_write path ≡ true) × (next a (put path bytes w) ≡ (w', ok b))
  unfolding write
  write-next path bytes e a next w h = elim (Bool-cases (os.fs.can_write path)) [
    | inl c ↦ (c, rw (write, c) at h)
    | inr c ↦ cc (rw (write, c) at h)
  ]

  pub step-next :
      {B : Type 0} (path : Text) (bytes : Bytes) (e : Error) (next : Action B) (w : World)
      {w' : World} {b : B}
      → (write os path bytes e >> next) w ≡ (w', ok b)
      → (os.fs.can_write path ≡ true) × (next (put path bytes w) ≡ (w', ok b))
  unfolding write
  step-next path bytes e next w h = elim (Bool-cases (os.fs.can_write path)) [
    | inl c ↦ (c, rw (write, c) at h)
    | inr c ↦ cc (rw (write, c) at h)
  ]

  pub create_dir_all-next :
      {B : Type 0} (path : Text) (e : Error) (next : Unit {0} → Action B) (w : World) {w' : World}
      {b : B}
      → (create_dir_all os path e >>= next) w ≡ (w', ok b)
      → (os.fs.can_create path ≡ true) × (next tt (add_dir path w) ≡ (w', ok b))
  unfolding create_dir_all
  create_dir_all-next path e next w h = elim (Bool-cases (os.fs.can_create path)) [
    | inl c ↦ (c, rw (create_dir_all, c) at h)
    | inr c ↦ cc (rw (create_dir_all, c) at h)
  ]

  pub output-eq-ok :
      (command : Command) (e : Error) (w : World) {w' : World} {out : Output}
      → output os command e w ≡ (w', ok out)
      → (files : Files) × (os.execute command w.files ≡ some (out, files))
        × (w' ≡ after_command command files w)
  unfolding output
  output-eq-ok command e w h = elim (Option-cases (os.execute command w.files)) [
    | inl n ↦ cc (rw (output, n) at h)
    | inr ((o, f), s) ↦ let k = rw (output, s) at h in (f, s ∙ cc k, cc k)
  ]

  dropping-eq-ok :
      {A : Type 0} (dir : Text) (m : World × Outcome A) {w' : World} {a : A}
      → dropping os dir m ≡ (w', ok a)
      → (inner : World) × (m ≡ (inner, ok a)) × (w' ≡ remove_dir os dir inner)
  dropping-eq-ok dir (w, o) h = (w, ap (λ x. (w, x)) (ap (λ x. x.1) h), sym (ap (λ x. x.0) h))

  pub with_temp_dir-eq-ok :
      {A : Type 0} (e : Error) (body : Text → Action A) (w : World) {w' : World} {a : A}
      → with_temp_dir os e body w ≡ (w', ok a)
      → (dir : Text) × (inner : World) × (os.temporary_path w.temporary ≡ some dir)
        × (body dir (record w { temporary = suc w.temporary }) ≡ (inner, ok a))
        × (w' ≡ remove_dir os dir inner)
  unfolding with_temp_dir temporary
  with_temp_dir-eq-ok e body w h = elim (Option-cases (os.temporary_path w.temporary)) [
    | inl n ↦ cc (rw (with_temp_dir, temporary, n) at h)
    | inr (dir, s) ↦
        let k = rw (with_temp_dir, temporary, s) at h in
        let (inner, h1, h2) =
          dropping-eq-ok dir (body dir (record w { temporary = suc w.temporary })) k in
        (dir, inner, s, h1, h2)
  ]
