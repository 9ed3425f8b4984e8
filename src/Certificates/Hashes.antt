-- ===== src/Certificates/Hashes.antt =====
-- `normalize_hash`.
use vocdoni_passport_prover.Prelude.{
  ℕ, ◌+◌, ◌-◌, ◌≤◌, zero, suc, [], ◌∷◌, ◌++◌, replicate, filter, ◌≡◌, refl, sym, ap, ◌∙◌, inl, inr,
  Bool-cases, arith, leb, ltb, ◌||◌,
}
use vocdoni_passport_prover.Prelude.Text.{
  Text, codes, to_ascii_lowercase, to_ascii_lowercase_idem, lower, strip_prefix,
}
use vocdoni_passport_prover.Certificates.{strip_0x, pad_64, char_count, normalize_hash}

char_count-append : (s t : Text) → char_count (s ++ t) ≡ char_count s + char_count t
unfolding filter
char_count-append [] t = omega arith
char_count-append (c ∷ s) t = elim (Bool-cases (ltb c 128 || leb 192 c)) [
  | inl h ↦ rw h (omega (arith, char_count-append s t))
  | inr h ↦ rw h (char_count-append s t)
]

char_count-zeros : (n : ℕ) → char_count (replicate n b'0') ≡ n
unfolding filter
char_count-zeros zero = refl
char_count-zeros (suc n) = omega (arith, char_count-zeros n)

char_count-pad_64 : (s : Text) → 64 ≤ char_count (pad_64 s)
unfolding pad_64
char_count-pad_64 s = omega (
  arith,
  char_count-append (replicate (64 - char_count s) b'0') s,
  char_count-zeros (64 - char_count s),
)

none_to_pad : (n : ℕ) → 64 ≤ n → 64 - n ≡ 0
none_to_pad n h = omega arith

pad_64_long : (s : Text) → 64 ≤ char_count s → pad_64 s ≡ s
unfolding pad_64
pad_64_long s h = rw (none_to_pad (char_count s) h)

pad_64_idem : (s : Text) → pad_64 (pad_64 s) ≡ pad_64 s
pad_64_idem s = pad_64_long (pad_64 s) (char_count-pad_64 s)

lower-zeros :
    (n : ℕ) (s : Text)
    → to_ascii_lowercase (replicate n b'0' ++ s) ≡ replicate n b'0' ++ to_ascii_lowercase s
unfolding to_ascii_lowercase lower
lower-zeros zero s = refl
lower-zeros (suc n) s = ap (◌∷◌ b'0') (lower-zeros n s)

lower-pad_64 : (s : Text) → to_ascii_lowercase s ≡ s → to_ascii_lowercase (pad_64 s) ≡ pad_64 s
unfolding pad_64
lower-pad_64 s h = rw (lower-zeros (64 - char_count s) s, h)

strip_0x-prefix : (s : Text) → strip_0x (codes "0x" ++ s) ≡ s
unfolding strip_0x strip_prefix
strip_0x-prefix s = refl

normalize_hash-prefix :
    (s : Text) → normalize_hash (codes "0x" ++ s) ≡ codes "0x" ++ pad_64 (to_ascii_lowercase s)
unfolding normalize_hash strip_0x strip_prefix
normalize_hash-prefix s = refl

pub normalize_hash_idem : (s : Text) → normalize_hash (normalize_hash s) ≡ normalize_hash s
unfolding normalize_hash
normalize_hash_idem s =
    let t = to_ascii_lowercase (strip_0x s) in
    normalize_hash-prefix (pad_64 t)
    ∙ ap (λ u. codes "0x" ++ u)
        (ap pad_64 (lower-pad_64 t (to_ascii_lowercase_idem (strip_0x s))) ∙ pad_64_idem t)

lower_char : (c : ℕ) → (ltb (lower c) 128 || leb 192 (lower c)) ≡ (ltb c 128 || leb 192 c)
unfolding lower
lower_char c = ground arith

char_count-lower : (s : Text) → char_count (to_ascii_lowercase s) ≡ char_count s
unfolding filter to_ascii_lowercase
char_count-lower [] = refl
char_count-lower (c ∷ s) = elim (Bool-cases (ltb c 128 || leb 192 c)) [
  | inl h ↦ rw (lower_char c, h, char_count-lower s)
  | inr h ↦ rw (lower_char c, h, char_count-lower s)
]

add_zero : (n : ℕ) → n + 0 ≡ n
add_zero n = omega arith

add_suc : (n m : ℕ) → n + suc m ≡ suc (n + m)
add_suc n m = omega arith

replicate-add :
    (m n : ℕ) (s : Text) → replicate m b'0' ++ (replicate n b'0' ++ s) ≡ replicate (n + m) b'0' ++ s
replicate-add zero n s = rw (add_zero n)
replicate-add (suc m) n s = rw (add_suc n m) (ap (◌∷◌ b'0') (replicate-add m n s))

normalize_hash-bare :
    (s : Text) → strip_0x s ≡ s → normalize_hash s ≡ codes "0x" ++ pad_64 (to_ascii_lowercase s)
unfolding normalize_hash
normalize_hash-bare s h = ap (λ u. codes "0x" ++ pad_64 (to_ascii_lowercase u)) h

zeros_left : (n c : ℕ) → n + c ≤ 64 → n + (64 - (n + c)) ≡ 64 - c
zeros_left n c h = omega arith

pad_64-zeros :
    (n : ℕ) (s : Text) → n + char_count s ≤ 64 → pad_64 (replicate n b'0' ++ s) ≡ pad_64 s
unfolding pad_64
pad_64-zeros n s h = rw (
  char_count-append (replicate n b'0') s,
  char_count-zeros n,
  replicate-add (64 - (n + char_count s)) n s,
  zeros_left n (char_count s) h,
)

normalize_hash-size : (s : Text) → char_count (strip_0x s) ≤ 64 → char_count (normalize_hash s) ≡ 66
unfolding normalize_hash pad_64 filter
normalize_hash-size s h =
    let t = to_ascii_lowercase (strip_0x s) in
    omega (
      arith,
      char_count-append (replicate (64 - char_count t) b'0') t,
      char_count-zeros (64 - char_count t),
      char_count-lower (strip_0x s),
      h,
    )

-- Two spellings of a hash have the same normal form: the prefix `0x`, upper-case digits and zeros
-- in front make no difference, as long as there are 64 characters at most. The normal form has 66
-- characters and is its own normal form.
pub normalize_hash_spelling :
    (n : ℕ) (s : Text)
    → strip_0x s ≡ s
    → n + char_count s ≤ 64
    → (normalize_hash (codes "0x" ++ (replicate n b'0' ++ to_ascii_lowercase s)) ≡ normalize_hash s)
      × (normalize_hash (normalize_hash s) ≡ normalize_hash s)
      × (char_count (normalize_hash s) ≡ 66)
normalize_hash_spelling n s bare short =
    let t = to_ascii_lowercase s in
    (
      normalize_hash-prefix (replicate n b'0' ++ t)
          ∙ ap (λ u. codes "0x" ++ u)
              (ap pad_64
                  (lower-zeros n t ∙ ap (λ u. replicate n b'0' ++ u) (to_ascii_lowercase_idem s))
                ∙ pad_64-zeros n t (omega (arith, char_count-lower s, short)))
          ∙ sym (normalize_hash-bare s bare),
      normalize_hash_idem s,
      normalize_hash-size s (rw bare (omega (arith, short))),
    )
