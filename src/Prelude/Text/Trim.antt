-- ===== src/Prelude/Text/Trim.antt =====
-- `str::trim`: white space of Unicode, read off the bytes of valid UTF-8 from either end.
use Prim.Native.Nat.{ℕ, zero, suc, ◌≤◌, ◌<◌}
use native.Mathlib.Omega.{arith}
use mathlib.Core.Path.{◌≡◌, refl}
use mathlib.Core.Bool.{Bool, ◌&&◌, ◌||◌, true, false}
use mathlib.Core.List.{[], ◌∷◌, reverse, reverse-append, reverse-reverse}
use vocdoni_passport_prover.Prelude.Tests.{leb, ◌==◌, if◌then◌else◌}
use vocdoni_passport_prover.Prelude.Lists.{All, All-append}
use vocdoni_passport_prover.Prelude.Text.Literal.{Text, codes}

abbrev white_ascii : ℕ → Bool
white_ascii c = c == 32 || (leb 9 c && leb c 13)

abbrev white_two : ℕ → ℕ → Bool
white_two c d = c == 0xc2 && (d == 0x85 || d == 0xa0)

-- U+1680, U+2000 to U+200A, U+2028, U+2029, U+202F, U+205F and U+3000.
abbrev white_three : ℕ → ℕ → ℕ → Bool
white_three c d e =
    (c == 0xe1 && d == 0x9a && e == 0x80)
    || (c == 0xe2
        && d == 0x80
        && ((leb 0x80 e && leb e 0x8a) || e == 0xa8 || e == 0xa9 || e == 0xaf))
    || (c == 0xe2 && d == 0x81 && e == 0x9f)
    || (c == 0xe3 && d == 0x80 && e == 0x80)

-- How many bytes a white space at the front takes, 0 if there is none.
white_front : Text → ℕ
white_front [] = 0
white_front (c ∷ []) = if white_ascii c then 1 else 0
white_front (c ∷ d ∷ []) = if white_ascii c then 1 else if white_two c d then 2 else 0
white_front (c ∷ d ∷ e ∷ s) =
    if white_ascii c then 1 else if white_two c d then 2 else if white_three c d e then 3 else 0

-- The same for a text that is read from its end.
white_back : Text → ℕ
white_back [] = 0
white_back (c ∷ []) = if white_ascii c then 1 else 0
white_back (c ∷ d ∷ []) = if white_ascii c then 1 else if white_two d c then 2 else 0
white_back (c ∷ d ∷ e ∷ s) =
    if white_ascii c then 1 else if white_two d c then 2 else if white_three e d c then 3 else 0

-- The number is of the bytes left of a white space that is being skipped.
strip : (Text → ℕ) → ℕ → Text → Text
strip white k [] = []
strip white (suc k) (c ∷ s) = strip white k s
strip white zero (c ∷ s) = elim (white (c ∷ s)) [ zero ↦ c ∷ s | suc k ↦ strip white k s ]

unfoldable pub trim : Text → Text
unfolding strip white_front white_back
trim s = reverse (strip white_back 0 (reverse (strip white_front 0 s)))

unfoldable pub is_empty : Text → Bool
is_empty [] = true
is_empty (c ∷ s) = false

trim-padded : trim (codes " \tab c\n ") ≡ codes "ab c"
unfolding trim
trim-padded = refl

trim-wide : trim (0xe2 ∷ 0x80 ∷ 0x83 ∷ 0x78 ∷ 0xc2 ∷ 0xa0 ∷ []) ≡ codes "x"
unfolding trim
trim-wide = refl

-- A text of visible ASCII characters.
abbrev pub IsVisible : ℕ → Type 0
IsVisible c = (33 ≤ c) × (c < 127)

white_front-visible : (s : Text) → All IsVisible s → white_front s ≡ 0
unfolding white_front
white_front-visible [] a = refl
white_front-visible (c ∷ []) a = ground arith
white_front-visible (c ∷ d ∷ []) a = ground arith
white_front-visible (c ∷ d ∷ e ∷ s) a = ground arith

white_back-visible : (s : Text) → All IsVisible s → white_back s ≡ 0
unfolding white_back
white_back-visible [] a = refl
white_back-visible (c ∷ []) a = ground arith
white_back-visible (c ∷ d ∷ []) a = ground arith
white_back-visible (c ∷ d ∷ e ∷ s) a = ground arith

strip_none : (white : Text → ℕ) (s : Text) → white s ≡ 0 → strip white 0 s ≡ s
unfolding strip
strip_none white [] h = refl
strip_none white (c ∷ s) h = rw (h, strip)

reverse-All : (s : Text) → All IsVisible s → All IsVisible (reverse s)
reverse-All [] a = tt
reverse-All (c ∷ s) a =
    rw (reverse-append (c ∷ []) s)
      (All-append IsVisible (reverse s) (c ∷ []) (reverse-All s a.1) (a.0, tt))

pub trim-visible : (s : Text) → All IsVisible s → trim s ≡ s
unfolding trim
trim-visible s a =
    rw
      (
        strip_none white_front s (white_front-visible s a),
        strip_none white_back (reverse s) (white_back-visible (reverse s) (reverse-All s a)),
      )
      (reverse-reverse s)
