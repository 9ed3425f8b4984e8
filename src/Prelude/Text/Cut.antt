-- ===== src/Prelude/Text/Cut.antt =====
-- Searching, splitting, replacing and slicing of `str`.
use Prim.Native.Nat.{ℕ, zero, suc, ◌-◌}
use mathlib.Core.Path.{◌≡◌, refl}
use mathlib.Core.Bool.{Bool, ◌&&◌, ◌||◌, true, false, not}
use mathlib.Core.Option.{Option, none, some}
use mathlib.Core.List.{List, [], ◌∷◌, ◌++◌, reverse, map}
use vocdoni_passport_prover.Prelude.Tests.{ltb, leb, ◌==◌, if◌then◌else◌}
use vocdoni_passport_prover.Prelude.Lists.{length, take, drop}
use vocdoni_passport_prover.Prelude.Fallible.{Outcome, ok, panic}
use vocdoni_passport_prover.Prelude.Text.Literal.{Text, codes}

unfoldable pub strip_prefix : Text → Text → Option Text
strip_prefix [] s = some s
strip_prefix (p ∷ ps) [] = none
strip_prefix (p ∷ ps) (c ∷ s) = if p == c then strip_prefix ps s else none

unfoldable pub starts_with : Text → Text → Bool
starts_with [] s = true
starts_with (p ∷ ps) [] = false
starts_with (p ∷ ps) (c ∷ s) = p == c && starts_with ps s

unfoldable pub ends_with : Text → Text → Bool
unfolding starts_with
ends_with p s = starts_with (reverse p) (reverse s)

unfoldable pub contains : Text → Text → Bool
unfolding starts_with
contains p [] = starts_with p []
contains p (c ∷ s) = starts_with p (c ∷ s) || contains p s

-- `replace(c, "")`, for the bytes that the test takes.
unfoldable pub remove : (ℕ → Bool) → Text → Text
remove test [] = []
remove test (c ∷ s) = if test c then remove test s else c ∷ remove test s

-- `replace(c, " ")`.
unfoldable pub blank : ℕ → Text → Text
blank c s = map (λ d. if d == c then 32 else d) s

-- `split` by a set of ASCII characters.
unfoldable pub split_on : (ℕ → Bool) → Text → Text → List Text
split_on test cur [] = cur ∷ []
split_on test cur (c ∷ s) = elim (test c) [
  | true ↦ cur ∷ split_on test [] s
  | false ↦ split_on test (cur ++ c ∷ []) s
]

-- `split("<<")`; the first text is the part that is being read.
unfoldable pub split_fillers : Text → Text → List Text
split_fillers cur [] = cur ∷ []
split_fillers cur (c ∷ []) = (cur ++ c ∷ []) ∷ []
split_fillers cur (c ∷ d ∷ s) = elim (c == b'<' && d == b'<') [
  | true ↦ cur ∷ split_fillers [] s
  | false ↦ split_fillers (cur ++ c ∷ []) (d ∷ s)
]

-- No continuation byte stands at this place.
unfoldable pub is_char_boundary : Text → ℕ → Bool
is_char_boundary [] i = i == 0
is_char_boundary (c ∷ s) zero = not (leb 0x80 c && ltb c 0xc0)
is_char_boundary (c ∷ s) (suc i) = is_char_boundary s i

-- `s.get(a..b)`.
unfoldable pub get_range : Text → ℕ → ℕ → Option Text
unfolding is_char_boundary
get_range s a b =
    if leb a b && leb b (length s) && is_char_boundary s a && is_char_boundary s b
    then some (take (b - a) (drop a s))
    else none

-- `&s[a..b]`.
unfoldable pub slice : Text → ℕ → ℕ → Outcome Text
unfolding get_range
slice s a b = elim (get_range s a b) [ some t ↦ ok t | none ↦ panic ]

-- `&bytes[a..b]`, of a slice of bytes.
unfoldable pub bytes_slice : List ℕ → ℕ → ℕ → Outcome (List ℕ)
bytes_slice s a b = if leb a b && leb b (length s) then ok (take (b - a) (drop a s)) else panic

-- `String::from_utf8`: how many bytes follow a leading byte, and the range of the first of them.
utf8_lead : ℕ → Option (ℕ × ℕ × ℕ)
utf8_lead c =
    if ltb c 0x80
    then some (0, 0x80, 0xbf)
    else if ltb c 0xc2
    then none
    else if ltb c 0xe0
    then some (1, 0x80, 0xbf)
    else if c == 0xe0
    then some (2, 0xa0, 0xbf)
    else if c == 0xed
    then some (2, 0x80, 0x9f)
    else if ltb c 0xf0
    then some (2, 0x80, 0xbf)
    else if c == 0xf0
    then some (3, 0x90, 0xbf)
    else if ltb c 0xf4
    then some (3, 0x80, 0xbf)
    else if c == 0xf4
    then some (3, 0x80, 0x8f)
    else none

utf8_run : ℕ → ℕ → ℕ → Text → Bool
unfolding utf8_lead
utf8_run zero lo hi [] = true
utf8_run (suc n) lo hi [] = false
utf8_run zero lo hi (c ∷ s) = elim (utf8_lead c) [
  | none ↦ false
  | some (n, lo', hi') ↦ utf8_run n lo' hi' s
]
utf8_run (suc n) lo hi (c ∷ s) = leb lo c && leb c hi && utf8_run n 0x80 0xbf s

unfoldable pub is_utf8 : Text → Bool
unfolding utf8_run
is_utf8 s = utf8_run 0 0x80 0xbf s

split_fillers_test :
    split_fillers [] (codes "SMITH<<JOHN<MILLER<<<")
    ≡ codes "SMITH" ∷ codes "JOHN<MILLER" ∷ codes "<" ∷ []
unfolding split_fillers
split_fillers_test = refl

is_utf8_test : is_utf8 (0xc3 ∷ 0xa9 ∷ 0x41 ∷ []) ≡ true
unfolding is_utf8
is_utf8_test = refl

is_utf8_test_bad : is_utf8 (0xed ∷ 0xa0 ∷ 0x80 ∷ []) ≡ false
unfolding is_utf8
is_utf8_test_bad = refl
