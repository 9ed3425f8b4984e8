-- ===== src/Prelude/Text/Slices.antt =====
-- Slices at the joints of a text that is put together from parts.
use Prim.Native.Nat.{ℕ, zero, suc, ◌+◌, ◌-◌, ◌≤◌, ◌<◌}
use mathlib.Core.Path.{◌≡◌}
use mathlib.Core.Bool.{true}
use mathlib.Core.Option.{some}
use mathlib.Core.List.{List, [], ◌∷◌, ◌++◌}
use native.Mathlib.Omega.{arith}
use vocdoni_passport_prover.Prelude.Tests.{le→leb}
use vocdoni_passport_prover.Prelude.Lists.{
  length, take, drop, All, length-append, take-append, drop-append,
}
use vocdoni_passport_prover.Prelude.Fallible.{ok}
use vocdoni_passport_prover.Prelude.Text.Literal.{Text}
use vocdoni_passport_prover.Prelude.Text.Cut.{is_char_boundary, get_range, slice, bytes_slice}

pub bytes_slice_middle :
    (pre c rest : List ℕ)
    → bytes_slice (pre ++ (c ++ rest)) (length pre) (length pre + length c) ≡ ok c
unfolding bytes_slice
bytes_slice_middle pre c rest =
    let size : length (pre ++ (c ++ rest)) ≡ length pre + (length c + length rest) =
      omega (arith, length-append pre (c ++ rest), length-append c rest) in
    let width : length pre + length c - length pre ≡ length c = omega arith in
    rw (
      le→leb (length pre) (length pre + length c) (omega arith),
      size,
      le→leb (length pre + length c) (length pre + (length c + length rest)) (omega arith),
      width,
      drop-append pre (c ++ rest),
      take-append c rest,
    )

-- Every byte is an ASCII character.
abbrev pub IsAscii : Text → Type 0
IsAscii = All (λ c. c < 128)

pub IsAscii-boundary : (s : Text) (i : ℕ) → IsAscii s → i ≤ length s → is_char_boundary s i ≡ true
unfolding is_char_boundary
IsAscii-boundary [] i a h = let z : i ≡ 0 = omega arith in rw z
IsAscii-boundary (c ∷ s) zero a h = ground arith
IsAscii-boundary (c ∷ s) (suc i) a h = IsAscii-boundary s i a.1 (omega arith)

-- An ASCII text can be cut at any two places.
pub get_range-IsAscii :
    (s : Text) (a b : ℕ)
    → IsAscii s
    → a ≤ b
    → b ≤ length s
    → get_range s a b ≡ some (take (b - a) (drop a s))
unfolding get_range
get_range-IsAscii s a b h l k = rw (
  le→leb a b l,
  le→leb b (length s) k,
  IsAscii-boundary s a h (omega arith),
  IsAscii-boundary s b h k,
)

pub slice-IsAscii :
    (s : Text) (a b : ℕ)
    → IsAscii s
    → a ≤ b
    → b ≤ length s
    → slice s a b ≡ ok (take (b - a) (drop a s))
unfolding slice
slice-IsAscii s a b h l k = rw (get_range-IsAscii s a b h l k, slice)
