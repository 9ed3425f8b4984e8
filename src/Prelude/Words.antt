-- ===== src/Prelude/Words.antt =====
-- `usize` on a 64-bit target. An addition that overflows stops a build with overflow checks, and
-- wraps round in one without them, as the workspace's release profile is.
use Prim.Native.Nat.{ℕ, ◌+◌, ◌%◌, ◌<◌}
use mathlib.Core.Path.{◌≡◌}
use mathlib.Core.Bool.{Bool}
use vocdoni_passport_prover.Prelude.Tests.{ltb, lt→ltb, if◌then◌else◌}
use vocdoni_passport_prover.Prelude.Fallible.{Outcome, ok, panic}

abbrev pub usize_values : ℕ
usize_values = 0x1_0000_0000_0000_0000

-- The first argument tells whether overflow is checked.
unfoldable pub add_usize : Bool → ℕ → ℕ → Outcome ℕ
add_usize checks a b =
    if ltb (a + b) usize_values
    then ok (a + b)
    else if checks
    then panic
    else ok ((a + b) % usize_values)

pub add_usize-small :
    (checks : Bool) (a b : ℕ) → a + b < usize_values → add_usize checks a b ≡ ok (a + b)
unfolding add_usize
add_usize-small checks a b h = rw (lt→ltb _ _ h)
