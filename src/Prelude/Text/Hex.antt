-- ===== src/Prelude/Text/Hex.antt =====
-- `{:02x}` of each byte.
use Prim.Native.Nat.{ℕ, ◌+◌, ◌-◌, ◌*◌, ◌/◌, ◌%◌, ◌<◌}
use mathlib.Core.Path.{◌≡◌, refl}
use mathlib.Core.List.{List, [], ◌∷◌}
use native.Mathlib.Omega.{arith}
use vocdoni_passport_prover.Prelude.Tests.{ltb, if◌then◌else◌}
use vocdoni_passport_prover.Prelude.Lists.{length, All}
use vocdoni_passport_prover.Prelude.Text.Literal.{Text, codes}

unfoldable pub hex_digit : ℕ → ℕ
hex_digit n = if ltb n 10 then b'0' + n else b'a' + (n - 10)

-- `format!("{byte:02x}")` of a byte, collected into one text.
unfoldable pub hex_bytes : List ℕ → Text
unfolding hex_digit
hex_bytes [] = []
hex_bytes (b ∷ bs) = hex_digit (b / 16) ∷ hex_digit (b % 16) ∷ hex_bytes bs

abbrev pub unhex_digit : ℕ → ℕ
unhex_digit c = if ltb c b'a' then c - b'0' else c - b'a' + 10

-- The bytes that a text of digit pairs spells.
abbrev pub unhex : Text → List ℕ
unhex [] = []
unhex (c ∷ []) = []
unhex (c ∷ d ∷ s) = (unhex_digit c * 16 + unhex_digit d) ∷ unhex s

unhex-hex_digit : (n : ℕ) → n < 16 → unhex_digit (hex_digit n) ≡ n
unfolding hex_digit
unhex-hex_digit n h = ground arith

pub unhex-hex_bytes : (bs : List ℕ) → All (λ b. b < 256) bs → unhex (hex_bytes bs) ≡ bs
unfolding hex_bytes
unhex-hex_bytes [] h = refl
unhex-hex_bytes (b ∷ bs) (hb, hs) =
    rw (unhex-hex_digit (b / 16) (omega arith), unhex-hex_digit (b % 16) (omega arith))
      (ground (arith, unhex-hex_bytes bs hs))

pub length-hex_bytes : (bs : List ℕ) → length (hex_bytes bs) ≡ 2 * length bs
unfolding hex_bytes
length-hex_bytes [] = omega arith
length-hex_bytes (b ∷ bs) = omega (arith, length-hex_bytes bs)

hex_bytes_test : hex_bytes (0 ∷ 255 ∷ 0x1f ∷ []) ≡ codes "00ff1f"
unfolding hex_bytes
hex_bytes_test = refl
