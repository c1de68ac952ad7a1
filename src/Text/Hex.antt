-- ===== src/Text/Hex.antt =====
-- On `hexstr` and `hexstr2bytes` of winsiod/sliba.c.
use siod.Prelude.{ℕ, ◌+◌, ◌*◌, ◌/◌, ◌%◌, ◌<◌, ◌≡◌, refl, [], ◌∷◌, arith, All}
use siod.Store.{Bytes}
use siod.Text.{hex_digit, hexstr, xdigitvalue, hexstr2bytes}

xdigitvalue-hex_digit : (n : ℕ) → n < 16 → xdigitvalue (hex_digit n) ≡ n
unfolding xdigitvalue hex_digit
xdigitvalue-hex_digit n h = ground arith

-- `hexstr2bytes` of what `hexstr` makes of bytes, numbers below 256, is these bytes.
pub hexstr2bytes-hexstr : (xs : Bytes) → All (λ x. x < 256) xs → hexstr2bytes (hexstr xs) ≡ xs
unfolding hexstr2bytes hexstr
hexstr2bytes-hexstr [] h = refl
hexstr2bytes-hexstr (x ∷ xs) h = λ i. digit i ∷ hexstr2bytes-hexstr xs h.1 i
  where
    digit : (xdigitvalue (hex_digit (x / 16)) * 16 + xdigitvalue (hex_digit (x % 16))) % 256 ≡ x
    digit = omega (
      arith,
      xdigitvalue-hex_digit (x / 16) (omega arith),
      xdigitvalue-hex_digit (x % 16) (omega arith),
      h.0,
    )
