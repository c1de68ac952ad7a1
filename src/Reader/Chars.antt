-- ===== src/Reader/Chars.antt =====
-- The tests on characters and texts in the reader of winsiod/slib.c and winsiod/sliba.c, in the C
-- locale.
use siod.Prelude.{
  ℕ, ◌+◌, ◌-◌, ◌*◌, Bool, true, false, ◌&&◌, ◌||◌, List, [], ◌∷◌, ◌==◌, ltb, leb, if◌then◌else◌,
}
use siod.Store.{Bytes}

unfoldable pub is_space : ℕ → Bool
is_space c = c == 32 || (leb 9 c && leb c 13)

unfoldable pub is_digit : ℕ → Bool
is_digit c = leb 48 c && leb c 57

-- `strchr (chars, c)`, which finds the NUL at the end too.
unfoldable pub strchr : List ℕ → ℕ → Bool
strchr [] c = c == 0
strchr (x ∷ xs) c = c == x || strchr xs c

-- `strchr ("()'`,;\"", c) || strchr (user_te_readm, c)`, where the last text is empty.
unfoldable pub ends_token : ℕ → Bool
ends_token c = strchr (40 ∷ 41 ∷ 39 ∷ 96 ∷ 44 ∷ 59 ∷ 34 ∷ []) c

unfoldable pub ends_hex : ℕ → Bool
ends_hex c = is_space c || strchr (40 ∷ 41 ∷ 39 ∷ 96 ∷ 44 ∷ 59 ∷ 91 ∷ 93 ∷ 34 ∷ []) c

-- `while (isdigit (*p)) p += 1`
unfoldable pub skip_digits : Bytes → Bytes
skip_digits [] = []
skip_digits (c ∷ cs) = if is_digit c then skip_digits cs else c ∷ cs

unfoldable pub starts_digit : Bytes → Bool
starts_digit [] = false
starts_digit (c ∷ cs) = is_digit c

unfoldable pub skip_minus : Bytes → Bytes
skip_minus [] = []
skip_minus (c ∷ cs) = if c == b'-' then cs else c ∷ cs

unfoldable pub skip_sign : Bytes → Bytes
skip_sign [] = []
skip_sign (c ∷ cs) = if c == b'-' || c == b'+' then cs else c ∷ cs

-- `*p == 0`
unfoldable pub ends : Bytes → Bool
ends [] = true
ends (c ∷ cs) = false

-- The exponent, if there is one, and the end of the text.
unfoldable pub exponent_ends : Bytes → Bool
exponent_ends [] = true
exponent_ends (c ∷ cs) =
    let p = skip_sign cs in c == b'e' && (starts_digit p && ends (skip_digits p))

unfoldable pub fraction : Bytes → Bool → Bool
fraction [] adigit = adigit
fraction (c ∷ cs) adigit =
    if c == b'.'
    then (adigit || starts_digit cs) && exponent_ends (skip_digits cs)
    else adigit && exponent_ends (c ∷ cs)

-- The test of `lreadtk`: whether a token is a number.
unfoldable pub number_token : Bytes → Bool
number_token t = let p = skip_minus t in fraction (skip_digits p) (starts_digit p)

-- The value of a hexadecimal digit, or 16.
unfoldable pub hex_value : ℕ → ℕ
hex_value c =
    if is_digit c
    then c - 48
    else if leb 65 c && leb c 70
    then c - 55
    else if leb 97 c && leb c 102
    then c - 87
    else 16

unfoldable pub hex_number : ℕ → Bytes → ℕ
hex_number n [] = n
hex_number n (c ∷ cs) =
    let rest = hex_number (n * 16 + hex_value c) cs in if ltb (hex_value c) 16 then rest else n

-- `strtoul` at `0x` and these bytes: a value that is too large becomes the largest.
unfoldable pub strtoul_hex : ℕ → Bytes → ℕ
strtoul_hex max b = let n = hex_number 0 b in if ltb max n then max else n
