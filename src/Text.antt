-- ===== src/Text.antt =====
-- The conversions of bytes in winsiod/sliba.c: base 64 and hexadecimal.
use siod.Prelude.{
  ℕ, zero, suc, ◌+◌, ◌-◌, ◌*◌, ◌/◌, ◌%◌, bit_or, bit_and, Bool, true, false, ◌&&◌, ◌||◌, Option,
  none, some, List, [], ◌∷◌, ◌++◌, ◌==◌, ltb, leb, if◌then◌else◌, length, get_or, codes,
}
use mathlib.Core.Option
use siod.Store.{Bytes}
pub mod Base64
pub mod Hex
pub mod Url

-- `base64_encode_table`, with the padding character at place 64.
abbrev pub base64_encode_table : Bytes
base64_encode_table = codes "ABCDEFGHIJKLMNOPQRSTUVWXYZabcdefghijklmnopqrstuvwxyz0123456789+/="

abbrev pub pad : ℕ
pad = b'='

-- `t[k]`
unfoldable pub base64_char : ℕ → ℕ
base64_char k = get_or base64_encode_table k 0

-- The place of a character; `none` stands for the -1 of `init_base64_table`.
unfoldable pub place_of : ℕ → ℕ → Bytes → Option ℕ
place_of c j [] = none
place_of c j (x ∷ xs) = if x == c then some j else place_of c (j + 1) xs

-- An entry of `base64_decode_table` with a bit above the sixth is refused, that of `=` too.
unfoldable pub base64_item : ℕ → Option ℕ
base64_item c = elim (place_of c 0 base64_encode_table) [
  | none ↦ none
  | some j ↦ if ltb j 64 then some j else none
]

-- `ITEM1` to `ITEM4`.
unfoldable pub item1 : ℕ → ℕ
item1 x = (x / 4) % 64

unfoldable pub item2 : ℕ → ℕ → ℕ
item2 x y = bit_or ((x % 4) * 16) ((y / 16) % 16)

unfoldable pub item3 : ℕ → ℕ → ℕ
item3 x y = bit_or ((x % 16) * 4) ((y / 64) % 4)

unfoldable pub item4 : ℕ → ℕ
item4 x = x % 64

-- `base64encode` on the bytes of its argument.
unfoldable pub base64encode : Bytes → Bytes
base64encode [] = []
base64encode (x ∷ []) = base64_char (item1 x) ∷ base64_char (item2 x 0) ∷ pad ∷ pad ∷ []
base64encode (x ∷ y ∷ []) =
    base64_char (item1 x) ∷ base64_char (item2 x y) ∷ base64_char (item3 y 0) ∷ pad ∷ []
base64encode (x ∷ y ∷ z ∷ rest) =
    base64_char (item1 x)
    ∷ base64_char (item2 x y)
    ∷ base64_char (item3 y z)
    ∷ base64_char (item4 z)
    ∷ base64encode rest

-- The bytes that two or more items give, as `unsigned char`.
unfoldable pub byte1 : ℕ → ℕ → ℕ
byte1 i j = bit_or (i * 4) (j / 16) % 256

unfoldable pub byte2 : ℕ → ℕ → ℕ
byte2 i j = bit_or (i * 16) (j / 4) % 256

unfoldable pub byte3 : ℕ → ℕ → ℕ
byte3 i j = bit_or (i * 64) j % 256

-- What `base64decode` returns: a string of these bytes, `NIL`, or the error on the length.
pub data Decoded : Type 0 where
  bytes : Bytes → Decoded
  no_data : Decoded
  bad_length : Decoded

abbrev pub with_item : ℕ → (ℕ → Decoded) → Decoded
with_item c k = elim (base64_item c) [ none ↦ no_data | some i ↦ k i ]

-- Bytes in front of those that the rest gives.
abbrev pub in_front : Bytes → Decoded → Decoded
in_front xs (bytes ys) = bytes (xs ++ ys)
in_front xs d = d

-- What is left behind the whole chunks: 1 or 2 bytes, or none.
unfoldable pub decode_rest : ℕ → Bytes → Decoded
decode_rest zero s = bytes []
decode_rest (suc zero) (a ∷ b ∷ s) = with_item a (λ i. with_item b (λ j. bytes (byte1 i j ∷ [])))
decode_rest (suc (suc n)) (a ∷ b ∷ c ∷ s) =
    with_item a (λ i. with_item b (λ j. with_item c (λ k. bytes (byte1 i j ∷ byte2 j k ∷ []))))
decode_rest _ _ = no_data

unfoldable pub decode_chunks : ℕ → ℕ → Bytes → Decoded
decode_chunks zero left s = decode_rest left s
decode_chunks (suc n) left (a ∷ b ∷ c ∷ d ∷ s) = with_item a (λ i. with_item b (λ j.
    with_item c (λ k.
      with_item d
        (λ l. in_front (byte1 i j ∷ byte2 j k ∷ byte3 k l ∷ []) (decode_chunks n left s)))))
decode_chunks (suc n) left _ = no_data

-- `leftover`, by the last two characters.
unfoldable pub leftover_of : Bytes → ℕ
leftover_of s =
    if get_or s (length s - 1) 0 == pad
    then (if get_or s (length s - 2) 0 == pad then 1 else 2)
    else 0

-- `base64decode` on the bytes of its argument before the first NUL.
unfoldable pub base64decode : Bytes → Decoded
base64decode s =
    let left = leftover_of s in
    let chunks = length s / 4 - (if left == 0 then 0 else 1) in
    if length s == 0
    then bytes []
    else if length s % 4 == 0
    then decode_chunks chunks left s
    else bad_length

-- `sprintf ("%02x")` of a byte, and `hexstr`.
unfoldable pub hex_digit : ℕ → ℕ
hex_digit n = if ltb n 10 then b'0' + n else b'a' + (n - 10)

unfoldable pub hexstr : Bytes → Bytes
hexstr [] = []
hexstr (x ∷ xs) = hex_digit (x / 16) ∷ hex_digit (x % 16) ∷ hexstr xs

-- `isdigit`, `isxdigit` and `toupper` of the C locale.
unfoldable pub xdigitvalue : ℕ → ℕ
xdigitvalue c =
    if leb b'0' c && leb c b'9'
    then c - b'0'
    else if leb b'a' c && leb c b'f'
    then c - 32 - b'A' + 10
    else if leb b'A' c && leb c b'F'
    then c - b'A' + 10
    else 0

-- `hexstr2bytes`; a last odd character is left out.
unfoldable pub hexstr2bytes : Bytes → Bytes
hexstr2bytes (a ∷ b ∷ s) = (xdigitvalue a * 16 + xdigitvalue b) % 256 ∷ hexstr2bytes s
hexstr2bytes _ = []
