-- ===== src/Text/Url.antt =====
-- `url_encode` and `url_decode` of winsiod/slibu.c on the bytes of a C string. Where nothing is to
-- be changed they return their argument, which has the same bytes.
pub mod Trip
use siod.Prelude.{
  ℕ, zero, suc, ◌+◌, ◌-◌, ◌*◌, ◌/◌, ◌%◌, Bool, true, false, ◌&&◌, ◌||◌, Option, none, some, List,
  [], ◌∷◌, ◌==◌, ltb, leb, if◌then◌else◌,
}
use siod.Store.{Bytes}

-- `isalnum` and `isxdigit` of the C locale.
abbrev pub between : ℕ → ℕ → ℕ → Bool
between a b c = leb a c && leb c b

unfoldable pub is_alnum : ℕ → Bool
is_alnum c = between b'0' b'9' c || (between b'A' b'Z' c || between b'a' b'z' c)

unfoldable pub is_xdigit : ℕ → Bool
is_xdigit c = between b'0' b'9' c || (between b'A' b'F' c || between b'a' b'f' c)

-- `isalnum (c) || strchr ("*-._@", c)`
unfoldable pub is_regular : ℕ → Bool
is_regular c = is_alnum c || (c == b'*' || (c == b'-' || (c == b'.' || (c == b'_' || c == b'@'))))

-- A digit of `sprintf ("%02X")`.
unfoldable pub url_digit : ℕ → ℕ
url_digit n = if ltb n 10 then b'0' + n else b'A' + (n - 10)

unfoldable pub url_encode : Bytes → Bytes
url_encode [] = []
url_encode (c ∷ cs) =
    let rest = url_encode cs in
    if c == b' '
    then b'+' ∷ rest
    else if is_regular c
    then c ∷ rest
    else b'%' ∷ url_digit (c / 16) ∷ url_digit (c % 16) ∷ rest

-- The size that the first loop of `url_encode` counts.
unfoldable pub encoded_dim : Bytes → ℕ
encoded_dim [] = 0
encoded_dim (c ∷ cs) = (if c == b' ' then 1 else if is_regular c then 1 else 3) + encoded_dim cs

-- The value of a digit, with `toupper`.
unfoldable pub digit_value : ℕ → ℕ
digit_value c =
    if between b'0' b'9' c
    then c - b'0'
    else (if between b'a' b'z' c then c - 32 else c) - b'A' + 10

-- The test and the count of the first loop of `url_decode`: the digits after a `%` are counted too.
unfoldable pub well_formed : Bytes → Bool
well_formed [] = true
well_formed (c ∷ cs) =
    if c == b'%'
    then elim cs [ a ∷ b ∷ rest ↦ is_xdigit a && (is_xdigit b && well_formed cs) | _ ↦ false ]
    else well_formed cs

unfoldable pub decoded_dim : Bytes → ℕ
decoded_dim [] = 0
decoded_dim (c ∷ cs) = 1 + decoded_dim cs

-- The second loop.
unfoldable pub decode_bytes : Bytes → Bytes
decode_bytes [] = []
decode_bytes (c ∷ []) = (if c == b'+' then b' ' else c) ∷ []
decode_bytes (c ∷ a ∷ []) = (if c == b'+' then b' ' else c) ∷ decode_bytes (a ∷ [])
decode_bytes (c ∷ a ∷ b ∷ cs) =
    if c == b'%'
    then (digit_value a * 16 + digit_value b) % 256 ∷ decode_bytes cs
    else (if c == b'+' then b' ' else c) ∷ decode_bytes (a ∷ b ∷ cs)

-- The bytes and the dimension of the result; `none` is `NIL`.
unfoldable pub url_decode : Bytes → Option (Bytes × ℕ)
url_decode s = if well_formed s then some (decode_bytes s, decoded_dim s) else none
