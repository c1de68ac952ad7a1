-- ===== src/Text/Url/Trip.antt =====
-- On `url_encode` and `url_decode` of winsiod/slibu.c.
use siod.Prelude.{
  ℕ, ◌+◌, ◌*◌, ◌/◌, ◌%◌, ◌≤◌, ◌<◌, ◌≡◌, refl, ◌∙◌, ap, true, false, some, [], ◌∷◌, ◌==◌,
  if◌then◌else◌, arith, length, All, Bool-cases, inl, inr,
}
use siod.Store.{Bytes}
use siod.Text.Url.{
  is_alnum, is_xdigit, is_regular, url_digit, url_encode, encoded_dim, digit_value, well_formed,
  decoded_dim, decode_bytes, url_decode,
}

digit_back : (n : ℕ) → n < 16 → digit_value (url_digit n) ≡ n
unfolding digit_value url_digit
digit_back n lt = ground arith

is_xdigit-url_digit : (n : ℕ) → n < 16 → is_xdigit (url_digit n) ≡ true
unfolding is_xdigit url_digit
is_xdigit-url_digit n lt = ground arith

url_digit-ne : (n : ℕ) → n < 16 → (url_digit n == b'%') ≡ false
unfolding url_digit
url_digit-ne n lt = ground arith

is_regular-ne : (c : ℕ) → is_regular c ≡ true → ((c == b'%') ≡ false) × ((c == b'+') ≡ false)
unfolding is_regular is_alnum
is_regular-ne c h = (ground arith, ground arith)

-- One character that stands for itself or a space, and one of three.
decode_plain :
    (c : ℕ) (cs : Bytes)
    → (c == b'%') ≡ false
    → decode_bytes (c ∷ cs) ≡ (if c == b'+' then b' ' else c) ∷ decode_bytes cs
unfolding decode_bytes
decode_plain c [] ne = refl
decode_plain c (a ∷ []) ne = refl
decode_plain c (a ∷ b ∷ cs) ne = rw ne

decode_special :
    (c : ℕ) (cs : Bytes)
    → c < 256
    → decode_bytes (b'%' ∷ url_digit (c / 16) ∷ url_digit (c % 16) ∷ cs) ≡ c ∷ decode_bytes cs
unfolding decode_bytes
decode_special c cs lt =
    let high = digit_back (c / 16) (omega arith) in
    let low = digit_back (c % 16) (omega arith) in
    let e : (digit_value (url_digit (c / 16)) * 16 + digit_value (url_digit (c % 16))) % 256 ≡ c =
      omega (arith, high, low) in
    ap (λ x. x ∷ decode_bytes cs) e

formed_plain : (c : ℕ) (cs : Bytes) → (c == b'%') ≡ false → well_formed (c ∷ cs) ≡ well_formed cs
unfolding well_formed
formed_plain c cs ne = rw ne

formed_special :
    (c : ℕ) (cs : Bytes)
    → c < 256
    → well_formed (b'%' ∷ url_digit (c / 16) ∷ url_digit (c % 16) ∷ cs) ≡ well_formed cs
unfolding well_formed
formed_special c cs lt =
    let a = url_digit (c / 16) in
    let b = url_digit (c % 16) in
    rw (is_xdigit-url_digit (c / 16) (omega arith), is_xdigit-url_digit (c % 16) (omega arith))
      (formed_plain a (b ∷ cs) (url_digit-ne (c / 16) (omega arith))
        ∙ formed_plain b cs (url_digit-ne (c % 16) (omega arith)))

-- The three ways in which a character is encoded.
encode_space :
    (c : ℕ) (cs : Bytes) → (c == b' ') ≡ true → url_encode (c ∷ cs) ≡ b'+' ∷ url_encode cs
unfolding url_encode
encode_space c cs e = rw e

encode_regular :
    (c : ℕ) (cs : Bytes)
    → (c == b' ') ≡ false
    → is_regular c ≡ true
    → url_encode (c ∷ cs) ≡ c ∷ url_encode cs
unfolding url_encode
encode_regular c cs e r = rw (e, r)

encode_special :
    (c : ℕ) (cs : Bytes)
    → (c == b' ') ≡ false
    → is_regular c ≡ false
    → url_encode (c ∷ cs) ≡ b'%' ∷ url_digit (c / 16) ∷ url_digit (c % 16) ∷ url_encode cs
unfolding url_encode
encode_special c cs e r = rw (e, r)

back :
    (xs : Bytes)
    → All (λ x. (1 ≤ x) × (x < 256)) xs
    → (well_formed (url_encode xs) ≡ true) × (decode_bytes (url_encode xs) ≡ xs)
unfolding well_formed decode_bytes url_encode
back [] h = (refl, refl)
back (c ∷ cs) ((pos, lt), h) =
    let (formed, same) = back cs h in
    elim (Bool-cases (c == b' ')) [
      | inl space ↦
          let at : b' ' ≡ c = ground arith in
          let e = encode_space c cs space in
          (
            ap well_formed e ∙ formed_plain b'+' (url_encode cs) refl ∙ formed,
            ap decode_bytes e ∙ decode_plain b'+' (url_encode cs) refl ∙ (λ i. at i ∷ same i),
          )
      | inr other ↦ elim (Bool-cases (is_regular c)) [
        | inl regular ↦
            let e = encode_regular c cs other regular in
            let (ne, np) = is_regular-ne c regular in
            (
              ap well_formed e ∙ formed_plain c (url_encode cs) ne ∙ formed,
              ap decode_bytes e ∙ decode_plain c (url_encode cs) ne ∙ rw np (ap (λ x. c ∷ x) same),
            )
        | inr special ↦
            let e = encode_special c cs other special in
            (
              ap well_formed e ∙ formed_special c (url_encode cs) lt ∙ formed,
              ap decode_bytes e ∙ decode_special c (url_encode cs) lt ∙ ap (λ x. c ∷ x) same,
            )
      ]
    ]

decoded_dim-length : (s : Bytes) → decoded_dim s ≡ length s
unfolding decoded_dim
decoded_dim-length [] = refl
decoded_dim-length (c ∷ cs) = omega (arith, decoded_dim-length cs)

-- `url_decode` of what `url_encode` makes of a C string, bytes from 1 to 255, has these bytes; its
-- dimension is that of the encoded text.
pub url_decode-url_encode :
    (xs : Bytes)
    → All (λ x. (1 ≤ x) × (x < 256)) xs
    → url_decode (url_encode xs) ≡ some (xs, length (url_encode xs))
unfolding url_decode
url_decode-url_encode xs h =
    let (formed, same) = back xs h in
    rw (formed, same) (ap (λ n. some (xs, n)) (decoded_dim-length (url_encode xs)))

-- The size that `url_encode` counts first is the number of the bytes that it then writes.
pub encoded_dim-length : (xs : Bytes) → encoded_dim xs ≡ length (url_encode xs)
unfolding encoded_dim url_encode
encoded_dim-length [] = refl
encoded_dim-length (c ∷ cs) = ground (arith, encoded_dim-length cs)
