-- ===== src/Examples/Bytes.antt =====
-- Bytes encoded and decoded.
use siod.Prelude.{refl, ℕ, ◌<◌, ◌≡◌, List, [], ◌∷◌, All, arith, ◌++◌, ◌≤◌, length, codes, some}
use siod.Text.Url.{
  is_xdigit, digit_value, url_encode, url_decode, well_formed, decoded_dim, decode_bytes,
}
use siod.Text.Url.Trip.{url_decode-url_encode}
use siod.Text.{base64encode, base64decode, bytes}
use siod.Text.Base64.{base64decode-base64encode}

abbrev five : List ℕ
five = 0 ∷ 72 ∷ 255 ∷ 128 ∷ 1 ∷ []

five-All : All (λ x. x < 256) five
five-All = (omega arith, (omega arith, (omega arith, (omega arith, (omega arith, tt)))))

base64decode-base64encode_example : base64decode (base64encode five) ≡ bytes five
base64decode-base64encode_example = base64decode-base64encode five five-All

abbrev query : List ℕ
query = codes "a b&" ++ (255 ∷ [])

query-All : All (λ x. (1 ≤ x) × (x < 256)) query
query-All = (
  (omega arith, omega arith),
  (
    (omega arith, omega arith),
    ((omega arith, omega arith), ((omega arith, omega arith), ((omega arith, omega arith), tt))),
  ),
)

url_decode-url_encode_example :
    url_decode (url_encode query) ≡ some (query, length (url_encode query))
url_decode-url_encode_example = url_decode-url_encode query query-All

-- The dimension of the decoded text is that of the encoded one.
url_decode_dim : url_decode (codes "%41") ≡ some (codes "A", 3)
unfolding url_decode well_formed decoded_dim decode_bytes is_xdigit digit_value
url_decode_dim = refl
