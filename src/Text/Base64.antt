-- ===== src/Text/Base64.antt =====
-- On `base64encode` and `base64decode` of winsiod/sliba.c.
use siod.Prelude.{
  ℕ, zero, suc, ◌+◌, ◌-◌, ◌*◌, ◌/◌, ◌%◌, ◌≤◌, ◌<◌, ◌≡◌, refl, ◌∙◌, bit_or, Bool, true, false, ◌&&◌,
  Option, none, some, [], ◌∷◌, ◌==◌, if◌then◌else◌, length, arith, ==_iff, All, ap, not,
}
use siod.Store.{Bytes}
use siod.Text.{
  pad, base64_char, place_of, base64_item, item1, item2, item3, item4, base64encode, byte1, byte2,
  byte3, Decoded, bytes, with_item, in_front, decode_rest, decode_chunks, leftover_of, base64decode,
}

-- A test on every number below a bound, by evaluation.
holds_up_to : (ℕ → Bool) → ℕ → Bool
holds_up_to test zero = true
holds_up_to test (suc n) = holds_up_to test n && test n

holds_up_to_lem : (test : ℕ → Bool) {n x : ℕ} → x < n → holds_up_to test n ≡ true → test x ≡ true
unfolding holds_up_to
holds_up_to_lem test {n = zero} lt h = elim lt [ ]
holds_up_to_lem test {n = suc n} {x} lt h =
    ground (arith, λ (l : x < n). holds_up_to_lem test {n = n} l)

-- A table over two small numbers.
joins : ℕ → ℕ → ℕ → Bool
joins k a b = bit_or (a * k) b == a * k + b

joins_sound :
    (n k : ℕ)
    → holds_up_to (λ a. holds_up_to (joins k a) k) n ≡ true
    → (a b : ℕ) → a < n
    → b < k
    → bit_or (a * k) b ≡ a * k + b
unfolding joins
joins_sound n k table a b la lb =
    (==_iff _ _).0
      (holds_up_to_lem (joins k a) lb (holds_up_to_lem (λ x. holds_up_to (joins k x) k) la table))

joins_4 : (a b : ℕ) → a < 64 → b < 4 → bit_or (a * 4) b ≡ a * 4 + b
unfolding holds_up_to joins
joins_4 = joins_sound 64 4 refl

joins_16 : (a b : ℕ) → a < 64 → b < 16 → bit_or (a * 16) b ≡ a * 16 + b
unfolding holds_up_to joins
joins_16 = joins_sound 64 16 refl

joins_64 : (a b : ℕ) → a < 64 → b < 64 → bit_or (a * 64) b ≡ a * 64 + b
unfolding holds_up_to joins
joins_64 = joins_sound 64 64 refl

-- The items of three bytes, as sums.
item2_sum : (x y : ℕ) → item2 x y ≡ (x % 4) * 16 + (y / 16) % 16
unfolding item2
item2_sum x y = joins_16 (x % 4) ((y / 16) % 16) (omega arith) (omega arith)

item3_sum : (x y : ℕ) → item3 x y ≡ (x % 16) * 4 + (y / 64) % 4
unfolding item3
item3_sum x y = joins_4 (x % 16) ((y / 64) % 4) (omega arith) (omega arith)

byte1_sum : (i j : ℕ) → i < 64 → j < 64 → byte1 i j ≡ (i * 4 + j / 16) % 256
unfolding byte1
byte1_sum i j li lj = ap (λ n. n % 256) (joins_4 i (j / 16) li (omega arith))

byte2_sum : (i j : ℕ) → i < 64 → j < 64 → byte2 i j ≡ (i * 16 + j / 4) % 256
unfolding byte2
byte2_sum i j li lj = ap (λ n. n % 256) (joins_16 i (j / 4) li (omega arith))

byte3_sum : (i j : ℕ) → i < 64 → j < 64 → byte3 i j ≡ (i * 64 + j) % 256
unfolding byte3
byte3_sum i j li lj = ap (λ n. n % 256) (joins_64 i j li lj)

item1-lt : (x : ℕ) → item1 x < 64
unfolding item1
item1-lt x = omega arith

item2-lt : (x y : ℕ) → item2 x y < 64
item2-lt x y = omega (arith, item2_sum x y)

item3-lt : (x y : ℕ) → item3 x y < 64
item3-lt x y = omega (arith, item3_sum x y)

item4-lt : (x : ℕ) → item4 x < 64
unfolding item4
item4-lt x = omega arith

byte1_back : (x y : ℕ) → x < 256 → byte1 (item1 x) (item2 x y) ≡ x
unfolding item1
byte1_back x y h =
    byte1_sum (item1 x) (item2 x y) (item1-lt x) (item2-lt x y) ∙ omega (arith, item2_sum x y)

byte2_back : (x y z : ℕ) → y < 256 → byte2 (item2 x y) (item3 y z) ≡ y
byte2_back x y z h =
    byte2_sum (item2 x y) (item3 y z) (item2-lt x y) (item3-lt y z)
    ∙ omega (arith, item2_sum x y, item3_sum y z)

byte3_back : (y z : ℕ) → z < 256 → byte3 (item3 y z) (item4 z) ≡ z
unfolding item4
byte3_back y z h =
    byte3_sum (item3 y z) (item4 z) (item3-lt y z) (item4-lt z) ∙ omega (arith, item3_sum y z)

-- The two tables are inverse to each other on the items, and no item gives the padding.
is_item : Option ℕ → ℕ → Bool
is_item none i = false
is_item (some j) i = j == i

is_item_sound : (o : Option ℕ) (i : ℕ) → is_item o i ≡ true → o ≡ some i
unfolding is_item
is_item_sound none i h = cc
is_item_sound (some j) i h = ground arith

table_inverse : holds_up_to (λ i. is_item (base64_item (base64_char i)) i) 64 ≡ true
unfolding holds_up_to is_item base64_item base64_char place_of
table_inverse = refl

base64_item-char : (i : ℕ) → i < 64 → base64_item (base64_char i) ≡ some i
base64_item-char i h =
    is_item_sound _ i
      (holds_up_to_lem (λ i. is_item (base64_item (base64_char i)) i) h table_inverse)

with_item-char : (i : ℕ) (k : ℕ → Decoded) → i < 64 → with_item (base64_char i) k ≡ k i
with_item-char i k h = rw (base64_item-char i h, with_item)

no_pad : holds_up_to (λ i. not (base64_char i == pad)) 64 ≡ true
unfolding holds_up_to base64_char
no_pad = refl

char-ne-pad : (i : ℕ) → i < 64 → (base64_char i == pad) ≡ false
char-ne-pad i h = ground (arith, holds_up_to_lem (λ i. not (base64_char i == pad)) h no_pad)

chunks_of : Bytes → ℕ
chunks_of (x ∷ y ∷ z ∷ rest) = suc (chunks_of rest)
chunks_of _ = 0

left_of : Bytes → ℕ
left_of (x ∷ []) = 1
left_of (x ∷ y ∷ []) = 2
left_of (x ∷ y ∷ z ∷ rest) = left_of rest
left_of [] = 0

decode_chunks-base64encode :
    (xs : Bytes)
    → All (λ x. x < 256) xs
    → decode_chunks (chunks_of xs) (left_of xs) (base64encode xs) ≡ bytes xs
unfolding chunks_of left_of base64encode decode_chunks decode_rest
decode_chunks-base64encode [] h = refl
decode_chunks-base64encode (x ∷ []) h =
    with_item-char (item1 x) _ (item1-lt x)
    ∙ with_item-char (item2 x 0) _ (item2-lt x 0)
    ∙ ap (λ n. bytes (n ∷ [])) (byte1_back x 0 h.0)
decode_chunks-base64encode (x ∷ y ∷ []) h =
    with_item-char (item1 x) _ (item1-lt x)
    ∙ with_item-char (item2 x y) _ (item2-lt x y)
    ∙ with_item-char (item3 y 0) _ (item3-lt y 0)
    ∙ (λ i. bytes (byte1_back x y h.0 i ∷ byte2_back x y 0 h.1.0 i ∷ []))
decode_chunks-base64encode (x ∷ y ∷ z ∷ rest) h =
    with_item-char (item1 x) _ (item1-lt x)
    ∙ with_item-char (item2 x y) _ (item2-lt x y)
    ∙ with_item-char (item3 y z) _ (item3-lt y z)
    ∙ with_item-char (item4 z) _ (item4-lt z)
    ∙ (λ i.
        in_front (byte1_back x y h.0 i ∷ byte2_back x y z h.1.0 i ∷ byte3_back y z h.1.1.0 i ∷ [])
          (decode_chunks-base64encode rest h.1.1.1 i))

length-base64encode :
    (xs : Bytes)
    → length (base64encode xs) ≡ 4 * (chunks_of xs + (if left_of xs == 0 then 0 else 1))
unfolding chunks_of left_of base64encode
length-base64encode [] = refl
length-base64encode (x ∷ []) = refl
length-base64encode (x ∷ y ∷ []) = refl
length-base64encode (x ∷ y ∷ z ∷ rest) = omega (arith, length-base64encode rest)

-- The last two characters of a text of four or more are those of what follows its first chunk.
leftover_of-chunk :
    (a b c d : ℕ) (s : Bytes) → 2 ≤ length s → leftover_of (a ∷ b ∷ c ∷ d ∷ s) ≡ leftover_of s
unfolding leftover_of
leftover_of-chunk a b c d s h =
    let last : suc (suc (suc (suc (length s)))) - 1 ≡ suc (suc (suc (suc (length s - 1)))) =
      omega arith in
    let before : suc (suc (suc (suc (length s)))) - 2 ≡ suc (suc (suc (suc (length s - 2)))) =
      omega arith in
    rw (last, before)

length_pos : (w : ℕ) (xs : Bytes) → 4 ≤ length (base64encode (w ∷ xs))
unfolding base64encode
length_pos w [] = omega arith
length_pos w (x ∷ []) = omega arith
length_pos w (x ∷ y ∷ xs) = omega arith

leftover_of-next :
    (x y z w : ℕ) (rest : Bytes)
    → leftover_of (base64encode (x ∷ y ∷ z ∷ w ∷ rest)) ≡ leftover_of (base64encode (w ∷ rest))
unfolding base64encode
leftover_of-next x y z w rest =
    leftover_of-chunk _ _ _ _ (base64encode (w ∷ rest)) (omega (arith, length_pos w rest))

leftover_of-base64encode : (xs : Bytes) → leftover_of (base64encode xs) ≡ left_of xs
unfolding left_of
leftover_of-base64encode [] = unfold base64encode leftover_of in refl
leftover_of-base64encode (x ∷ []) = unfold base64encode leftover_of in refl
leftover_of-base64encode (x ∷ y ∷ []) =
    unfold base64encode leftover_of in rw (char-ne-pad (item3 y 0) (item3-lt y 0))
leftover_of-base64encode (x ∷ y ∷ z ∷ []) =
    unfold base64encode leftover_of in rw (char-ne-pad (item4 z) (item4-lt z))
leftover_of-base64encode (x ∷ y ∷ z ∷ w ∷ rest) =
    leftover_of-next x y z w rest ∙ leftover_of-base64encode (w ∷ rest)

-- `base64decode` of whole groups of four.
decode_groups :
    (s : Bytes) (n left : ℕ)
    → leftover_of s ≡ left
    → length s ≡ 4 * (n + (if left == 0 then 0 else 1))
    → (length s == 0) ≡ false
    → base64decode s ≡ decode_chunks n left s
unfolding base64decode
decode_groups s n left e l ne =
    let whole : (length s % 4 == 0) ≡ true = ground arith in
    let count : length s / 4 - (if left == 0 then 0 else 1) ≡ n = ground arith in
    rw (e, ne, whole, count)

-- `base64decode` of what `base64encode` makes of bytes, numbers below 256, is these bytes.
pub base64decode-base64encode :
    (xs : Bytes) → All (λ x. x < 256) xs → base64decode (base64encode xs) ≡ bytes xs
base64decode-base64encode [] h = unfold base64decode base64encode leftover_of in refl
base64decode-base64encode (x ∷ xs) h =
    decode_groups (base64encode (x ∷ xs)) (chunks_of (x ∷ xs)) (left_of (x ∷ xs))
      (leftover_of-base64encode (x ∷ xs)) (length-base64encode (x ∷ xs))
      (ground (arith, length_pos x xs))
    ∙ decode_chunks-base64encode (x ∷ xs) h
