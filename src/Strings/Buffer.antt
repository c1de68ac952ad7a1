-- ===== src/Strings/Buffer.antt =====
-- On `safe_strcpy` and `safe_strcat` of winsiod/slib.c.
use siod.Prelude.{
  ℕ, zero, suc, ◌+◌, ◌-◌, ◌≤◌, ◌<◌, ◌≡◌, refl, sym, ◌∙◌, ap, false, [], ◌∷◌, ◌++◌, ◌==◌, ltb, arith,
  length, length-append, take, drop, set, All, Bool-cases, inl, inr,
}
use siod.Store.{Bytes}
use siod.Alloc.{c_str}
use siod.Printer.Into.{IsChar}
use siod.Strings.Chars.{safe_strcpy, safe_strlen, safe_strcat}

c_str-append : (t b : Bytes) → All IsChar t → c_str (t ++ (0 ∷ b)) ≡ t
unfolding c_str
c_str-append [] b h = refl
c_str-append (c ∷ t) b (k, h) = rw k (ap (λ w. c ∷ w) (c_str-append t b h))

-- A text that is too long is cut, with a NUL in its last place.
c_str-cut :
    (n : ℕ) (t : Bytes)
    → All IsChar t
    → n < length t
    → (c_str (set (take (suc n) t) n 0) ≡ take n t) × (length (set (take (suc n) t) n 0) ≡ suc n)
unfolding c_str
c_str-cut n [] h lt = absurd (omega arith)
c_str-cut zero (c ∷ t) h lt = (refl, refl)
c_str-cut (suc n) (c ∷ t) (k, h) lt =
    let (e, l) = c_str-cut n t h (omega arith) in (rw k (ap (λ w. c ∷ w) e), ap suc l)

take_all : (n : ℕ) (t : Bytes) → length t ≤ n → take n t ≡ t
take_all zero [] h = refl
take_all zero (c ∷ t) h = absurd (omega arith)
take_all (suc n) [] h = refl
take_all (suc n) (c ∷ t) h = ap (λ w. c ∷ w) (take_all n t (omega arith))

length-drop : (n : ℕ) (b : Bytes) → n ≤ length b → length (drop n b) + n ≡ length b
length-drop zero b h = omega arith
length-drop (suc n) [] h = absurd (omega arith)
length-drop (suc n) (x ∷ b) h = let e = length-drop n b (omega arith) in omega (arith, e)

c_str-safe_strcpy :
    (n : ℕ) (s1 s2 : Bytes)
    → length s1 ≡ suc n
    → All IsChar s2
    → (c_str (safe_strcpy s1 s2) ≡ take n s2) × (length (safe_strcpy s1 s2) ≡ suc n)
unfolding safe_strcpy
c_str-safe_strcpy n s1 s2 e h =
    let room : (suc n == 0) ≡ false = ground arith in
    let before : suc n - 1 ≡ n = omega arith in
    elim (Bool-cases (ltb (length s2) (suc n))) [
      | inl fits ↦
          let rest = length-drop (suc (length s2)) s1 (ground (arith, e)) in
          let whole = length-append s2 (0 ∷ drop (suc (length s2)) s1) in
          rw (e, room, fits)
            (
              c_str-append s2 (drop (suc (length s2)) s1) h ∙ sym (take_all n s2 (ground arith)),
              omega (arith, whole, rest, e),
            )
      | inr long ↦ rw (e, room, long, before) (c_str-cut n s2 h (ground arith))
    ]

safe_strcat-next :
    (x : ℕ) (b s2 : Bytes) → (x == 0) ≡ false → safe_strcat (x ∷ b) s2 ≡ x ∷ safe_strcat b s2
unfolding safe_strcat safe_strlen c_str
safe_strcat-next x b s2 z = rw z

-- `safe_strcat` to a buffer of `n + 1` bytes that holds a C string: the buffer keeps its size and
-- holds a C string again, the old text and then the new one, cut after `n` bytes.
pub safe_strcat-take :
    (n : ℕ) (s1 s2 : Bytes)
    → length s1 ≡ suc n
    → length (c_str s1) ≤ n
    → All IsChar s2
    → (c_str (safe_strcat s1 s2) ≡ take n (c_str s1 ++ s2)) × (length (safe_strcat s1 s2) ≡ suc n)
unfolding safe_strcat safe_strlen c_str
safe_strcat-take n [] s2 e le h = absurd (omega (arith, e))
safe_strcat-take n (x ∷ b) s2 e le h = elim (Bool-cases (x == 0)) [
  | inl z ↦ rw z (c_str-safe_strcpy n (x ∷ b) s2 e h)
  | inr z ↦
      elim n
          as (λ k.
            suc (length b) ≡ suc k
            → length (c_str (x ∷ b)) ≤ k
            → (c_str (safe_strcat (x ∷ b) s2) ≡ take k (c_str (x ∷ b) ++ s2))
              × (length (safe_strcat (x ∷ b) s2) ≡ suc k)) [
                | zero ↦ λ e' le'. absurd (ground arith)
                | suc k ↦ λ e' le'.
                    let inner : length (c_str b) ≤ k = ground arith in
                    let (text, size) = safe_strcat-take k b s2 (omega (arith, e')) inner h in
                    let step = safe_strcat-next x b s2 z in
                    (ap c_str step ∙ rw z (ap (λ w. x ∷ w) text), ap length step ∙ ap suc size)
              ]
        e le
]
