-- ===== src/Reader/Numeral.antt =====
-- On numbers as `lprin1g` of winsiod/slib.c writes them and `lreadtk` takes them.
use siod.Prelude.{
  ℕ, zero, suc, ◌+◌, ◌/◌, ◌%◌, ◌≡◌, refl, sym, true, false, [], ◌∷◌, ◌++◌, ◌==◌, subst, ltb, arith,
  All, Bool-cases, inl, inr,
}
use siod.Prelude.Int.{ℤ, pos, negsuc}
use siod.Store.{Bytes}
use siod.Alloc.{digits_of}
use siod.Printer.{long_text}
use siod.Reader.Chars.{
  is_space, is_digit, ends_token, strchr, skip_digits, starts_digit, skip_minus, fraction,
  number_token,
}
use siod.Reader.Token.{IsTokenChar}

abbrev IsDigit : ℕ → Type 0
IsDigit c = is_digit c ≡ true

IsDigit-token : (c : ℕ) → IsDigit c → IsTokenChar c
unfolding is_digit is_space ends_token strchr
IsDigit-token c h = (ground arith, ground arith)

All-token : (cs : Bytes) → All IsDigit cs → All IsTokenChar cs
All-token [] h = tt
All-token (c ∷ cs) (h, hs) = (IsDigit-token c h, All-token cs hs)

All-snoc : (cs : Bytes) (c : ℕ) → All IsDigit cs → IsDigit c → All IsDigit (cs ++ (c ∷ []))
All-snoc [] c h k = (k, tt)
All-snoc (d ∷ cs) c (h, hs) k = (h, All-snoc cs c hs k)

digits_of-IsDigit : (k n : ℕ) → All IsDigit (digits_of k n)
unfolding digits_of is_digit
digits_of-IsDigit zero n = tt
digits_of-IsDigit (suc k) n = elim (Bool-cases (ltb n 10)) [
  | inl small ↦ rw small (ground arith, tt)
  | inr big ↦ rw big (
      All-snoc (digits_of k (n / 10)) (b'0' + n % 10) (digits_of-IsDigit k (n / 10)) (ground arith))
]

snoc-cons : (xs : Bytes) (y : ℕ) → (c : ℕ) × (cs : Bytes) × (xs ++ (y ∷ []) ≡ c ∷ cs)
snoc-cons [] y = (y, [], refl)
snoc-cons (x ∷ xs) y = (x, xs ++ (y ∷ []), refl)

digits_of-cons : (k n : ℕ) → (c : ℕ) × (cs : Bytes) × (digits_of (suc k) n ≡ c ∷ cs)
unfolding digits_of
digits_of-cons k n = elim (Bool-cases (ltb n 10)) [
  | inl small ↦ (b'0' + n, [], rw small)
  | inr big ↦ let (c, cs, e) = snoc-cons (digits_of k (n / 10)) (b'0' + n % 10) in (c, cs, rw big e)
]

skip_all : (cs : Bytes) → All IsDigit cs → skip_digits cs ≡ []
unfolding skip_digits
skip_all [] h = refl
skip_all (c ∷ cs) (h, hs) = rw h (skip_all cs hs)

-- A text of digits, at least one, is a number; so it is with a minus in front.
digits_number : (c : ℕ) (cs : Bytes) → All IsDigit (c ∷ cs) → number_token (c ∷ cs) ≡ true
unfolding number_token skip_minus skip_digits starts_digit fraction is_digit
digits_number c cs (h, hs) =
    let no_minus : (c == b'-') ≡ false = ground arith in rw (no_minus, h, skip_all cs hs)

minus_number : (c : ℕ) (cs : Bytes) → All IsDigit (c ∷ cs) → number_token (b'-' ∷ c ∷ cs) ≡ true
unfolding number_token skip_minus skip_digits starts_digit fraction
minus_number c cs (h, hs) = rw (h, skip_all cs hs)

-- A token as the reader takes it: the first character opens no other syntax.
pub record IsPlain (t : Bytes) : Type 0 where
  pub first : ℕ
  pub others : Bytes
  pub parts : t ≡ first ∷ others
  pub inside : All IsTokenChar t
  pub no_sharp : (first == b'#') ≡ false

-- A whole number is written as a token that is a number.
pub long_text-number : (z : ℤ) → IsPlain (long_text z) × (number_token (long_text z) ≡ true)
unfolding long_text is_digit is_space ends_token strchr
long_text-number (pos n) =
    let (c, cs, e) = digits_of-cons n n in
    let digits : All IsDigit (c ∷ cs) = subst (All IsDigit) e (digits_of-IsDigit (suc n) n) in
    let (h, hs) = digits in
    (
      record {
        first = c;
        others = cs;
        parts = e;
        inside = All-token (digits_of (suc n) n) (digits_of-IsDigit (suc n) n);
        no_sharp = ground arith;
      },
      subst (λ t. number_token t ≡ true) (sym e) (digits_number c cs digits),
    )
long_text-number (negsuc n) =
    let (c, cs, e) = digits_of-cons (suc n) (suc n) in
    let digits : All IsDigit (c ∷ cs) =
      subst (All IsDigit) e (digits_of-IsDigit (suc (suc n)) (suc n)) in
    (
      record {
        first = b'-';
        others = digits_of (suc (suc n)) (suc n);
        parts = refl;
        inside = (
          (refl, refl),
          All-token (digits_of (suc (suc n)) (suc n)) (digits_of-IsDigit (suc (suc n)) (suc n)),
        );
        no_sharp = refl;
      },
      subst (λ t. number_token (b'-' ∷ t) ≡ true) (sym e) (minus_number c cs digits),
    )
