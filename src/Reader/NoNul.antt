-- ===== src/Reader/NoNul.antt =====
-- On the texts that `lprin1g` of winsiod/slib.c puts: they are C strings.
use siod.Prelude.{
  ℕ, ◌≡◌, refl, sym, ◌∙◌, subst, inl, inr, [], ◌∷◌, ◌++◌, arith, All, Bool-cases, map,
}
use mathlib.Core.List.{append-nil}
use siod.Store.{Bytes, State}
use siod.Machine.{Machine}
use siod.Printer.{escape, is_plain, flonum_text, long_text}
use siod.Printer.Datum.{Datum, empty, number, name, text, pair, chunks, rest_chunks, dotted}
use siod.Printer.Into.{IsChar, join}
use siod.Reader.Chars.{ends_token, strchr}
use siod.Reader.Token.{IsTokenChar}
use siod.Reader.Quoted.{IsByte, written}
use siod.Reader.Numeral.{long_text-number}
use siod.Reader.Leaf.{flonum_text-Whole}
use siod.Reader.Readable.{
  words, tail_words, Readable, words-pair, tail_words-pair, words-text, dotted_words,
}

IsTokenChar-IsChar : (cs : Bytes) → All IsTokenChar cs → All IsChar cs
unfolding ends_token strchr
IsTokenChar-IsChar [] h = tt
IsTokenChar-IsChar (c ∷ cs) ((blank, ends), hs) = (ground arith, IsTokenChar-IsChar cs hs)

IsByte-IsChar : (cs : Bytes) → All IsByte cs → All IsChar cs
IsByte-IsChar [] h = tt
IsByte-IsChar (c ∷ cs) ((some_byte, lt), hs) = (some_byte, IsByte-IsChar cs hs)

All-append : (xs ys : Bytes) → All IsChar xs → All IsChar ys → All IsChar (xs ++ ys)
All-append [] ys h k = k
All-append (x ∷ xs) ys (h, hs) k = (h, All-append xs ys hs k)

escape-IsChar : (c : ℕ) → IsChar c → All IsChar (escape c)
unfolding escape
escape-IsChar c h = ground arith

escapes-IsChar : (cs : Bytes) → All IsByte cs → All IsChar (join (map escape cs))
escapes-IsChar [] h = tt
escapes-IsChar (c ∷ cs) ((some_byte, lt), hs) =
    All-append (escape c) (join (map escape cs)) (escape-IsChar c some_byte) (escapes-IsChar cs hs)

written-IsChar : (b : Bytes) → All IsByte b → All IsChar (written b)
written-IsChar b h = elim (Bool-cases (is_plain b)) [
  | inl e ↦ rw e (All-append b (34 ∷ []) (IsByte-IsChar b h) (refl, tt))
  | inr e ↦ rw e (All-append (join (map escape b)) (34 ∷ []) (escapes-IsChar b h) (refl, tt))
]

-- The text of the data and its text as a tail have no NUL.
abbrev Clean : Machine → Datum → Type 0
Clean m t = All IsChar (words m t) × All IsChar (tail_words m t)

atom-Clean :
    (m : Machine) (t : Datum)
    → tail_words m t ≡ join (dotted (chunks m t))
    → All IsChar (words m t)
    → Clean m t
atom-Clean m t e h =
    let closed = All-append (words m t) (41 ∷ []) h (refl, tt) in
    (h, subst (All IsChar) (sym (e ∙ dotted_words (chunks m t))) (refl, (refl, (refl, closed))))

Readable-Clean : (m : Machine) (s : State) (t : Datum) → Readable m s t → Clean m t
unfolding chunks rest_chunks
Readable-Clean m s empty r = ((refl, (refl, tt)), (refl, tt))
Readable-Clean m s (number x) r =
    let (plain, is_number) = long_text-number (m.double.to_long x) in
    let same = append-nil (flonum_text m x) ∙ flonum_text-Whole m x r in
    atom-Clean m (number x) refl (
      subst (All IsChar) (sym same)
        (IsTokenChar-IsChar (long_text (m.double.to_long x)) plain.inside))
Readable-Clean m s (name q b) (plain, word, short, known, other) =
    atom-Clean m (name q b) refl
      (subst (All IsChar) (sym (append-nil b)) (IsTokenChar-IsChar b plain.inside))
Readable-Clean m s (text b) (bytes, short) =
    atom-Clean m (text b) refl
      (subst (All IsChar) (sym (words-text m b bytes)) (refl, written-IsChar b bytes))
Readable-Clean m s (pair a d) (r, r') =
    let (ha, ta) = Readable-Clean m s a r in
    let (hd, td) = Readable-Clean m s d r' in
    let parts = All-append (words m a) (tail_words m d) ha td in
    (
      subst (All IsChar) (sym (words-pair m a d)) (refl, parts),
      subst (All IsChar) (sym (tail_words-pair m a d)) (refl, parts),
    )

pub words-IsChar : (m : Machine) (s : State) (t : Datum) → Readable m s t → All IsChar (words m t)
words-IsChar m s t r = let (whole, tail) = Readable-Clean m s t r in whole
