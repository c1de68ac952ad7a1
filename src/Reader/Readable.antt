-- ===== src/Reader/Readable.antt =====
-- Data that `lreadr` of winsiod/slib.c reads as it stands, and its text.
use siod.Prelude.{
  ℕ, suc, ◌+◌, ◌<◌, ◌≡◌, refl, sym, ◌∙◌, ap, subst, inl, inr, false, List, [], ◌∷◌, ◌++◌, ◌==◌,
  arith, length, All, Bool-cases, map,
}
use mathlib.Core.List.{append_assoc, append-nil}
use siod.Store.{Ptr, Bytes, symbol, State, obj}
use siod.Store.View.{symbol-ne_nil}
use siod.Machine.{Machine}
use siod.Gc.Sweep.{is_free_cell}
use siod.Alloc.{c_str}
use siod.Alloc.Fresh.{Extends}
use siod.Printer.{escape, is_plain, flonum_text, long_text}
use siod.Printer.Datum.{
  Datum, empty, number, name, text, pair, Shows, chunks, rest_chunks, text_chunks, dotted,
}
use siod.Printer.Into.{join}
use siod.Reader.Chars.{is_space, ends_token, strchr, number_token}
use siod.Reader.Tokens.{tkbuffern}
use siod.Reader.Source.{IsSolid, Stops}
use siod.Reader.Token.{IsTokenChar}
use siod.Reader.Quoted.{IsByte, written}
use siod.Reader.Numeral.{IsPlain, long_text-number}
use siod.Reader.Keep.{Step, Known, Known-symbol, Known-Step, Fit}
use siod.Reader.Leaf.{Any, Whole, flonum_text-Whole}

-- The text of the data, and of the data as the tail of a list.
abbrev pub words : Machine → Datum → Bytes
words m t = join (chunks m t)

abbrev pub tail_words : Machine → Datum → Bytes
tail_words m t = join (rest_chunks m t)

-- Whole numbers; names that are no numbers and that the symbol table gives the symbol for, which is
-- not the dot of the lists; texts of bytes; none longer than the buffer of the reader.
abbrev pub Readable : Machine → State → Datum → Type 0
Readable m s empty = Unit
Readable m s (number x) = Whole m x
Readable m s (name q b) =
    IsPlain b
    × (number_token b ≡ false)
    × (length b < tkbuffern)
    × Known m s b q
    × ((q == s.symbols.sym_dot) ≡ false)
Readable m s (text b) = All IsByte b × (length b < tkbuffern)
Readable m s (pair a d) = Readable m s a × Readable m s d

-- The cells that reading the data takes at most.
abbrev pub need : Datum → ℕ
need (number x) = 1
need (text b) = 1
need (pair a d) = suc (need a + need d)
need _ = 0

pub Readable-Step :
    (m : Machine) (s u : State) (t : Datum) → Step s u → Readable m s t → Readable m u t
Readable-Step m s u empty f r = tt
Readable-Step m s u (number x) f r = r
Readable-Step m s u (name q b) f (plain, word, short, known, other) = (
  plain,
  word,
  short,
  Known-Step m s u b q f known,
  ap (λ y. q == y.sym_dot) f.same_symbols ∙ other,
)
Readable-Step m s u (text b) f r = r
Readable-Step m s u (pair a d) f (r, r') = (Readable-Step m s u a f r, Readable-Step m s u d f r')

pub Shows-Extends :
    (s u : State) (p : Ptr) (t : Datum) → Extends s u → Shows Any s p t → Shows Any u p t
Shows-Extends s u p empty f h = h
Shows-Extends s u p (number x) f (k, e) = (tt, f p (ap is_free_cell e) ∙ e)
Shows-Extends s u p (name q b) f (at, k, (v, e)) = (at, tt, (v, f p (ap is_free_cell e) ∙ e))
Shows-Extends s u p (text b) f (k, e) = (tt, f p (ap is_free_cell e) ∙ e)
Shows-Extends s u p (pair a d) f (k, (x, y, e, g, h)) =
    (tt, (x, y, f p (ap is_free_cell e) ∙ e, Shows-Extends s u x a f g, Shows-Extends s u y d f h))

-- What was read is not the dot.
pub Shows-no_dot :
    (m : Machine) (s : State) (p : Ptr) (t : Datum) {k : ℕ}
    → Fit m s k
    → Readable m s t
    → Shows Any s p t
    → (p == s.symbols.sym_dot) ≡ false
Shows-no_dot m s p t fit r shows =
    let (v, dot) = Known-symbol m s (46 ∷ []) s.symbols.sym_dot fit.dot in
    elim (Bool-cases (p == s.symbols.sym_dot)) [
      | inr other ↦ other
      | inl same ↦
          let at : p ≡ s.symbols.sym_dot = ground arith in
          absurd (clash t r shows at (ap (obj s) at ∙ dot))
    ]
  where
    clash :
        (t : Datum)
        → Readable m s t
        → Shows Any s p t
        → p ≡ s.symbols.sym_dot
        → {b : Bytes} {v : Ptr} → obj s p ≡ symbol b v
        → ⊥
    clash empty r h at e = ground (arith, symbol-ne_nil s p e)
    clash (number x) r (k, h) at e = ground arith
    clash (name q b) (plain, word, short, known, other) (h, k, l) at e = ground arith
    clash (text b) r (k, h) at e = ground arith
    clash (pair a d) r (k, (x, y, h, g, i)) at e = ground arith

join-append : (xs ys : List Bytes) → join (xs ++ ys) ≡ join xs ++ join ys
join-append [] ys = refl
join-append (x ∷ xs) ys =
    ap (λ w. x ++ w) (join-append xs ys) ∙ sym (append_assoc x (join xs) (join ys))

pub words-pair :
    (m : Machine) (a d : Datum) → words m (pair a d) ≡ 40 ∷ (words m a ++ tail_words m d)
unfolding chunks
words-pair m a d = ap (λ w. 40 ∷ w) (join-append (chunks m a) (rest_chunks m d))

pub tail_words-pair :
    (m : Machine) (a d : Datum) → tail_words m (pair a d) ≡ 32 ∷ (words m a ++ tail_words m d)
unfolding rest_chunks
tail_words-pair m a d = ap (λ w. 32 ∷ w) (join-append (chunks m a) (rest_chunks m d))

c_str-bytes : (b : Bytes) → All IsByte b → c_str b ≡ b
unfolding c_str
c_str-bytes [] h = refl
c_str-bytes (c ∷ cs) ((pos, lt), hs) = rw pos (ap (λ w. c ∷ w) (c_str-bytes cs hs))

pub words-text : (m : Machine) (b : Bytes) → All IsByte b → words m (text b) ≡ 34 ∷ written b
unfolding chunks
words-text m b h =
    ap (λ w. join (text_chunks w)) (c_str-bytes b h) ∙ elim (Bool-cases (is_plain b)) [
      | inl e ↦ rw e
      | inr e ↦ rw e (ap (λ w. 34 ∷ w) (join-append (map escape b) ((34 ∷ []) ∷ [])))
    ]

-- The tail of a list that is neither a pair nor the end.
pub dotted_words : (xs : List Bytes) → join (dotted xs) ≡ 32 ∷ 46 ∷ 32 ∷ (join xs ++ (41 ∷ []))
dotted_words xs = ap (λ w. 32 ∷ 46 ∷ 32 ∷ w) (join-append xs ((41 ∷ []) ∷ []))

pub tail_words-Stops : (m : Machine) (t : Datum) (rest : Bytes) → Stops (tail_words m t ++ rest)
unfolding rest_chunks
tail_words-Stops m empty rest = inr (inr (rest, refl))
tail_words-Stops m (number x) rest = inr (inl (_, refl))
tail_words-Stops m (name q b) rest = inr (inl (_, refl))
tail_words-Stops m (text b) rest = inr (inl (_, refl))
tail_words-Stops m (pair a d) rest = inr (inl (_, refl))

-- The text starts with a character that neither is skipped nor closes a list.
pub record Starts (w : Bytes) : Type 0 where
  pub first : ℕ
  pub others : Bytes
  pub parts : w ≡ first ∷ others
  pub solid : IsSolid first
  pub opens : (first == b')') ≡ false

IsPlain-Starts : (b : Bytes) → IsPlain b → Starts b
unfolding ends_token strchr
IsPlain-Starts b plain =
    let (h, hs) : All IsTokenChar (plain.first ∷ plain.others) =
      subst (All IsTokenChar) plain.parts plain.inside in
    let (blank, ends) = h in
    record {
      first = plain.first;
      others = plain.others;
      parts = plain.parts;
      solid = ground arith;
      opens = ground arith;
    }

Starts-append : (w rest : Bytes) → Starts w → Starts (w ++ rest)
Starts-append w rest h = record {
  first = h.first;
  others = h.others ++ rest;
  parts = ap (λ x. x ++ rest) h.parts;
  solid = h.solid;
  opens = h.opens;
}

pub words-Starts :
    (m : Machine) (s : State) (t : Datum) (rest : Bytes)
    → Readable m s t
    → Starts (words m t ++ rest)
unfolding chunks is_space
words-Starts m s empty rest r = record {
  first = 40;
  others = 41 ∷ rest;
  parts = refl;
  solid = refl;
  opens = refl;
}
words-Starts m s (number x) rest r =
    let (plain, is_number) = long_text-number (m.double.to_long x) in
    Starts-append (words m (number x)) rest (
      subst Starts (sym (append-nil (flonum_text m x) ∙ flonum_text-Whole m x r))
        (IsPlain-Starts (long_text (m.double.to_long x)) plain))
words-Starts m s (name q b) rest (plain, word, short, known, other) =
    Starts-append (words m (name q b)) rest
      (subst Starts (sym (append-nil b)) (IsPlain-Starts b plain))
words-Starts m s (text b) rest r = record {
  first = 34;
  others = _;
  parts = refl;
  solid = refl;
  opens = refl;
}
words-Starts m s (pair a d) rest r = record {
  first = 40;
  others = _;
  parts = refl;
  solid = refl;
  opens = refl;
}
