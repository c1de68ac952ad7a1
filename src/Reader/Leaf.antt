-- ===== src/Reader/Leaf.antt =====
-- On `lreadtk` of winsiod/slib.c at a name and at a whole number.
use siod.Prelude.{
  ℕ, suc, ◌<◌, ◌≡◌, refl, sym, ◌∙◌, ap, inl, inr, true, false, [], ◌∷◌, ◌==◌, arith, length, All,
  Option-cases, get_or,
}
use siod.Prelude.Int.{pos}
use siod.Store.{Ptr, Bytes, Bits, flonum, State, obj, Run, ok}
use siod.Machine.{Machine}
use siod.Alloc.{c_str}
use siod.Alloc.Fresh.{alloc-Fresh}
use siod.Number.{flocons, small_index}
use siod.Number.Small.{small_index_lem, flocons_cached, flocons_fresh}
use siod.Printer.{long_text, flonum_text}
use siod.Printer.Datum.{Datum, Shows}
use siod.Reader.Chars.{ends_token, strchr, number_token}
use siod.Reader.Tokens.{GenReadio, tkbuffern, lreadtk}
use siod.Reader.Source.{Pushback, Past}
use siod.Reader.Token.{IsTokenChar}
use siod.Reader.Keep.{
  Step, Step-refl, Fresh-Step, Known, gen_intern-Known, Fit, Fit-less, Fit-Step, Fit-cell,
}

abbrev pub Any : Ptr → Type 0
Any p = Unit

-- What a run of the reader gives for the data, with this text behind it and so many cells left.
pub record ReadOut (m : Machine) (io : GenReadio) (law : Pushback io) (s : State)
    (run : Run (Ptr × io.Source)) (t : Datum) (rest : Bytes) (k : ℕ) : Type 0 where
  pub result : Ptr
  pub next : io.Source
  pub end : State
  pub returns : run ≡ ok (result, next) end
  pub left : Past rest (law.ahead next)
  pub shows : Shows Any end result t
  pub fit : Fit m end k
  pub step : Step s end

-- A whole number, of fewer digits than the buffer holds, that `atof` reads from its own digits.
pub record Whole (m : Machine) (x : Bits) : Type 0 where
  pub exact : m.double.of_long (m.double.to_long x) ≡ x
  pub reflexive : m.double.eq x x ≡ true
  pub atof : m.double.of_text (long_text (m.double.to_long x)) ≡ x
  pub short : length (long_text (m.double.to_long x)) < tkbuffern

pub flonum_text-Whole :
    (m : Machine) (x : Bits) → Whole m x → flonum_text m x ≡ long_text (m.double.to_long x)
unfolding flonum_text
flonum_text-Whole m x w =
    let e : m.double.eq (m.double.of_long (m.double.to_long x)) x ≡ true =
      ap (λ y. m.double.eq y x) w.exact ∙ w.reflexive in
    rw e

c_str-token : (t : Bytes) → All IsTokenChar t → c_str t ≡ t
unfolding c_str ends_token strchr
c_str-token [] h = refl
c_str-token (c ∷ cs) ((blank, ends), hs) =
    let pos : (c == 0) ≡ false = ground arith in rw pos (ap (λ w. c ∷ w) (c_str-token cs hs))

pub lreadtk-number :
    (m : Machine) (t : Bytes) (s : State)
    → All IsTokenChar t
    → number_token t ≡ true
    → lreadtk m t s ≡ flocons m (m.double.of_text t) s
unfolding lreadtk
lreadtk-number m t s h e = rw (c_str-token t h, e)

pub lreadtk-name :
    (m : Machine) (t : Bytes) (q : Ptr) (s : State)
    → All IsTokenChar t
    → number_token t ≡ false
    → Known m s t q
    → lreadtk m t s ≡ ok q s
unfolding lreadtk
lreadtk-name m t q s h e k = rw (c_str-token t h, e) (gen_intern-Known m s t q k)

-- `flocons` of a whole number gives a cell that holds it.
pub flocons-Whole :
    (m : Machine) (x : Bits) (s : State) (k : ℕ)
    → Whole m x
    → Fit m s (suc k)
    → (p : Ptr) × (u : State) × (flocons m x s ≡ ok p u)
      × (obj u p ≡ flonum x)
      × Fit m u k
      × Step s u
flocons-Whole m x s k whole fit = elim (Option-cases (small_index m x s)) [
  | inl e ↦
      let (p, xs, r, le) = Fit-cell m s k fit in
      let (t, g, f) = alloc-Fresh m (flonum x) s r in
      (
        p,
        t,
        flocons_fresh m x s e ∙ g,
        f.holds,
        Fit-Step m s t k (Fresh-Step f) fit f.ready le,
        Fresh-Step f,
      )
  | inr (j, e) ↦
      let (at, near, lt) = small_index_lem m x s j e in
      let same : m.double.of_long (pos j) ≡ x = ap m.double.of_long (sym at) ∙ whole.exact in
      (
        get_or s.inums j 0,
        s,
        flocons_cached m x s j e,
        fit.cache j lt ∙ ap flonum same,
        Fit-less m s k (suc k) (omega arith) fit,
        Step-refl s,
      )
]
