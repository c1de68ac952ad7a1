-- ===== src/Reader/Again.antt =====
-- On `print_to_string` and `read_from_string` of winsiod/sliba.c, one after the other.
use siod.Prelude.{
  ℕ, ◌+◌, ◌≤◌, ◌≡◌, refl, sym, ◌∙◌, ap, subst, inl, inr, Bool, true, false, none, some, [], ◌∷◌,
  ◌++◌, ◌==◌, arith, length, Bool-cases, get_or, codes,
}
use siod.Prelude.Int.{pos}
use mathlib.Core.List.{append-nil}
use siod.Store.{Ptr, Bytes, Obj, cons, symbol, flonum, string, State, obj, ok, set_cell}
use siod.Store.View.{obj_set_self, obj_set_other, string-ne_nil}
use siod.Machine.{Machine}
use siod.Alloc.{c_str}
use siod.Alloc.Error.{get_c_string, try_get_c_string}
use siod.Alloc.Fresh.{Ready-set_cell}
use siod.Gc.Sweep.{is_free_cell}
use siod.Symbols.Intern.{Names, Bucket}
use siod.Printer.{print_to_string}
use siod.Printer.Datum.{Datum, empty, number, name, text, pair, Shows, Shows-Same, size}
use siod.Printer.Refinement.{size_pos}
use siod.Printer.Into.{Apart, print_to_string-join}
use siod.Reader.{lreadr, readtl, read_from_string}
use siod.Reader.Tokens.{Text, rfs}
use siod.Reader.Source.{rfs-Pushback, rfs_ahead, flush-Near}
use siod.Reader.Keep.{Known, Fit, Step}
use siod.Reader.Leaf.{Any}
use siod.Reader.Readable.{words, Readable, need, Shows-Extends, Starts, words-Starts}
use siod.Reader.NoNul.{words-IsChar}
use siod.Reader.RoundTrip.{lreadr-words}

abbrev is_string : Obj → Bool
is_string (string b) = true
is_string _ = false

-- A write to a string cell leaves the symbol table, the cache and the free list as they are.
module _ (m : Machine) (s : State) (str : Ptr) {b : Bytes} (at : obj s str ≡ string b)
    (w : Bytes) where
  other_obj :
      (a : Ptr) (o : Obj)
      → is_string o ≡ false
      → obj s a ≡ o
      → obj (set_cell str (string w) s) a ≡ o
  other_obj a o no_string e = elim (Bool-cases (a == str)) [
    | inl same ↦
        let here : a ≡ str = ground arith in
        let clash = ap is_string (sym e ∙ ap (obj s) here ∙ at) in absurd (ground arith)
    | inr other ↦ obj_set_other s str a (string w) other ∙ e
  ]

  Bucket-written : (l : Ptr) (ns : Names) → Bucket s l ns → Bucket (set_cell str (string w) s) l ns
  Bucket-written l [] h = h
  Bucket-written l ((p, pname) ∷ ns) (d, v, e, g, h) = (
    d,
    v,
    other_obj l (cons p d) refl e,
    other_obj p (symbol pname v) refl g,
    Bucket-written d ns h,
  )

  Known-written : (n : Bytes) (q : Ptr) → Known m s n q → Known m (set_cell str (string w) s) n q
  Known-written n q (ns, h, found, lt) = (ns, Bucket-written _ ns h, found, lt)

  Readable-written : (t : Datum) → Readable m s t → Readable m (set_cell str (string w) s) t
  Readable-written empty r = tt
  Readable-written (number x) r = r
  Readable-written (name q n) (plain, word, short, known, other) =
      (plain, word, short, Known-written n q known, other)
  Readable-written (text n) r = r
  Readable-written (pair a d) (r, r') = (Readable-written a r, Readable-written d r')

  Fit-written : (k : ℕ) → Fit m s k → Fit m (set_cell str (string w) s) k
  Fit-written k fit = record {
    free = fit.free;
    ready = Ready-set_cell s str (string w) fit.free (ap is_free_cell at) fit.ready;
    enough = fit.enough;
    cache = λ j lt.
        other_obj (get_or s.inums j 0) (flonum (m.double.of_long (pos j))) refl (fit.cache j lt);
    dot = Known-written (codes ".") s.symbols.sym_dot fit.dot;
  }

c_str_twice : (b : Bytes) → c_str (c_str b) ≡ c_str b
unfolding c_str
c_str_twice [] = refl
c_str_twice (x ∷ b) = elim (Bool-cases (x == 0)) [
  | inl e ↦ rw e
  | inr e ↦ rw (e, e) (ap (λ w. x ∷ w) (c_str_twice b))
]

read_from_string_run :
    (m : Machine) (str p : Ptr) (f : Text) (s u : State) {w : Bytes}
    → obj s str ≡ string w
    → readtl m rfs ([], c_str w) s ≡ ok (p, f) u
    → read_from_string m str s ≡ ok p u
unfolding read_from_string get_c_string try_get_c_string
read_from_string_run m str p f s u e run = rw (e, get_c_string, read_from_string) (rw run refl)

readtl-lreadr :
    (m : Machine) (f : Text) (s : State)
    → 2 ≤ m.fuel
    → Starts (rfs_ahead f)
    → (g : Text) × (readtl m rfs f s ≡ lreadr m rfs m.fuel g s) × (rfs_ahead g ≡ rfs_ahead f)
unfolding readtl
readtl-lreadr m f s fuel starts =
    let st =
      flush-Near m rfs rfs-Pushback none starts.first starts.others f s fuel starts.solid
        (inl starts.parts) in
    (rfs.ungetc (some starts.first) st.next, rw st.returns, st.back ∙ sym starts.parts)

Shows-weaken :
    (str : Ptr) (s : State) (p : Ptr) (t : Datum) → Shows (Apart str) s p t → Shows Any s p t
Shows-weaken str s p empty h = h
Shows-weaken str s p (number x) (k, e) = (tt, e)
Shows-weaken str s p (name q b) (at, k, e) = (at, tt, e)
Shows-weaken str s p (text b) (k, e) = (tt, e)
Shows-weaken str s p (pair a d) (k, (x, y, e, g, h)) =
    (tt, (x, y, e, Shows-weaken str s x a g, Shows-weaken str s y d h))

-- Data is printed into a string with room for it and read back from it: with as many rounds as the
-- data has parts, whole numbers, names of the symbol table, no token or text longer than the buffer,
-- free cells for what is read, a valid cache and the dot in the symbol table, both calls return, and
-- what is read has the same numbers, symbols, texts and pairs, while the data itself is still there.
-- Reading changes no cell in use, no symbol table and no symbol of the program, and leaves the cells
-- free that it does not need.
pub read_from_string-print_to_string :
    (m : Machine) (t : Datum) (p str : Ptr) (b : Bytes) (s : State) (k : ℕ)
    → obj s str ≡ string b
    → Shows (Apart str) s p t
    → Readable m s t
    → size t ≤ m.fuel
    → length (words m t) ≤ length b
    → Fit m s (need t + k)
    → (u : State) × (print_to_string m p str 0 s ≡ ok str u)
      × ((q : Ptr) × (v : State) × (read_from_string m str u ≡ ok q v)
          × Shows Any v q t
          × Shows Any v p t
          × (v.symbols ≡ s.symbols)
          × Step u v
          × Fit m v k)
unfolding rfs_ahead
read_from_string-print_to_string m t p str b s k at shows readable fuel room fit =
    let chars = words-IsChar m s t readable in
    let (w, run, said, l) =
      print_to_string-join m p str 0 b s t at shows fuel chars (omega (arith, room)) in
    let u = set_cell str (string w) s in
    let kept = Shows-Same (Apart str) s u p t (λ a x. obj_set_other s str a (string w) x) shows in
    let two : 2 ≤ m.fuel = omega (arith, size_pos t) in
    let text_ahead : rfs_ahead ([], c_str w) ≡ words m t = c_str_twice w ∙ said in
    let whole : rfs_ahead ([], c_str w) ≡ words m t ++ [] =
      text_ahead ∙ sym (append-nil (words m t)) in
    let starts = subst Starts (sym whole) (words-Starts m s t [] readable) in
    let (g, run', left) = readtl-lreadr m ([], c_str w) u two starts in
    let out =
      lreadr-words m rfs rfs-Pushback m.fuel t g u [] k two fuel
        (Readable-written m s str at w t readable) (left ∙ whole) (inl refl)
        (Fit-written m s str at w (need t + k) fit) in
    (
      u,
      run,
      (
        out.result,
        out.end,
        read_from_string_run m str out.result out.next u out.end
            (obj_set_self s str (string w) (string-ne_nil s str at)) (run' ∙ out.returns),
        out.shows,
        Shows-Extends u out.end p t out.step.extends (Shows-weaken str u p t kept),
        out.step.same_symbols,
        out.step,
        out.fit,
      ),
    )
