-- ===== src/Reader/Listing.antt =====
-- On `lreadparen` of winsiod/slib.c.
use siod.Prelude.{
  ℕ, suc, ◌+◌, ◌≤◌, ◌≡◌, refl, sym, ◌∙◌, subst, inl, inr, true, false, some, [], ◌∷◌, ◌++◌, ◌==◌,
  arith, codes,
}
use siod.Store.{Ptr, Bytes, State, ok, Cmd}
use siod.Machine.{Machine}
use siod.Alloc.Error.{cons_cell}
use siod.Lists.Shape.{cons_cell-Fresh}
use siod.Printer.Datum.{Datum, empty, pair, rest_chunks}
use siod.Reader.{lreadr, lreadparen, read_element, close_dotted}
use siod.Reader.Chars.{
  is_space, ends_token, strchr, number_token, skip_minus, skip_digits, starts_digit, fraction,
  is_digit,
}
use siod.Reader.Tokens.{GenReadio}
use siod.Reader.Source.{Pushback, Near, Past, Stops, flush-Near}
use siod.Reader.Numeral.{IsPlain}
use siod.Reader.Keep.{Step-refl, Step-trans, Fresh-Step, Fit, Fit-less, Fit-Step, Fit-cell}
use siod.Reader.Atoms.{read_name}
use siod.Reader.Leaf.{ReadOut}
use siod.Reader.Readable.{
  words, tail_words, Readable, need, Readable-Step, Shows-Extends, Shows-no_dot, tail_words-Stops,
  Starts, words-Starts,
}

-- Behind a blank that may have been taken, the text comes next.
pub Past-Near : (w ahead : Bytes) → Past (32 ∷ w) ahead → Near ahead w
Past-Near w ahead (inl e) = inr e
Past-Near w ahead (inr e) = inl (ground arith)

pub Past-paren : (w ahead : Bytes) → Past (41 ∷ w) ahead → Near ahead (41 ∷ w)
Past-paren w ahead (inl e) = inl e
Past-paren w ahead (inr e) = absurd (ground arith)

-- The dot of the lists as a token.
dot-Starts : (w : Bytes) → Starts (46 ∷ w)
unfolding is_space
dot-Starts w = record { first = 46; others = w; parts = refl; solid = refl; opens = refl }

dot-IsPlain : IsPlain (codes ".")
unfolding is_space ends_token strchr
dot-IsPlain = record {
  first = 46;
  others = [];
  parts = refl;
  inside = ((refl, refl), tt);
  no_sharp = refl;
}

dot_number : number_token (codes ".") ≡ false
unfolding number_token skip_minus skip_digits starts_digit fraction is_digit
dot_number = refl

module _ (m : Machine) (io : GenReadio) (law : Pushback io) (fuel : 2 ≤ m.fuel) where
  lreadparen-close :
      (n : ℕ) (cs : Bytes) (f : io.Source) (s : State)
      → Near (law.ahead f) (41 ∷ cs)
      → (g : io.Source) × (lreadparen m io (suc n) f s ≡ ok (0, g) s) × (law.ahead g ≡ cs)
  unfolding lreadparen is_space
  lreadparen-close n cs f s near =
      let st = flush-Near m io law (some "end of file inside list") 41 cs f s fuel refl near in
      (st.next, rw (st.returns, lreadparen), st.left)

  lreadparen-element :
      (n : ℕ) (w : Bytes) (f : io.Source) (s : State)
      → Starts w
      → Near (law.ahead f) w
      → (g : io.Source) × (lreadparen m io (suc n) f s
          ≡ read_element m io (lreadr m io n) (lreadparen m io n) g s)
        × (law.ahead g ≡ w)
  unfolding lreadparen
  lreadparen-element n w f s starts near =
      let c = starts.first in
      let cs = starts.others in
      let at : Near (law.ahead f) (c ∷ cs) = subst (Near (law.ahead f)) starts.parts near in
      let st = flush-Near m io law (some "end of file inside list") c cs f s fuel starts.solid at in
      (
        io.ungetc (some c) st.next,
        rw (st.returns, starts.opens, lreadparen),
        st.back ∙ sym starts.parts,
      )

  element_run :
      (read paren : io.Source → Cmd (Ptr × io.Source)) (f g h : io.Source) (x l p : Ptr)
      (s u v w : State)
      → read f s ≡ ok (x, g) u
      → (x == u.symbols.sym_dot) ≡ false
      → paren g u ≡ ok (l, h) v
      → cons_cell m x l v ≡ ok p w
      → read_element m io read paren f s ≡ ok (p, h) w
  unfolding read_element
  element_run read paren f g h x l p s u v w r other t c = rw (r, other, t, c)

  dotted_run :
      (read paren : io.Source → Cmd (Ptr × io.Source)) (f g h k : io.Source) (x y : Ptr)
      (s u v : State)
      → read f s ≡ ok (x, g) u
      → (x == u.symbols.sym_dot) ≡ true
      → read g u ≡ ok (y, h) v
      → close_dotted m io y h v ≡ ok (y, k) v
      → read_element m io read paren f s ≡ ok (y, k) v
  unfolding read_element
  dotted_run read paren f g h k x y s u v r dot t c = rw (r, dot, t, c)

  close_dotted_run :
      (y : Ptr) (f : io.Source) (s : State) (cs : Bytes)
      → Near (law.ahead f) (41 ∷ cs)
      → (g : io.Source) × (close_dotted m io y f s ≡ ok (y, g) s) × (law.ahead g ≡ cs)
  unfolding close_dotted is_space
  close_dotted_run y f s cs near =
      let st = flush-Near m io law (some "end of file inside list") 41 cs f s fuel refl near in
      (st.next, rw st.returns, st.left)

  -- With so many rounds, `lreadr` reads the text of the data, and `lreadparen` its text as a tail.
  abbrev pub Reads : ℕ → Datum → Type 0
  Reads n t =
      (f : io.Source) (s : State) (rest : Bytes) (k : ℕ)
      → Readable m s t
      → Near (law.ahead f) (words m t ++ rest)
      → Stops rest
      → Fit m s (need t + k)
      → ReadOut m io law s (lreadr m io n f s) t rest k

  abbrev pub ReadsTail : ℕ → Datum → Type 0
  ReadsTail n t =
      (f : io.Source) (s : State) (rest : Bytes) (k : ℕ)
      → Readable m s t
      → Past (tail_words m t ++ rest) (law.ahead f)
      → Fit m s (need t + k)
      → ReadOut m io law s (lreadparen m io n f s) t rest k

  -- A pair is read as an element and the tail after it.
  pub list_pair :
      (n : ℕ) (a d : Datum) (f : io.Source) (s : State) (rest : Bytes) (k : ℕ)
      → Reads n a
      → ReadsTail n d
      → Readable m s (pair a d)
      → Near (law.ahead f) (words m a ++ (tail_words m d ++ rest))
      → Fit m s (need (pair a d) + k)
      → ReadOut m io law s (lreadparen m io (suc n) f s) (pair a d) rest k
  list_pair n a d f s rest k reads tails (ra, rd) near fit =
      let after = tail_words m d ++ rest in
      let (g, run, at) =
        lreadparen-element n (words m a ++ after) f s (words-Starts m s a after ra) near in
      let fit' : Fit m s (need a + (need d + suc k)) = subst (Fit m s) (omega arith) fit in
      let one = reads g s after (need d + suc k) ra (inl at) (tail_words-Stops m d rest) fit' in
      let ra' = Readable-Step m s one.end a one.step ra in
      let rd' = Readable-Step m s one.end d one.step rd in
      let two = tails one.next one.end rest (suc k) rd' one.left one.fit in
      let (p, xs, r, le) = Fit-cell m two.end k two.fit in
      let (w, made, fresh) = cons_cell-Fresh m one.result two.result two.end r in
      let last = Fresh-Step fresh in
      record {
        result = p;
        next = two.next;
        end = w;
        returns =
            run
            ∙ element_run (lreadr m io n) (lreadparen m io n) g one.next two.next one.result
                two.result p s one.end two.end w one.returns
                (Shows-no_dot m one.end one.result a one.fit ra' one.shows) two.returns made;
        left = two.left;
        shows = (
          tt,
          (
            one.result,
            two.result,
            fresh.holds,
            Shows-Extends one.end w one.result a (Step-trans two.step last).extends one.shows,
            Shows-Extends two.end w two.result d last.extends two.shows,
          ),
        );
        fit = Fit-Step m two.end w k last two.fit fresh.ready le;
        step = Step-trans one.step (Step-trans two.step last);
      }

  pub tail_empty : (n : ℕ) → ReadsTail (suc n) empty
  unfolding rest_chunks
  tail_empty n f s rest k r past fit =
      let (g, run, left) = lreadparen-close n rest f s (Past-paren rest (law.ahead f) past) in
      record {
        result = 0;
        next = g;
        end = s;
        returns = run;
        left = inl left;
        shows = refl;
        fit = Fit-less m s k (0 + k) (omega arith) fit;
        step = Step-refl s;
      }

  pub tail_dotted :
      (n : ℕ) (t : Datum) (f : io.Source) (s : State) (rest : Bytes) (k : ℕ)
      → Reads (suc n) t
      → Readable m s t
      → Near (law.ahead f) (46 ∷ 32 ∷ (words m t ++ (41 ∷ rest)))
      → Fit m s (need t + k)
      → ReadOut m io law s (lreadparen m io (suc (suc n)) f s) t rest k
  tail_dotted n t f s rest k reads r near fit =
      let after = 32 ∷ (words m t ++ (41 ∷ rest)) in
      let (g, run, at) = lreadparen-element (suc n) (46 ∷ after) f s (dot-Starts after) near in
      let one =
        read_name m io law fuel n s.symbols.sym_dot (codes ".") g s after (need t + k) dot-IsPlain
          dot_number (omega arith) fit.dot (inl at) (inr (inl (_, refl))) fit in
      let (same, any, known) = one.shows in
      let is_dot : (one.result == one.end.symbols.sym_dot) ≡ true =
        subst (λ y. (one.result == y.sym_dot) ≡ true) (sym one.step.same_symbols) (ground arith) in
      let two =
        reads one.next one.end (41 ∷ rest) k (Readable-Step m s one.end t one.step r)
          (Past-Near (words m t ++ (41 ∷ rest)) (law.ahead one.next) one.left)
          (inr (inr (rest, refl))) one.fit in
      let (h, close, left) =
        close_dotted_run two.result two.next two.end rest
          (Past-paren rest (law.ahead two.next) two.left) in
      record {
        result = two.result;
        next = h;
        end = two.end;
        returns =
            run
            ∙ dotted_run (lreadr m io (suc n)) (lreadparen m io (suc n)) g one.next two.next h
                one.result two.result s one.end two.end one.returns is_dot two.returns close;
        left = inl left;
        shows = two.shows;
        fit = two.fit;
        step = Step-trans one.step two.step;
      }
