-- ===== src/Reader/Atoms.antt =====
-- On `lreadr` of winsiod/slib.c at a token or a text.
use siod.Prelude.{
  ℕ, suc, ◌-◌, ◌≤◌, ◌<◌, ◌≡◌, refl, sym, ◌∙◌, ap, subst, inl, false, some, [], ◌∷◌, ◌++◌, ◌==◌,
  arith, length, All,
}
use siod.Store.{Ptr, Bytes, Bits, string, State, ok, Cmd, and_then}
use siod.Machine.{Machine}
use siod.Alloc.Error.{strcons}
use siod.Alloc.Fresh.{alloc-Fresh}
use siod.Number.{flocons}
use siod.Printer.{long_text, flonum_text}
use siod.Printer.Datum.{number, name, text}
use siod.Reader.{lreadr, lreadparen, read_at}
use siod.Reader.Chars.{is_space, ends_token, strchr, number_token}
use siod.Reader.Tokens.{GenReadio, tkbuffern, lreadtk, token_loop, string_loop, lreadstring}
use siod.Reader.Source.{Pushback, Near, Past, Stops, IsSolid, flush-Near}
use siod.Reader.Token.{IsTokenChar, token_loop-Stops}
use siod.Reader.Quoted.{IsByte, written, string_loop-written}
use siod.Reader.Numeral.{IsPlain, long_text-number}
use siod.Reader.Keep.{Step-refl, Fresh-Step, Known, Known-symbol, Fit, Fit-Step, Fit-cell}
use siod.Reader.Leaf.{
  ReadOut, Whole, flocons-Whole, flonum_text-Whole, lreadtk-name, lreadtk-number,
}

IsTokenChar-IsSolid : (c : ℕ) → IsTokenChar c → IsSolid c
unfolding ends_token strchr
IsTokenChar-IsSolid c (blank, ends) = ground arith

module _ (m : Machine) (io : GenReadio) (law : Pushback io) (fuel : 2 ≤ m.fuel) where
  pub lreadr-at :
      (n c : ℕ) (cs : Bytes) (f : io.Source) (s : State)
      → IsSolid c
      → Near (law.ahead f) (c ∷ cs)
      → (g : io.Source) × (lreadr m io (suc n) f s
          ≡ read_at m io (lreadr m io n) (lreadparen m io n) c g s)
        × (law.ahead g ≡ cs)
  unfolding lreadr
  lreadr-at n c cs f s solid near =
      let st = flush-Near m io law (some "end of file inside read") c cs f s fuel solid near in
      (st.next, rw (st.returns, lreadr), st.left)

  read_at-token :
      (read paren : io.Source → Cmd (Ptr × io.Source)) (c : ℕ) (f : io.Source) (s : State)
      → IsTokenChar c
      → (c == b'#') ≡ false
      → read_at m io read paren c f s ≡ token_loop m io (tkbuffern - 1) (c ∷ []) f s
  unfolding read_at ends_token strchr
  read_at-token read paren c f s (blank, ends) sharp =
      let a : (c == b'(') ≡ false = ground arith in
      let b : (c == b')') ≡ false = ground arith in
      let d : (c == 39) ≡ false = ground arith in
      let e : (c == 96) ≡ false = ground arith in
      let g : (c == b',') ≡ false = ground arith in
      let h : (c == 34) ≡ false = ground arith in rw (a, b, d, e, g, h, sharp, read_at)

  -- A token is read up to the character that stops it.
  pub lreadr-token :
      (n : ℕ) (t : Bytes) (f : io.Source) (s : State) (rest : Bytes)
      → IsPlain t
      → length t < tkbuffern
      → Near (law.ahead f) (t ++ rest)
      → Stops rest
      → (g : io.Source) × (lreadr m io (suc n) f s ≡ and_then (lreadtk m t s) (λ p. ok (p, g)))
        × Past rest (law.ahead g)
  lreadr-token n t f s rest plain short near stops =
      let c = plain.first in
      let cs = plain.others in
      let e = plain.parts in
      let (h, hs) : All IsTokenChar (c ∷ cs) = subst (All IsTokenChar) e plain.inside in
      let at : Near (law.ahead f) (c ∷ (cs ++ rest)) =
        subst (λ w. Near (law.ahead f) (w ++ rest)) e near in
      let few : length (c ∷ cs) < tkbuffern = subst (λ w. length w < tkbuffern) e short in
      let (g, run, left) = lreadr-at n c (cs ++ rest) f s (IsTokenChar-IsSolid c h) at in
      let (g', taken, past) =
        token_loop-Stops m io law cs (c ∷ []) (tkbuffern - 1) g s rest hs (omega (arith, few)) left
          stops in
      (
        g',
        run
            ∙ read_at-token (lreadr m io n) (lreadparen m io n) c g s h plain.no_sharp
            ∙ taken
            ∙ ap (λ w. and_then (lreadtk m w s) (λ p. ok (p, g'))) (sym e),
        past,
      )

  pub read_number :
      (n : ℕ) (x : Bits) (f : io.Source) (s : State) (rest : Bytes) (k : ℕ)
      → Whole m x
      → Near (law.ahead f) (flonum_text m x ++ rest)
      → Stops rest
      → Fit m s (suc k)
      → ReadOut m io law s (lreadr m io (suc n) f s) (number x) rest k
  read_number n x f s rest k whole near stops fit =
      let z = m.double.to_long x in
      let e = flonum_text-Whole m x whole in
      let (plain, is_number) = long_text-number z in
      let (g, run, past) =
        lreadr-token n (long_text z) f s rest plain whole.short
          (subst (λ w. Near (law.ahead f) (w ++ rest)) e near) stops in
      let (p, u, made, holds, left, step) = flocons-Whole m x s k whole fit in
      let read =
        lreadtk-number m (long_text z) s plain.inside is_number
        ∙ ap (λ y. flocons m y s) whole.atof
        ∙ made in
      record {
        result = p;
        next = g;
        end = u;
        returns = run ∙ ap (λ r. and_then r (λ p. ok (p, g))) read;
        left = past;
        shows = (tt, holds);
        fit = left;
        step = step;
      }

  pub read_name :
      (n : ℕ) (q : Ptr) (b : Bytes) (f : io.Source) (s : State) (rest : Bytes) (k : ℕ)
      → IsPlain b
      → number_token b ≡ false
      → length b < tkbuffern
      → Known m s b q
      → Near (law.ahead f) (b ++ rest)
      → Stops rest
      → Fit m s k
      → ReadOut m io law s (lreadr m io (suc n) f s) (name q b) rest k
  read_name n q b f s rest k plain no_number short known near stops fit =
      let (g, run, past) = lreadr-token n b f s rest plain short near stops in
      let read = lreadtk-name m b q s plain.inside no_number known in
      record {
        result = q;
        next = g;
        end = s;
        returns = run ∙ ap (λ r. and_then r (λ p. ok (p, g))) read;
        left = past;
        shows = (refl, tt, Known-symbol m s b q known);
        fit = fit;
        step = Step-refl s;
      }

  lreadstring_run :
      (f g : io.Source) (s : State) (t : Bytes) (p : Ptr) (u : State)
      → string_loop m io (tkbuffern - 1) [] f s ≡ ok (t, g) s
      → strcons m t s ≡ ok p u
      → lreadstring m io f s ≡ ok (p, g) u
  unfolding lreadstring
  lreadstring_run f g s t p u run made = rw (run, made)

  pub read_text :
      (n : ℕ) (t : Bytes) (f : io.Source) (s : State) (rest : Bytes) (k : ℕ)
      → All IsByte t
      → length t < tkbuffern
      → Near (law.ahead f) (34 ∷ (written t ++ rest))
      → Fit m s (suc k)
      → ReadOut m io law s (lreadr m io (suc n) f s) (text t) rest k
  unfolding read_at is_space strcons
  read_text n t f s rest k bytes short near fit =
      let (g, run, left) = lreadr-at n 34 (written t ++ rest) f s refl near in
      let (g', read, past) =
        string_loop-written m io law t (tkbuffern - 1) g s rest bytes (omega arith) left in
      let (p, xs, r, le) = Fit-cell m s k fit in
      let (u, made, fresh) = alloc-Fresh m (string t) s r in
      record {
        result = p;
        next = g';
        end = u;
        returns = run ∙ lreadstring_run g g' s t p u read made;
        left = inl past;
        shows = (tt, fresh.holds);
        fit = Fit-Step m s u k (Fresh-Step fresh) fit fresh.ready le;
        step = Fresh-Step fresh;
      }
