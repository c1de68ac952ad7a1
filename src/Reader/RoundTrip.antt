-- ===== src/Reader/RoundTrip.antt =====
-- On `lreadr`, `lprin1g` (winsiod/slib.c) and `read_from_string`, `print_to_string`
-- (winsiod/sliba.c): what is printed is read back.
use siod.Prelude.{ℕ, zero, suc, ◌+◌, ◌≤◌, ◌≡◌, refl, ◌∙◌, subst, inl, [], ◌∷◌, ◌++◌, arith}
use mathlib.Core.List.{append_assoc, append-nil}
use siod.Store.{Ptr, Bytes, State}
use siod.Machine.{Machine}
use siod.Printer.{flonum_text}
use siod.Printer.Datum.{Datum, empty, number, name, text, pair, size, chunks, rest_chunks, dotted}
use siod.Printer.Refinement.{size_pos}
use siod.Printer.Into.{join}
use siod.Reader.{lreadr, lreadparen, read_at}
use siod.Reader.Chars.{is_space}
use siod.Reader.Tokens.{GenReadio}
use siod.Reader.Source.{Pushback, Near, Past, Stops}
use siod.Reader.Keep.{Fit, Fit-less}
use siod.Reader.Atoms.{read_number, read_name, read_text, lreadr-at}
use siod.Reader.Leaf.{ReadOut}
use siod.Reader.Readable.{
  words, tail_words, Readable, need, words-pair, tail_words-pair, words-text, dotted_words,
}
use siod.Reader.Listing.{Reads, ReadsTail, list_pair, tail_empty, tail_dotted, Past-Near}

module _ (m : Machine) (io : GenReadio) (law : Pushback io) (fuel : 2 ≤ m.fuel) where
  Reads-number : (n : ℕ) (x : _) → Reads m io law fuel (suc n) (number x)
  unfolding chunks
  Reads-number n x f s rest k r near stops fit =
      let e = append-nil (flonum_text m x) in
      read_number m io law fuel n x f s rest k r
        (subst (λ w. Near (law.ahead f) (w ++ rest)) e near) stops
        (Fit-less m s (suc k) (1 + k) (omega arith) fit)

  Reads-name : (n : ℕ) (q : Ptr) (b : Bytes) → Reads m io law fuel (suc n) (name q b)
  unfolding chunks
  Reads-name n q b f s rest k (plain, word, short, known, other) near stops fit =
      read_name m io law fuel n q b f s rest k plain word short known
        (subst (λ w. Near (law.ahead f) (w ++ rest)) (append-nil b) near) stops
        (Fit-less m s k (0 + k) (omega arith) fit)

  Reads-text : (n : ℕ) (b : Bytes) → Reads m io law fuel (suc n) (text b)
  Reads-text n b f s rest k (bytes, short) near stops fit =
      read_text m io law fuel n b f s rest k bytes short
        (subst (λ w. Near (law.ahead f) (w ++ rest)) (words-text m b bytes) near)
        (Fit-less m s (suc k) (1 + k) (omega arith) fit)

  -- An open paren leads to `lreadparen`.
  lreadr-paren :
      (n : ℕ) (cs : Bytes) (f : io.Source) (s : State)
      → Near (law.ahead f) (40 ∷ cs)
      → (g : io.Source) × (lreadr m io (suc n) f s ≡ lreadparen m io n g s) × (law.ahead g ≡ cs)
  unfolding read_at is_space
  lreadr-paren n cs f s near = lreadr-at m io law fuel n 40 cs f s refl near

  Reads-empty : (n : ℕ) → Reads m io law fuel (suc (suc n)) empty
  unfolding chunks rest_chunks
  Reads-empty n f s rest k r near stops fit =
      let (g, run, left) = lreadr-paren (suc n) (41 ∷ rest) f s near in
      let out = tail_empty m io law fuel n g s rest k r (inl left) fit in
      record {
        result = out.result;
        next = out.next;
        end = out.end;
        returns = run ∙ out.returns;
        left = out.left;
        shows = out.shows;
        fit = out.fit;
        step = out.step;
      }

  Reads-pair :
      (n : ℕ) (a d : Datum)
      → Reads m io law fuel n a
      → ReadsTail m io law fuel n d
      → Reads m io law fuel (suc (suc n)) (pair a d)
  Reads-pair n a d reads tails f s rest k r near stops fit =
      let e = append_assoc (words m a) (tail_words m d) rest in
      let at : Near (law.ahead f) (40 ∷ (words m a ++ (tail_words m d ++ rest))) =
        subst (λ w. Near (law.ahead f) (40 ∷ w)) e
          (subst (λ w. Near (law.ahead f) (w ++ rest)) (words-pair m a d) near) in
      let (g, run, left) = lreadr-paren (suc n) (words m a ++ (tail_words m d ++ rest)) f s at in
      let out = list_pair m io law fuel n a d g s rest k reads tails r (inl left) fit in
      record {
        result = out.result;
        next = out.next;
        end = out.end;
        returns = run ∙ out.returns;
        left = out.left;
        shows = out.shows;
        fit = out.fit;
        step = out.step;
      }

  tail_pair :
      (n : ℕ) (a d : Datum)
      → Reads m io law fuel n a
      → ReadsTail m io law fuel n d
      → ReadsTail m io law fuel (suc n) (pair a d)
  tail_pair n a d reads tails f s rest k r past fit =
      let e = append_assoc (words m a) (tail_words m d) rest in
      let at = Past-Near (words m a ++ (tail_words m d ++ rest)) (law.ahead f) (
        subst (λ w. Past (32 ∷ w) (law.ahead f)) e
          (subst (λ w. Past (w ++ rest) (law.ahead f)) (tail_words-pair m a d) past)) in
      list_pair m io law fuel n a d f s rest k reads tails r at fit

  tail_atom :
      (n : ℕ) (t : Datum)
      → tail_words m t ≡ join (dotted (chunks m t))
      → Reads m io law fuel (suc n) t
      → ReadsTail m io law fuel (suc (suc n)) t
  tail_atom n t e reads f s rest k r past fit =
      let whole = e ∙ dotted_words (chunks m t) in
      let apart = append_assoc (words m t) (41 ∷ []) rest in
      let at = Past-Near (46 ∷ 32 ∷ (words m t ++ (41 ∷ rest))) (law.ahead f) (
        subst (λ w. Past (32 ∷ 46 ∷ 32 ∷ w) (law.ahead f)) apart
          (subst (λ w. Past (w ++ rest) (law.ahead f)) whole past)) in
      tail_dotted m io law fuel n t f s rest k reads r at fit

  Reads-and_tail :
      (n : ℕ) (t : Datum) → size t ≤ n → Reads m io law fuel n t × ReadsTail m io law fuel n t
  unfolding chunks rest_chunks
  Reads-and_tail zero t le = absurd (omega (arith, size_pos t))
  Reads-and_tail (suc zero) t le = absurd (omega (arith, size_pos t))
  Reads-and_tail (suc (suc n)) empty le = (Reads-empty n, tail_empty m io law fuel (suc n))
  Reads-and_tail (suc (suc n)) (number x) le =
      (Reads-number (suc n) x, tail_atom n (number x) refl (Reads-number n x))
  Reads-and_tail (suc (suc n)) (name q b) le =
      (Reads-name (suc n) q b, tail_atom n (name q b) refl (Reads-name n q b))
  Reads-and_tail (suc (suc n)) (text b) le =
      (Reads-text (suc n) b, tail_atom n (text b) refl (Reads-text n b))
  Reads-and_tail (suc (suc n)) (pair a d) le =
      let big = size_pos a in
      let big' = size_pos d in
      let (ra, ta) = Reads-and_tail n a (omega arith) in
      let (rd, td) = Reads-and_tail n d (omega arith) in
      let (ra', ta') = Reads-and_tail (suc n) a (omega arith) in
      let (rd', td') = Reads-and_tail (suc n) d (omega arith) in
      (Reads-pair n a d ra td, tail_pair (suc n) a d ra' td')

  lreads : (n : ℕ) (t : Datum) → size t ≤ n → Reads m io law fuel n t
  lreads n t le = let (reads, tails) = Reads-and_tail n t le in reads

-- From any source that has the printed text of the data ahead, then the end, a blank or a close paren,
-- `lreadr` reads data of the same numbers, symbols, texts and pairs, and goes on behind the text, or
-- one blank further. It needs as many rounds as the data has parts, whole numbers, names that stand in
-- the symbol table, no token or text longer than the buffer, and free cells; the symbol tables and the
-- cells in use stay as they were, and the cells that it does not need stay free.
pub lreadr-words :
    (m : Machine) (io : GenReadio) (law : Pushback io) (n : ℕ) (t : Datum) (f : io.Source)
    (s : State) (rest : Bytes) (k : ℕ)
    → 2 ≤ m.fuel
    → size t ≤ n
    → Readable m s t
    → law.ahead f ≡ words m t ++ rest
    → Stops rest
    → Fit m s (need t + k)
    → ReadOut m io law s (lreadr m io n f s) t rest k
lreadr-words m io law n t f s rest k fuel le r at stops fit =
    lreads m io law fuel n t le f s rest k r (inl at) stops fit
