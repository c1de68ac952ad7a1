-- ===== src/Printer/Refinement.antt =====
-- On `lprin1g` of winsiod/slib.c with any `puts_fcn`.
use siod.Prelude.{
  ℕ, zero, suc, ◌≤◌, ◌≡◌, ◌≢◌, refl, sym, ◌∙◌, subst, List, [], ◌∷◌, ◌++◌, arith, codes, map, subst,
  Bool-cases, inl, inr,
}
use siod.Store.{
  Ptr, Bytes, cons, string, State, obj, Run, ok, caught, toplevel, exited, fault, out_of_fuel, Cmd,
  pure, and_then, ◌>>=◌, ◌>>◌,
}
use siod.Store.View.{obj-zero, flonum-ne_nil, symbol-ne_nil, string-ne_nil}
use siod.Machine.{Machine}
use siod.Alloc.{c_str}
use siod.Lists.{car, cdr}
use siod.Lists.Shape.{car-cons, cdr-cons}
use siod.Printer.{put, put_escaped, array_prin1, lprin1g, prin1_rest, is_plain, escape, flonum_text}
use siod.Printer.Datum.{
  Datum, empty, number, name, text, pair, Shows, Same, Shows-Same, size, text_chunks, dotted,
  chunks, rest_chunks,
}

-- The texts are put one after another, up to the first that does not return.
abbrev pub emit : (Bytes → Cmd (Unit {0})) → List Bytes → Cmd (Unit {0})
emit puts [] = pure tt
emit puts (c ∷ cs) = puts c >> emit puts cs

-- Putting a text changes no cell with the property.
abbrev pub Keeps : (Bytes → Cmd (Unit {0})) → (Ptr → Type 0) → Type 0
Keeps puts P = (b : Bytes) (s u : State) → puts b s ≡ ok tt u → Same P s u

same_next :
    (r : Run (Unit {0})) (k l : Cmd (Unit {0}))
    → ((u : State) → r ≡ ok tt u → k u ≡ l u)
    → and_then r (λ _. k) ≡ and_then r (λ _. l)
same_next (ok x u) k l h = h u refl
same_next (caught n u) k l h = refl
same_next (toplevel n u) k l h = refl
same_next (exited u) k l h = refl
same_next fault k l h = refl
same_next out_of_fuel k l h = refl

and_then_assoc :
    (r : Run (Unit {0})) (k l : Cmd (Unit {0}))
    → and_then (and_then r (λ _. k)) (λ _. l) ≡ and_then r (λ _. k >> l)
and_then_assoc (ok x u) k l = refl
and_then_assoc (caught n u) k l = refl
and_then_assoc (toplevel n u) k l = refl
and_then_assoc (exited u) k l = refl
and_then_assoc fault k l = refl
and_then_assoc out_of_fuel k l = refl

pub size_pos : (t : Datum) → 2 ≤ size t
size_pos empty = omega arith
size_pos (number x) = omega arith
size_pos (name q b) = omega arith
size_pos (text b) = omega arith
size_pos (pair a d) = omega (arith, size_pos a)

module _ (m : Machine) (puts : Bytes → Cmd (Unit {0})) (P : Ptr → Type 0)
    (keeps : Keeps puts P) where
  put_then :
      (c : Bytes) (ds : List Bytes) (s : State) (k : Cmd (Unit {0}))
      → ((u : State) → Same P s u → k u ≡ emit puts ds u)
      → and_then (puts c s) (λ _. k) ≡ emit puts (c ∷ ds) s
  put_then c ds s k h = same_next (puts c s) k (emit puts ds) (λ u e. h u (keeps c s u e))

  emit_then :
      (cs ds : List Bytes) (s : State) (k : Cmd (Unit {0}))
      → ((u : State) → Same P s u → k u ≡ emit puts ds u)
      → and_then (emit puts cs s) (λ _. k) ≡ emit puts (cs ++ ds) s
  emit_then [] ds s k h = h s (λ a x. refl)
  emit_then (c ∷ cs) ds s k h =
      and_then_assoc (puts c s) (emit puts cs) k
      ∙ same_next (puts c s) (emit puts cs >> k) (emit puts (cs ++ ds))
          (λ u e. emit_then cs ds u k (λ w f. h w (λ a x. f a x ∙ keeps c s u e a x)))

  put_escaped-emit : (b : Bytes) (s : State) → put_escaped m puts b s ≡ emit puts (map escape b) s
  unfolding put_escaped
  put_escaped-emit [] s = refl
  put_escaped-emit (c ∷ cs) s =
      put_then (escape c) (map escape cs) s (put_escaped m puts cs) (λ u f. put_escaped-emit cs u)

  put_last : (c : Bytes) (s : State) → puts c s ≡ emit puts (c ∷ []) s
  put_last c s = go (puts c s)
    where
      go : (r : Run (Unit {0})) → r ≡ and_then r (λ _. pure tt)
      go (ok x u) = refl
      go (caught n u) = refl
      go (toplevel n u) = refl
      go (exited u) = refl
      go fault = refl
      go out_of_fuel = refl

  string_emit :
      (prin1 : Ptr → Cmd (Unit {0})) (b : Bytes) (s : State)
      → array_prin1 m puts prin1 (string b) s ≡ emit puts (text_chunks (c_str b)) s
  unfolding array_prin1
  string_emit prin1 b s = put_then (34 ∷ []) _ s _ (λ u f. elim (Bool-cases (is_plain (c_str b))) [
    | inl e ↦ rw e (put_then (c_str b) ((34 ∷ []) ∷ []) u _ (λ w g. put_last (34 ∷ []) w))
    | inr e ↦ rw e (
        rw (put_escaped-emit (c_str b) u) (
          emit_then (map escape (c_str b)) ((34 ∷ []) ∷ []) u (puts (34 ∷ []))
            (λ w g. put_last (34 ∷ []) w)))
  ])

  -- The printer with so many rounds does this for the data, alone and as the tail of a list.
  abbrev Prints : ℕ → Datum → Type 0
  Prints n t =
      (p : Ptr) (s : State) → Shows P s p t → lprin1g m puts n p s ≡ emit puts (chunks m t) s

  abbrev PrintsRest : ℕ → Datum → Type 0
  PrintsRest n t =
      (p : Ptr) (s : State)
      → Shows P s p t
      → prin1_rest m puts n p s ≡ emit puts (rest_chunks m t) s

  -- What is printed of the parts of a pair, after the text in front.
  parts_emit :
      (n : ℕ) (front : Bytes) (a d : Datum) (p x y : Ptr) (s : State)
      → P p
      → obj s p ≡ cons x y
      → Shows P s x a
      → Shows P s y d
      → Prints n a
      → PrintsRest n d
      → and_then
          (puts front s)
          (λ _. do z ← car m p; lprin1g m puts n z; w ← cdr m p; prin1_rest m puts n w)
        ≡ emit puts (front ∷ (chunks m a ++ rest_chunks m d)) s
  parts_emit n front a d p x y s k e g h pa pd =
      put_then front (chunks m a ++ rest_chunks m d) s _ (λ u f.
        rw (car-cons m u p (f p k ∙ e), pa x u (Shows-Same P s u x a f g))
          (emit_then (chunks m a) (rest_chunks m d) u _ (λ w l.
            rw (cdr-cons m w p (l p k ∙ (f p k ∙ e)))
              (pd y w (Shows-Same P u w y d l (Shows-Same P s u y d f h))))))

  print_pair : (n : ℕ) (a d : Datum) → Prints n a → PrintsRest n d → Prints (suc n) (pair a d)
  unfolding lprin1g chunks put
  print_pair n a d pa pd p s (k, (x, y, e, g, h)) =
      rw (e, lprin1g) (parts_emit n (codes "(") a d p x y s k e g h pa pd)

  rest_pair : (n : ℕ) (a d : Datum) → Prints n a → PrintsRest n d → PrintsRest (suc n) (pair a d)
  unfolding prin1_rest rest_chunks put
  rest_pair n a d pa pd p s (k, (x, y, e, g, h)) =
      rw (e, prin1_rest) (parts_emit n (codes " ") a d p x y s k e g h pa pd)

  print_atom : (n : ℕ) (t : Datum) → size t ≤ 2 → Prints (suc n) t
  unfolding lprin1g chunks put
  print_atom n empty le p s h = rw (h, obj-zero s, lprin1g) (put_last (codes "()") s)
  print_atom n (number x) le p s (k, e) = rw (e, lprin1g) (put_last (flonum_text m x) s)
  print_atom n (name q b) le p s (at, k, (v, e)) = rw (e, lprin1g) (put_last b s)
  print_atom n (text b) le p s (k, e) = rw (e, lprin1g) (string_emit (lprin1g m puts n) b s)
  print_atom n (pair a d) le p s h = absurd (omega (arith, size_pos a, size_pos d))

  rest_empty : (n : ℕ) → PrintsRest (suc n) empty
  unfolding prin1_rest rest_chunks put
  rest_empty n p s h =
      subst (λ q. prin1_rest m puts (suc n) q s ≡ emit puts (codes ")" ∷ []) s) (sym h)
        (rw (obj-zero s, prin1_rest) (put_last (codes ")") s))

  dotted-emit :
      (n : ℕ) (t : Datum) (p : Ptr) (s : State)
      → Prints n t
      → Shows P s p t
      → and_then (put m puts " . " s) (λ _. lprin1g m puts n p >> put m puts ")")
        ≡ emit puts (dotted (chunks m t)) s
  unfolding put
  dotted-emit n t p s pt h = put_then (codes " . ") (chunks m t ++ (codes ")" ∷ [])) s _ (λ u f.
      rw (pt p u (Shows-Same P s u p t f h))
        (emit_then (chunks m t) (codes ")" ∷ []) u _ (λ w l. put_last (codes ")") w)))

  rest_atom : (n : ℕ) (t : Datum) → size t ≤ 2 → t ≢ empty → Prints n t → PrintsRest (suc n) t
  unfolding prin1_rest rest_chunks put
  rest_atom n empty le ne pt p s h = absurd (ne refl)
  rest_atom n (number x) le ne pt p s (k, e) =
      rw (e, flonum-ne_nil s p e, prin1_rest) (dotted-emit n (number x) p s pt (k, e))
  rest_atom n (name q b) le ne pt p s (at, k, (v, e)) =
      rw (e, symbol-ne_nil s p e, prin1_rest) (dotted-emit n (name q b) p s pt (at, k, (v, e)))
  rest_atom n (text b) le ne pt p s (k, e) =
      rw (e, string-ne_nil s p e, prin1_rest) (dotted-emit n (text b) p s pt (k, e))
  rest_atom n (pair a d) le ne pt p s h = absurd (omega (arith, size_pos a, size_pos d))

  print_and_rest : (n : ℕ) (t : Datum) → size t ≤ n → Prints n t × PrintsRest n t
  print_and_rest zero t le = absurd (omega (arith, size_pos t))
  print_and_rest (suc zero) t le = absurd (omega (arith, size_pos t))
  print_and_rest (suc (suc n)) (pair a d) le =
      let big = size_pos a in
      let big' = size_pos d in
      let (pa, ra) = print_and_rest (suc n) a (omega arith) in
      let (pd, rd) = print_and_rest (suc n) d (omega arith) in
      (print_pair (suc n) a d pa rd, rest_pair (suc n) a d pa rd)
  print_and_rest (suc (suc n)) empty le =
      (print_atom (suc n) empty (omega arith), rest_empty (suc n))
  print_and_rest (suc (suc n)) (number x) le = (
    print_atom (suc n) (number x) (omega arith),
    rest_atom (suc n) (number x) (omega arith) (ground arith)
        (print_atom n (number x) (omega arith)),
  )
  print_and_rest (suc (suc n)) (name q b) le = (
    print_atom (suc n) (name q b) (omega arith),
    rest_atom (suc n) (name q b) (omega arith) (ground arith)
        (print_atom n (name q b) (omega arith)),
  )
  print_and_rest (suc (suc n)) (text b) le = (
    print_atom (suc n) (text b) (omega arith),
    rest_atom (suc n) (text b) (omega arith) (ground arith) (print_atom n (text b) (omega arith)),
  )

-- With any `puts_fcn` that changes no cell of the data, where `lprin1g` has at least `size` rounds,
-- printing data of numbers, symbols, texts and pairs puts exactly the texts of its description, in
-- their order, and ends as this ends.
pub lprin1g-chunks :
    (m : Machine) (puts : Bytes → Cmd (Unit {0})) (P : Ptr → Type 0) (n : ℕ) (t : Datum) (p : Ptr)
    (s : State)
    → Keeps puts P
    → size t ≤ n
    → Shows P s p t
    → lprin1g m puts n p s ≡ emit puts (chunks m t) s
lprin1g-chunks m puts P n t p s keeps le h =
    let (prints, rest) = print_and_rest m puts P keeps n t le in prints p s h
