-- ===== src/Equality/Data.antt =====
-- On `equal` of winsiod/sliba.c at numbers, symbols, texts and pairs.
use siod.Prelude.{
  ℕ, zero, suc, ◌≤◌, ◌≡◌, refl, sym, ◌∙◌, ap, subst, inl, inr, Bool, true, false, ◌&&◌, ◌==◌,
  if◌then◌else◌, arith, Bool-cases,
}
use siod.Store.{Ptr, Bytes, cons, string, State, obj, ok, Cmd}
use siod.Store.View.{obj-zero}
use siod.Machine.{Machine}
use siod.Lists.{truth}
use siod.Lists.Shape.{car-cons, cdr-cons}
use siod.Symbols.{same_bytes}
use siod.Symbols.Intern.{same_bytes_refl}
use siod.Printer.Datum.{Datum, empty, number, name, text, pair, Shows, size}
use siod.Printer.Refinement.{size_pos}
use siod.Reader.Leaf.{Any}
use siod.Equality.{type_code, equal, equal_at, equal_numbers, array_equal}
use siod.Equality.Alike.{
  code_of, same, Alike, both_empty, both_number, both_name, both_text, both_pair, alike, unlike,
}

Shows-code : (s : State) (p : Ptr) (t : Datum) → Shows Any s p t → type_code (obj s p) ≡ code_of t
Shows-code s p empty h = ap type_code (ap (obj s) h ∙ obj-zero s)
Shows-code s p (number x) (k, e) = ap type_code e
Shows-code s p (name q b) (at, k, (v, e)) = ap type_code e
Shows-code s p (text b) (k, e) = ap type_code e
Shows-code s p (pair a d) (k, (x, y, e, g, h)) = ap type_code e

-- No number of the data differs from itself, as one that is not a number does.
abbrev pub Ordered : Machine → Datum → Type 0
Ordered m (number x) = m.double.eq x x ≡ true
Ordered m (pair a d) = Ordered m a × Ordered m d
Ordered m _ = Unit

pub Shows-Alike :
    (m : Machine) (s : State) (p : Ptr) (t u : Datum)
    → Shows Any s p t
    → Shows Any s p u
    → Alike t u
Shows-Alike m s p t u h k =
    let e : code_of t ≡ code_of u = sym (Shows-code s p t h) ∙ Shows-code s p u k in
    alike t u (ground arith)

pub Shows-same :
    (m : Machine) (s : State) (p : Ptr) (t u : Datum)
    → Alike t u
    → Ordered m t
    → Shows Any s p t
    → Shows Any s p u
    → same m t u ≡ true
Shows-same m s p empty _ both_empty r h k = refl
Shows-same m s p (number x) _ (both_number _ x') r (i, e) (j, e') =
    let at : x ≡ x' = ground arith in subst (λ y. m.double.eq x y ≡ true) at r
Shows-same m s p (name q b) _ (both_name _ _ q' b') r (e, i, h) (e', i', h') = ground arith
Shows-same m s p (text b) _ (both_text _ b') r (i, e) (j, e') =
    let at : b ≡ b' = ground arith in subst (λ y. same_bytes b y ≡ true) at (same_bytes_refl b)
Shows-same m s p (pair a d) _ (both_pair _ _ a' d') (r, r') (i, (x, y, e, g, h))
      (j, (x', y', e', g', h')) =
    let left : x' ≡ x = ground arith in
    let right : y' ≡ y = ground arith in
    let one =
      Shows-same m s x a a' (Shows-Alike m s x a a' g (subst (λ z. Shows Any s z a') left g')) r g
        (subst (λ z. Shows Any s z a') left g') in
    let two =
      Shows-same m s y d d' (Shows-Alike m s y d d' h (subst (λ z. Shows Any s z d') right h')) r' h
        (subst (λ z. Shows Any s z d') right h') in
    ground arith

module _ (m : Machine) (s : State) (known : (s.symbols.sym_t == 0) ≡ false) where
  -- `equal` with so many rounds tells whether two data are the same, and changes nothing.
  abbrev Tells : ℕ → Ptr → Ptr → Datum → Datum → Type 0
  Tells n p q t u = equal m n p q s ≡ truth (same m t u) s

  truth_iff :
      {A : Type 0} (b : Bool) (x y : A)
      → (if (if b then s.symbols.sym_t else 0) == 0 then x else y) ≡ (if b then y else x)
  truth_iff true x y = rw known
  truth_iff false x y = refl

  equal_one :
      (n : ℕ) (p q : Ptr) (t u : Datum)
      → Ordered m t
      → Shows Any s p t
      → Shows Any s q u
      → ((p == q) ≡ false
          → (code_of t == code_of u) ≡ true
          → equal_at m (equal m n) p q s ≡ truth (same m t u) s)
      → Tells (suc n) p q t u
  unfolding equal truth
  equal_one n p q t u r h k step = elim (Bool-cases (p == q)) [
    | inl e ↦
        let at : q ≡ p = ground arith in
        let k' = subst (λ z. Shows Any s z u) at k in
        rw (e, Shows-same m s p t u (Shows-Alike m s p t u h k') r h k')
    | inr e ↦ elim (Bool-cases (code_of t == code_of u)) [
      | inl c ↦ rw (e, Shows-code s p t h, Shows-code s q u k, c) (step e c)
      | inr c ↦ rw (e, Shows-code s p t h, Shows-code s q u k, c, unlike m t u c)
    ]
  ]

  array_equal-text :
      (eq : Ptr → Ptr → Cmd Ptr) (b b' : Bytes)
      → array_equal m eq (string b) (string b') s ≡ truth (same_bytes b b') s
  unfolding array_equal
  array_equal-text eq b b' = refl

  -- Two pairs, where the parts are told.
  equal_pairs :
      (n : ℕ) (p q x y x' y' : Ptr) (a d a' d' : Datum)
      → obj s p ≡ cons x y
      → obj s q ≡ cons x' y'
      → Tells n x x' a a'
      → Tells n y y' d d'
      → equal_at m (equal m n) p q s ≡ truth (same m a a' && same m d d') s
  unfolding equal_at truth
  equal_pairs n p q x y x' y' a d a' d' e e' ta td =
      rw (e, equal_at)
        (rw (car-cons m s p e, car-cons m s q e', ta)
          (elim (Bool-cases (same m a a')) [
            | inl yes_it ↦ rw (yes_it, known, cdr-cons m s p e, cdr-cons m s q e') td
            | inr no_it ↦ rw no_it
          ]))

  -- The `switch` at two data of one kind, where `equal` tells of smaller data.
  switch_data :
      (n : ℕ) (p q : Ptr) (t u : Datum)
      → ((x y : Ptr) (a b : Datum)
          → size a ≤ n
          → Ordered m a
          → Shows Any s x a
          → Shows Any s y b
          → Tells n x y a b)
      → Alike t u
      → size t ≤ suc n
      → Ordered m t
      → Shows Any s p t
      → Shows Any s q u
      → (p == q) ≡ false
      → equal_at m (equal m n) p q s ≡ truth (same m t u) s
  unfolding equal_at equal_numbers truth
  switch_data n p q empty _ ih both_empty le r h k ne = absurd (ground arith)
  switch_data n p q (number x) _ ih (both_number _ x') le r (i, e) (j, e') ne =
      rw (e, equal_at) (rw (e', equal_numbers))
  switch_data n p q (name b c) _ ih (both_name _ _ b' c') le r (at, i, (v, e)) (at', j, (v', e'))
        ne =
      let other : (b == b') ≡ false = ground arith in rw (e, other, equal_at)
  switch_data n p q (text b) _ ih (both_text _ b') le r (i, e) (j, e') ne =
      rw (e, equal_at) (rw e' (array_equal-text (equal m n) b b'))
  switch_data n p q (pair a d) _ ih (both_pair _ _ a' d') le (r, r') (i, (x, y, e, g, h))
        (j, (x', y', e', g', h')) ne =
      let big = size_pos a in
      let big' = size_pos d in
      equal_pairs n p q x y x' y' a d a' d' e e' (ih x x' a a' (omega arith) r g g')
        (ih y y' d d' (omega arith) r' h h')

  equal_data :
      (n : ℕ) (p q : Ptr) (t u : Datum)
      → size t ≤ n
      → Ordered m t
      → Shows Any s p t
      → Shows Any s q u
      → Tells n p q t u
  equal_data zero p q t u le r h k = absurd (omega (arith, size_pos t))
  equal_data (suc n) p q t u le r h k =
      equal_one n p q t u r h k
        (λ ne c. switch_data n p q t u (λ x y a b. equal_data n x y a b) (alike t u c) le r h k ne)

-- With as many rounds as the first of two data has parts, where no number of it differs from itself
-- and `t` is not `NIL`, `equal` returns `t` exactly where the data are the same: equal numbers, the
-- same symbol, equal bytes, or pairs of such parts. It changes nothing.
pub equal-same :
    (m : Machine) (n : ℕ) (p q : Ptr) (t u : Datum) (s : State)
    → (s.symbols.sym_t == 0) ≡ false
    → size t ≤ n
    → Ordered m t
    → Shows Any s p t
    → Shows Any s q u
    → equal m n p q s ≡ ok (if same m t u then s.symbols.sym_t else 0) s
unfolding truth
equal-same m n p q t u s known le r h k = equal_data m s known n p q t u le r h k
