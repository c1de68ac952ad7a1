-- ===== src/Gc/Marking.antt =====
-- On `gc_mark` of winsiod/slib.c: its marks and its depth.
use siod.Prelude.{
  ℕ, zero, suc, ◌<◌, ◌≡◌, refl, true, false, ◌⊎◌, inl, inr, Option, some, List, [], ◌∷◌, arith,
  ◌==◌, Bool-cases,
}
use siod.Prelude.{◌∙◌, subst}
use siod.Store.{Ptr, State, obj, update}
use siod.Gc.{Marks, mark_each, children, gc_mark}
use siod.Gc.Reach.{
  Has, head, tail, Edge, Reach, start, Reach-mono, Reach-children, unmarked, unmarked_mono,
  unmarked-update,
}

-- What marking from a row of pointers does to the marks.
pub record Marked (s : State) (ps : List Ptr) (m k : Marks) : Type 0 where
  pub grows : (q : Ptr) → m q ≡ true → k q ≡ true
  pub roots : (q : Ptr) → Has q ps → (q == 0) ≡ false → k q ≡ true
  pub closed : (q c : Ptr) → m q ≡ false → k q ≡ true → Edge s q c → k c ≡ true
  pub sound : (q : Ptr) → k q ≡ true → (m q ≡ true) ⊎ Reach s ps q

-- Every pointer stays below `n`.
abbrev pub IsBounded : State → ℕ → Type 0
IsBounded s n = (q c : Ptr) → Has c (children (obj s q)) → c < n

module _ {s : State} where
  Marked-nothing :
      (m : Marks) {ps : List Ptr}
      → ((q : Ptr) → Has q ps → (q == 0) ≡ false → m q ≡ true)
      → Marked s ps m m
  Marked-nothing m roots = record {
    grows = λ q h. h;
    roots = roots;
    closed = λ q c h k e. ground arith;
    sound = λ q h. inl h;
  }

  Marked-seq :
      {p : Ptr} {ps : List Ptr} {m k l : Marks}
      → Marked s (p ∷ []) m k
      → Marked s ps k l
      → Marked s (p ∷ ps) m l
  Marked-seq {p} {ps} {m} {k} {l} a b = record {
    grows = λ q h. b.grows q (a.grows q h);
    roots = roots;
    closed = λ q c h g e. closed q c h g e (Bool-cases (k q));
    sound = λ q h. sound q (b.sound q h);
  }
    where
      roots : (q : Ptr) → Has q (p ∷ ps) → (q == 0) ≡ false → l q ≡ true
      roots q (head e) n = b.grows q (a.roots q (head e) n)
      roots q (tail h) n = b.roots q h n

      closed :
          (q c : Ptr)
          → m q ≡ false
          → l q ≡ true
          → Edge s q c
          → (k q ≡ true) ⊎ (k q ≡ false)
          → l c ≡ true
      closed q c h g e (inl t) = b.grows c (a.closed q c h t e)
      closed q c h g e (inr f) = b.closed q c f g e

      first : (x : Ptr) → Has x (p ∷ []) → Has x (p ∷ ps)
      first x (head e) = head e
      first x (tail h) = elim h [ ]

      from : (q : Ptr) → (m q ≡ true) ⊎ Reach s (p ∷ []) q → (m q ≡ true) ⊎ Reach s (p ∷ ps) q
      from q (inl h) = inl h
      from q (inr r) = inr (Reach-mono first r)

      sound : (q : Ptr) → (k q ≡ true) ⊎ Reach s ps q → (m q ≡ true) ⊎ Reach s (p ∷ ps) q
      sound q (inl h) = from q (a.sound q h)
      sound q (inr r) = inr (Reach-mono (λ x h. tail h) r)

  Marked-node :
      {p : Ptr} {m k : Marks}
      → (p == 0) ≡ false
      → m p ≡ false
      → Marked s (children (obj s p)) (update m p true) k
      → Marked s (p ∷ []) m k
  Marked-node {p} {m} {k} ne white a = record {
    grows = λ q h. a.grows q (ground arith);
    roots = roots;
    closed = λ q c h g e. closed q c h g e (Bool-cases (q == p));
    sound = λ q h. sound q (a.sound q h) (Bool-cases (q == p));
  }
    where
      self : Reach s (p ∷ []) p
      self = start (head refl) ne

      roots : (q : Ptr) → Has q (p ∷ []) → (q == 0) ≡ false → k q ≡ true
      roots q (head e) n = a.grows q (ground arith)
      roots q (tail h) n = elim h [ ]

      closed :
          (q c : Ptr)
          → m q ≡ false
          → k q ≡ true
          → Edge s q c
          → (q == p ≡ true) ⊎ (q == p ≡ false)
          → k c ≡ true
      closed q c h g e (inl same) =
          let at : q ≡ p = ground arith in
          let e' : Edge s p c = rw at at e in a.roots c e'.child e'.ne_nil
      closed q c h g e (inr other) = a.closed q c (ground arith) g e

      sound :
          (q : Ptr)
          → (update m p true q ≡ true) ⊎ Reach s (children (obj s p)) q
          → (q == p ≡ true) ⊎ (q == p ≡ false)
          → (m q ≡ true) ⊎ Reach s (p ∷ []) q
      sound q (inr r) _ = inr (Reach-children self r)
      sound q (inl h) (inl same) =
          let at : p ≡ q = ground arith in inr (subst (Reach s (p ∷ [])) at self)
      sound q (inl h) (inr other) = inl (ground arith)

-- One round of the loop, and the three ways a call goes on.
mark_each-cons :
    (mark : Ptr → Marks → Option Marks) (p : Ptr) (ps : List Ptr) (m k : Marks)
    → mark p m ≡ some k
    → mark_each mark (p ∷ ps) m ≡ mark_each mark ps k
unfolding mark_each
mark_each-cons mark p ps m k e = rw (e, mark_each)

gc_mark-nil :
    (s : State) (f : ℕ) (p : Ptr) (m : Marks) → (p == 0) ≡ true → gc_mark s (suc f) p m ≡ some m
unfolding gc_mark
gc_mark-nil s f p m e = rw e

gc_mark-black :
    (s : State) (f : ℕ) (p : Ptr) (m : Marks)
    → (p == 0) ≡ false
    → m p ≡ true
    → gc_mark s (suc f) p m ≡ some m
unfolding gc_mark
gc_mark-black s f p m ne e = rw (ne, e)

gc_mark-white :
    (s : State) (f : ℕ) (p : Ptr) (m : Marks)
    → (p == 0) ≡ false
    → m p ≡ false
    → gc_mark s (suc f) p m ≡ mark_each (gc_mark s f) (children (obj s p)) (update m p true)
unfolding gc_mark
gc_mark-white s f p m ne e = rw (ne, e)

-- Fuel above the number of cells without a mark is enough.
module _ {p : Ptr} (m : Marks) where
  at_nil : (p == 0) ≡ true → (q : Ptr) → Has q (p ∷ []) → (q == 0) ≡ false → m q ≡ true
  at_nil e q (head same) n = absurd (ground arith)
  at_nil e q (tail h) n = elim h [ ]

  at_black : m p ≡ true → (q : Ptr) → Has q (p ∷ []) → (q == 0) ≡ false → m q ≡ true
  at_black e q (head same) n = subst (λ x. m x ≡ true) same e
  at_black e q (tail h) n = elim h [ ]

module _ {s : State} (n : ℕ) (bounded : IsBounded s n) where
  pub mark_each-Marked :
      (f : ℕ)
      → ((p : Ptr) (m : Marks)
          → p < n
          → unmarked n m < f
          → (k : Marks) × (gc_mark s f p m ≡ some k) × Marked s (p ∷ []) m k)
      → (ps : List Ptr) (m : Marks) → ((p : Ptr) → Has p ps → p < n)
      → unmarked n m < f
      → (k : Marks) × (mark_each (gc_mark s f) ps m ≡ some k) × Marked s ps m k
  unfolding mark_each
  mark_each-Marked f mark [] m below fuel = (m, refl, Marked-nothing m (λ q h. elim h [ ]))
  mark_each-Marked f mark (p ∷ ps) m below fuel =
      let (k, e, a) = mark p m (below p (head refl)) fuel in
      let less = unmarked_mono n m k a.grows in
      let (l, g, b) = mark_each-Marked f mark ps k (λ q h. below q (tail h)) (omega arith) in
      (l, mark_each-cons (gc_mark s f) p ps m k e ∙ g, Marked-seq a b)

  -- Where every pointer of the heap is below `n` and the root is, and the fuel exceeds the number
  -- of cells below `n` without a mark, `gc_mark` ends. Marks stay; the root is marked, unless it is
  -- `NIL`, and with each newly marked cell all that it points to; nothing else is marked than what
  -- the root reaches.
  pub gc_mark-Marked :
      (f : ℕ) (p : Ptr) (m : Marks)
      → p < n
      → unmarked n m < f
      → (k : Marks) × (gc_mark s f p m ≡ some k) × Marked s (p ∷ []) m k
  gc_mark-Marked zero p m lt fuel = elim fuel [ ]
  gc_mark-Marked (suc f) p m lt fuel = elim (Bool-cases (p == 0)) [
    | inl isnil ↦ (m, gc_mark-nil s f p m isnil, Marked-nothing m (at_nil m isnil))
    | inr ne ↦ elim (Bool-cases (m p)) [
      | inl black ↦ (m, gc_mark-black s f p m ne black, Marked-nothing m (at_black m black))
      | inr white ↦
          let less = unmarked-update n m p lt white in
          let (k, e, a) =
            mark_each-Marked f (gc_mark-Marked f) (children (obj s p)) (update m p true) (bounded p)
              (omega arith) in
          (k, gc_mark-white s f p m ne white ∙ e, Marked-node ne white a)
    ]
  ]
