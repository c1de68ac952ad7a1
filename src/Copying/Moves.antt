-- ===== src/Copying/Moves.antt =====
-- On `gc_relocate` of winsiod/slib.c where there is a place for each cell of the old space.
use siod.Prelude.{
  ℕ, ◌+◌, ◌-◌, ◌≤◌, ◌<◌, ◌≡◌, refl, ◌∙◌, subst, true, false, List, [], ◌∷◌, ◌==◌, leb, arith,
  Bool-cases, inl, inr,
}
use siod.Store.{Ptr, State, ok}
use siod.Machine.{Machine}
use siod.Gc.Reach.{Has, head, tail}
use siod.Copying.{first_word, move, gc_relocate, relocate_each}
use siod.Copying.Room.{
  globals, within, Spaces, Room, Returns, Returns-and_then, moved_state, heap_in, move-Room,
}

pub within_most :
    (lo hi hi' : ℕ) (c : Ptr) → hi ≤ hi' → within lo hi c ≡ true → within lo hi' c ≡ true
within_most lo hi hi' c le h = ground arith

module _ (m : Machine) (v : Spaces) (a b : ℕ) (low : v.new ≤ b) (order : a ≤ b) where
  -- What a call of the collector gives: the state is as it should be, the new space has not shrunk,
  -- and the pointers that are returned point into it.
  pub record Got (s : State) (ys : List Ptr) (t : State) : Type 0 where
    pub room : Room v a b t
    pub grown : s.heap ≤ t.heap
    pub same : globals t ≡ globals s
    pub inside : (c : Ptr) → Has c ys → within v.new t.heap c ≡ true

  only :
      (hi y : ℕ) → within v.new hi y ≡ true → (c : Ptr) → Has c (y ∷ []) → within v.new hi c ≡ true
  only hi y h c (head e) = subst (λ x. within v.new hi x ≡ true) e h
  only hi y h c (tail k) = elim k [ ]

  move-run :
      (p : ℕ) (s : State)
      → Room v a b s
      → p < v.k
      → s.marks (v.lo + p) ≡ false
      → move m (v.lo + p) s ≡ ok s.heap (moved_state m v a b low order (v.lo + p) s)
  unfolding move
  move-run p s r lt e =
      let up = heap_in m v a b low order p s r lt e in
      let ends = r.ends in
      let enough = v.enough in
      let free : leb s.heap_end s.heap ≡ false = ground (arith, up, ends, enough) in rw free refl

  relocate_old :
      (p : ℕ) (s : State)
      → Room v a b s
      → b ≤ s.heap
      → p < v.k
      → Returns (λ y t. Got s (y ∷ []) t) (gc_relocate m (v.lo + p) s)
  unfolding gc_relocate
  relocate_old p s r ahead lt =
      let first = v.old_first in
      let some_cell : (v.lo + p == 0) ≡ false = ground arith in
      elim (Bool-cases (s.marks (v.lo + p))) [
        | inl marked ↦
            rw (some_cell, marked)
              (record {
                room = r;
                grown = omega arith;
                same = refl;
                inside = only s.heap (first_word (s.cells (v.lo + p))) (r.moved p lt marked);
              })
        | inr unmoved ↦
            rw (some_cell, unmoved, move-run p s r lt unmoved)
              (record {
                room = move-Room m v a b low order p s r lt unmoved ahead;
                grown = omega arith;
                same = refl;
                inside = only (s.heap + 1) s.heap (let bottom = r.bottom in ground arith);
              })
      ]

  pub gc_relocate-Got :
      (x : Ptr) (s : State)
      → Room v a b s
      → b ≤ s.heap
      → within v.lo (v.lo + v.k) x ≡ true
      → Returns (λ y t. Got s (y ∷ []) t) (gc_relocate m x s)
  unfolding gc_relocate
  gc_relocate-Got x s r ahead h = elim (Bool-cases (x == 0)) [
    | inl is_nil ↦
        rw is_nil
          (record { room = r; grown = omega arith; same = refl; inside = only s.heap 0 refl })
    | inr cell ↦
        let at : v.lo + (x - v.lo) ≡ x = ground arith in
        subst (λ z. Returns (λ y t. Got s (y ∷ []) t) (gc_relocate m z s)) at
          (relocate_old (x - v.lo) s r ahead (ground arith))
  ]

  pub relocate_each-Got :
      (xs : List Ptr) (s : State)
      → Room v a b s
      → b ≤ s.heap
      → ((c : Ptr) → Has c xs → within v.lo (v.lo + v.k) c ≡ true)
      → Returns (λ ys t. Got s ys t) (relocate_each m xs s)
  unfolding relocate_each
  relocate_each-Got [] s r ahead h = record {
    room = r;
    grown = omega arith;
    same = refl;
    inside = λ c k. elim k [ ];
  }
  relocate_each-Got (x ∷ xs) s r ahead h =
      Returns-and_then (λ y t. Got s (y ∷ []) t) (λ ys t. Got s ys t) (gc_relocate m x s) _
        (gc_relocate-Got x s r ahead (h x (head refl)))
        (λ y t g.
          let up = g.grown in
          Returns-and_then (λ ys u. Got t ys u) (λ ys u. Got s ys u) (relocate_each m xs t) _
            (relocate_each-Got xs t g.room (omega (arith, up, ahead)) (λ c k. h c (tail k)))
            (λ ys u q. record {
              room = q.room;
              grown = (let more = q.grown in omega (arith, up, more));
              same = q.same ∙ g.same;
              inside = λ c k. elim k [
                | head e ↦ within_most v.new t.heap u.heap c q.grown (g.inside c (head e))
                | tail n ↦ q.inside c n
              ];
            }))
