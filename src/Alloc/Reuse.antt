-- ===== src/Alloc/Reuse.antt =====
-- On `gc_for_newcell` of winsiod/slib.c: how an allocation ends that has to collect first.
use siod.Prelude.{
  ℕ, ◌+◌, ◌*◌, ◌≤◌, ◌≡◌, refl, sym, ◌∙◌, ap, subst, true, false, ◌⊎◌, inl, inr, none, some, List,
  [], ◌∷◌, ◌==◌, arith, Option-cases,
}
use siod.Store.{Ptr, Obj, State, Run, ok, fault, and_then, Cmd}
use siod.Machine.{Machine}
use siod.Gc.Reach.{head, Reach}
use siod.Gc.Sweep.{in_heaps}
use siod.Gc.Safety.{Collected}
use siod.Alloc.{missing_heap, allocate_aheap, allocate_or_fail, after_collection, take_free}
use siod.Alloc.Jump.{NoReturn, and_then-NoReturn}
use siod.Alloc.Heaps.{with_heap, allocate_aheap-some, allocate_aheap-none, with_heap-NewHeap}
use siod.Alloc.Taking.{NoReturn-bind, if_false, Placed, after_empty, after_some, enlarged, place}

-- How an allocation with an empty free list ends: it fails, since every cell of the heaps is reached
-- and no heap is missing, or it returns a cell that was not reached, and keeps the reached ones.
abbrev pub Reused : State → List Ptr → Obj → Run Ptr → Type 0
Reused s roots o run =
    (((a : Ptr) → in_heaps s.heaps s.heap_size 1 a ≡ true → Reach s roots a)
      × (missing_heap 0 s.heaps ≡ none)
      × NoReturn run)
    ⊎ ((p : Ptr) × (t : State) × (run ≡ ok p t) × Placed s t roots p o)

module _ (m : Machine) (fatal : Cmd Ptr) (o : Obj) (s t : State) (roots : List Ptr)
    (inside : (a : Ptr) → Reach s roots a → in_heaps s.heaps s.heap_size 1 a ≡ true)
    (size : 1 ≤ s.heap_size) where
  -- The state after the collection, with jumps allowed again.
  abbrev pub after : State
  after = record t { errjmp_ok = true }

  in_new_heap :
      {xs : List Ptr} (j : ℕ)
      → Collected s t roots xs
      → missing_heap 0 s.heaps ≡ some j
      → (p : Ptr) × (v : State) × (take_free m fatal o (with_heap j after) ≡ ok p v)
        × Placed s v roots p o
  in_new_heap j c found =
      let there : missing_heap 0 after.heaps ≡ some j = ap (missing_heap 0) c.same_heaps ∙ found in
      let big : 1 ≤ after.heap_size = subst (λ n. 1 ≤ n) (sym c.same_size) size in
      let h = with_heap-NewHeap after j big there in
      let in_t : (a : Ptr) → Reach s roots a → in_heaps t.heaps t.heap_size 1 a ≡ true = λ a r.
        ap (λ hs. in_heaps hs t.heap_size 1 a) c.same_heaps
        ∙ ap (λ n. in_heaps s.heaps n 1 a) c.same_size
        ∙ inside a r in
      let p = 1 + j * t.heap_size in
      let new : ¬ (Reach s roots p) = λ r. absurd (let d = h.apart p (in_t p r) in ground arith) in
      let (v, run, w) =
        place m fatal o s (with_heap j after) roots p h.next refl h.ne_nil h.first new
          (λ a r. h.kept a (in_t a r) ∙ c.kept a r) in
      (p, v, run, w)

  -- What `take_free` does after a step that was made.
  then_take :
      (r : Run (Unit {0})) (u : State)
      → r ≡ ok tt u
      → and_then r (λ _. take_free m fatal o) ≡ take_free m fatal o u
  then_take r u e = ap (λ x. and_then x (λ _. take_free m fatal o)) e

  failed :
      t.gc_kind_copying ≡ false
      → allocate_aheap after ≡ none
      → allocate_or_fail m fatal after ≡ and_then (fatal after) (λ _ _. fault)
  unfolding allocate_or_fail
  failed mode e = if_false _ _ mode ∙ rw e

  enabled :
      (u : State)
      → t.gc_kind_copying ≡ false
      → allocate_aheap after ≡ some u
      → allocate_or_fail m fatal after ≡ ok tt u
  unfolding allocate_or_fail
  enabled u mode e = if_false _ _ mode ∙ rw e

  enlarged-none : allocate_aheap after ≡ none → enlarged m fatal o after ≡ ok tt after
  unfolding enlarged
  enlarged-none e = rw (e, enlarged)

  enlarged-some : (u : State) → allocate_aheap after ≡ some u → enlarged m fatal o after ≡ ok tt u
  unfolding enlarged
  enlarged-some u e = rw (e, enlarged)

  pub Reused-none :
      Collected s t roots []
      → t.gc_kind_copying ≡ false
      → Reused s roots o (and_then (after_collection m fatal after) (λ _. take_free m fatal o))
  Reused-none c mode =
      let start = after_empty m fatal o after c.chain in
      elim (Option-cases (missing_heap 0 s.heaps)) [
        | inl none_missing ↦
            let e = allocate_aheap-none after (ap (missing_heap 0) c.same_heaps ∙ none_missing) in
            let stuck : NoReturn (after_collection m fatal after) =
              subst NoReturn (sym (start ∙ failed mode e))
                (and_then-NoReturn (fatal after) (λ _ _. fault) (λ _ _. tt)) in
            inl (
              λ a h. elim (c.freed a h) [ inl k ↦ absurd (elim k [ ]) | inr r ↦ r ],
              none_missing,
              NoReturn-bind (after_collection m fatal after) (λ _. take_free m fatal o) stuck,
            )
        | inr (j, found) ↦
            let e = allocate_aheap-some after j (ap (missing_heap 0) c.same_heaps ∙ found) in
            let (p, v, run, w) = in_new_heap j c found in
            inr (
              p,
              v,
              then_take (after_collection m fatal after) (with_heap j after)
                    (start ∙ enabled (with_heap j after) mode e)
                  ∙ run,
              w,
            )
      ]

  pub Reused-some :
      (x : Ptr) (xs : List Ptr)
      → Collected s t roots (x ∷ xs)
      → s.symbols.sym_after_gc ≡ 0
      → Reused s roots o (and_then (after_collection m fatal after) (λ _. take_free m fatal o))
  Reused-some x xs c hook =
      let (at, ne, (q, g, _)) = c.chain in
      let start =
        after_some m fatal o after t.freelist q refl (ap (λ p. p == 0) at ∙ ne) (ap t.cells at ∙ g)
          (ap (λ y. y.sym_after_gc) c.same_symbols ∙ hook) in
      elim (Option-cases (missing_heap 0 s.heaps)) [
        | inl none_missing ↦
            let e = allocate_aheap-none after (ap (missing_heap 0) c.same_heaps ∙ none_missing) in
            let (v, run, w) =
              place m fatal o s after roots x q at ne g (λ r. c.not_free x r (head refl)) c.kept in
            inr (
              x,
              v,
              then_take (after_collection m fatal after) after (start ∙ enlarged-none e) ∙ run,
              w,
            )
        | inr (j, found) ↦
            let e = allocate_aheap-some after j (ap (missing_heap 0) c.same_heaps ∙ found) in
            let (p, v, run, w) = in_new_heap j c found in
            inr (
              p,
              v,
              then_take (after_collection m fatal after) (with_heap j after)
                    (start ∙ enlarged-some (with_heap j after) e)
                  ∙ run,
              w,
            )
      ]
