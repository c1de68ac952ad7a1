-- ===== src/Alloc/Taking.antt =====
-- On `gc_for_newcell` of winsiod/slib.c: the steps of an allocation that has to collect first.
use siod.Prelude.{
  ℕ, suc, ◌+◌, ◌≡◌, refl, ◌∙◌, ap, subst, Bool, true, false, ◌&&◌, not, inl, inr, none, some, List,
  ◌==◌, ltb, if◌then◌else◌, arith, Bool-cases,
}
use siod.Store.{
  Ptr, Obj, free_cell, State, obj, update, Run, ok, caught, toplevel, exited, fault, out_of_fuel,
  and_then, Cmd,
}
use siod.Store.View.{obj-zero}
use siod.Machine.{Machine}
use siod.Gc.Reach.{Reach}
use siod.Gc.Collect.{gc_mark_and_sweep}
use siod.Alloc.{
  allocate_aheap, count_free, allocate_or_fail, after_collection, gc_for_newcell, take_free,
  newcell,
}
use siod.Alloc.Jump.{NoReturn}

pub NoReturn-bind :
    {A B : Type 0} (r : Run A) (k : A → Cmd B) → NoReturn r → NoReturn (and_then r k)
NoReturn-bind (ok a s) k h = elim h [ ]
NoReturn-bind (caught n s) k h = tt
NoReturn-bind (toplevel n s) k h = tt
NoReturn-bind (exited s) k h = tt
NoReturn-bind fault k h = tt
NoReturn-bind out_of_fuel k h = tt

pub if_true : {A : Type 0} {b : Bool} (x y : A) → b ≡ true → (if b then x else y) ≡ x
if_true x y e = rw e

pub if_false : {A : Type 0} {b : Bool} (x y : A) → b ≡ false → (if b then x else y) ≡ y
if_false x y e = rw e

-- What an allocation gives, seen from a state and its roots.
pub record Placed (s t : State) (roots : List Ptr) (p : Ptr) (o : Obj) : Type 0 where
  pub holds : t.cells p ≡ o
  pub unreached : ¬ (Reach s roots p)
  pub kept : (a : Ptr) → Reach s roots a → t.cells a ≡ s.cells a

module _ (m : Machine) (fatal : Cmd Ptr) (o : Obj) where
  pub collect_run :
      (s t : State)
      → s.gc_kind_copying ≡ false
      → s.freelist ≡ 0
      → ltb s.heap s.heap_end ≡ false
      → s.errjmp_ok ≡ true
      → gc_mark_and_sweep m (record s { errjmp_ok = false }) ≡ ok tt t
      → newcell m fatal o s
        ≡ and_then
            (after_collection m fatal (record t { errjmp_ok = true }))
            (λ _. take_free m fatal o)
  unfolding newcell gc_for_newcell
  collect_run s t mode empty full jumps e =
      let at_nil : (s.freelist == 0) ≡ true = ground arith in
      if_false _ _ mode
      ∙ if_true _ _ at_nil
      ∙ ap (λ r. and_then r (λ _. take_free m fatal o))
          (if_false _ _ full
            ∙ if_true _ _ jumps
            ∙ ap (λ r. and_then r (λ _ t. after_collection m fatal (record t { errjmp_ok = true })))
                e)

  take_run :
      (u : State) (p q : Ptr)
      → u.freelist ≡ p
      → (p == 0) ≡ false
      → u.cells p ≡ free_cell q
      → (v : State) × (take_free m fatal o u ≡ ok p v) × (v.cells ≡ update u.cells p o)
  unfolding take_free obj
  take_run u p q at ne e = (
    record u {
      freelist = q;
      gc_cells_allocated = u.gc_cells_allocated + 1;
      cells = update u.cells p o;
      marks = update u.marks p false;
    },
    ground arith,
    refl,
  )

  pub after_empty :
      (t : State) → t.freelist ≡ 0 → after_collection m fatal t ≡ allocate_or_fail m fatal t
  unfolding after_collection count_free
  after_empty t e =
      let none_free : (count_free 100 t t.freelist == 0) ≡ true =
        ap (λ p. count_free 100 t p == 0) e
        ∙ ap (λ b. elim b as (λ _. ℕ) [ free_cell q ↦ suc (count_free 99 t q) | _ ↦ 0 ] == 0)
            (obj-zero t) in
      if_true _ _ none_free

  -- What follows a collection that freed cells, with no hook.
  unfoldable pub enlarged : State → Run (Unit {0})
  enlarged t = elim (allocate_aheap t) [ none ↦ ok tt t | some u ↦ ok tt u ]

  pub after_some :
      (t : State) (p q : Ptr)
      → t.freelist ≡ p
      → (p == 0) ≡ false
      → t.cells p ≡ free_cell q
      → t.symbols.sym_after_gc ≡ 0
      → after_collection m fatal t ≡ enlarged t
  unfolding after_collection count_free obj enlarged
  after_some t p q at ne e hook =
      let first : obj t t.freelist ≡ free_cell q = ap (obj t) at ∙ rw (ne, e) in
      let some_free : (count_free 100 t t.freelist == 0) ≡ false =
        ap (λ b. elim b as (λ _. ℕ) [ free_cell q ↦ suc (count_free 99 t q) | _ ↦ 0 ] == 0) first
        ∙ ground arith in
      let no_hook : ((count_free 100 t t.freelist == 100) && not (t.symbols.sym_after_gc == 0))
          ≡ false =
        ground arith in
      if_false _ _ some_free ∙ if_false _ _ no_hook

  -- The head of a free list that no root reaches is taken.
  pub place :
      (s u : State) (roots : List Ptr) (p q : Ptr)
      → u.freelist ≡ p
      → (p == 0) ≡ false
      → u.cells p ≡ free_cell q
      → ¬ (Reach s roots p)
      → ((a : Ptr) → Reach s roots a → u.cells a ≡ s.cells a)
      → (v : State) × (take_free m fatal o u ≡ ok p v) × Placed s v roots p o
  place s u roots p q at ne e new kept =
      let (v, run, cells) = take_run u p q at ne e in
      (
        v,
        run,
        record {
          holds = ap (λ f. f p) cells ∙ (let same : (p == p) ≡ true = ground arith in rw same);
          unreached = new;
          kept = λ a r. ap (λ f. f a) cells ∙ (elim (Bool-cases (a == p)) [
            | inl same ↦
                let here : a ≡ p = ground arith in absurd (new (subst (Reach s roots) here r))
            | inr other ↦ rw other (kept a r)
          ]);
        },
      )
