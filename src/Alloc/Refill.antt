-- ===== src/Alloc/Refill.antt =====
-- `newcell` with an empty free list: a collection, and a new heap where one is missing.
use siod.Prelude.{◌≤◌, ◌≡◌, sym, ◌∙◌, subst, true, false, List, [], ◌∷◌, ltb, arith}
use siod.Store.{Ptr, Obj, State, Cmd, and_then}
use siod.Machine.{Machine}
use siod.Gc.Reach.{Reach}
use siod.Gc.Sweep.{in_heaps}
use siod.Gc.Collect.{fill_heap, gc_roots}
use siod.Gc.Safety.{IsClean, Collected, gc_mark_and_sweep-Collected}
use siod.Alloc.{after_collection, take_free, newcell}
use siod.Alloc.Taking.{collect_run}
use siod.Alloc.Reuse.{Reused, Reused-none, Reused-some}

-- The state that the collection of an allocation starts from.
abbrev pub filled : State → State
filled s = fill_heap (record s { errjmp_ok = false })

reused :
    (m : Machine) (fatal : Cmd Ptr) (o : Obj) (s t : State) (roots xs : List Ptr)
    → ((a : Ptr) → Reach s roots a → in_heaps s.heaps s.heap_size 1 a ≡ true)
    → 1 ≤ s.heap_size
    → s.gc_kind_copying ≡ false
    → s.symbols.sym_after_gc ≡ 0
    → Collected s t roots xs
    → Reused s roots o (
        and_then
          (after_collection m fatal (record t { errjmp_ok = true }))
          (λ _. take_free m fatal o))
reused m fatal o s t roots [] inside size mode hook c =
    Reused-none m fatal o s t roots inside size c (c.same_mode ∙ mode)
reused m fatal o s t roots (x ∷ xs) inside size mode hook c =
    Reused-some m fatal o s t roots inside size x xs c hook

-- An allocation in the mark-and-sweep mode whose free list and fresh cells are used up, where jumps
-- are allowed, heaps are not empty, no hook runs after a collection, and the heap is clean, with all
-- that the roots reach inside the heaps, ends. It returns a cell that the roots do not reach, with the
-- new object, and keeps every cell that they reach; or it does not return, and then every cell of the
-- heaps is reached and no heap is missing.
pub newcell-Reused :
    (m : Machine) (fatal : Cmd Ptr) (o : Obj) (s : State)
    → s.gc_kind_copying ≡ false
    → s.freelist ≡ 0
    → s.heap_end ≤ s.heap
    → s.errjmp_ok ≡ true
    → 1 ≤ s.heap_size
    → s.symbols.sym_after_gc ≡ 0
    → IsClean m (filled s)
    → ((a : Ptr)
        → Reach (filled s) (gc_roots m (filled s)) a
        → in_heaps (filled s).heaps (filled s).heap_size 1 a ≡ true)
    → Reused (filled s) (gc_roots m (filled s)) o (newcell m fatal o s)
unfolding fill_heap
newcell-Reused m fatal o s mode empty full jumps size hook clean inside =
    let (t, xs, run, c) = gc_mark_and_sweep-Collected m (record s { errjmp_ok = false }) clean in
    let all_used : ltb s.heap s.heap_end ≡ false = ground arith in
    subst (Reused (filled s) (gc_roots m (filled s)) o)
      (sym (collect_run m fatal o s t mode empty all_used jumps run))
      (reused m fatal o (filled s) t (gc_roots m (filled s)) xs inside size mode hook c)
