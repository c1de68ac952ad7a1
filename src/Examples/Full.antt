-- ===== src/Examples/Full.antt =====
-- An allocation on the small heap when its free list is used up.
use siod.Prelude.{◌<◌, ◌≡◌, refl, true, false, [], ◌∷◌, ◌==◌, arith}
use siod.Store.{Ptr, flonum, State, obj}
use siod.Gc.Reach.{Has, Reach}
use siod.Gc.Sweep.{in_heaps, looks_pointerp}
use siod.Gc.Marking.{IsBounded}
use siod.Gc.Collect.{fill_heap, fill_cells, fill_marks, gc_roots, pointers}
use siod.Gc.Safety.{IsClean}
use siod.Alloc.{newcell}
use siod.Alloc.Error.{gc_fatal_error}
use siod.Alloc.Reuse.{Reused}
use siod.Alloc.Refill.{filled, newcell-Reused}
use siod.Examples.{machine, memory, Has-below}
use siod.Examples.Memory.{memory-IsBounded}

abbrev full : State
full = record memory { freelist = 0 }

full-IsBounded : IsBounded full 15
unfolding obj
full-IsBounded = memory-IsBounded

full-roots : (a : Ptr) → Has a (gc_roots machine (filled full)) → a < 15
unfolding fill_heap fill_cells fill_marks pointers looks_pointerp in_heaps obj
full-roots a h = Has-below 15 (gc_roots machine (filled full)) a refl h

full-IsClean : IsClean machine (filled full)
unfolding fill_heap fill_cells fill_marks obj
full-IsClean = record { unmarked = λ a. refl; bounded = full-IsBounded; roots = full-roots }

one_heap : (a : Ptr) → (a == 0) ≡ false → a < 15 → in_heaps (true ∷ []) 14 1 a ≡ true
unfolding in_heaps
one_heap a ne lt = ground arith

full-inside :
    (a : Ptr)
    → Reach (filled full) (gc_roots machine (filled full)) a
    → in_heaps (filled full).heaps (filled full).heap_size 1 a ≡ true
unfolding fill_heap fill_cells fill_marks obj
full-inside a (Reach.start h n) = one_heap a n (full-roots a h)
full-inside a (Reach.step {q} r e) = one_heap a e.ne_nil (full-IsBounded q a e.child)

newcell-Reused_example :
    Reused
      (filled full)
      (gc_roots machine (filled full))
      (flonum 4)
      (newcell machine (gc_fatal_error machine) (flonum 4) full)
newcell-Reused_example =
    newcell-Reused machine (gc_fatal_error machine) (flonum 4) full refl refl (omega arith) refl
      (omega arith) refl full-IsClean full-inside
