-- ===== src/Examples/Memory.antt =====
-- The collector and an allocation on the small heap.
use siod.Prelude.{
  ℕ, zero, suc, ◌<◌, ◌≡◌, refl, Bool, true, List, [], ◌∷◌, arith, get_or, ◌&&◌, subst, some,
}
use siod.Store.{Ptr, Obj, free_cell, State, obj, ok, flonum}
use siod.Gc.{Marks, children, gc_mark}
use siod.Gc.Reach.{Has, unmarked}
use siod.Gc.Marking.{Marked, IsBounded, gc_mark-Marked}
use siod.Gc.Collect.{fill_heap, fill_cells, fill_marks, gc_roots, gc_mark_and_sweep, pointers}
use siod.Gc.Sweeping.{FreeList, gc_sweep-FreeList}
use siod.Gc.Sweep.{gc_sweep, looks_pointerp, in_heaps}
use siod.Gc.Safety.{IsClean, Collected, gc_mark_and_sweep-Collected}
use siod.Alloc.{newcell}
use siod.Alloc.Error.{gc_fatal_error}
use siod.Alloc.Fresh.{Ready, Fresh, newcell-Fresh}
use siod.Examples.{machine, table, memory, all_below, Has-below}

abbrev children_below : ℕ → List Obj → Bool
children_below n [] = true
children_below n (o ∷ os) = all_below n (children o) && children_below n os

get_or-below :
    (n : ℕ) (os : List Obj) (q c : Ptr)
    → children_below n os ≡ true
    → Has c (children (get_or os q (free_cell 0)))
    → c < n
get_or-below n [] q c h k = elim k [ ]
get_or-below n (o ∷ os) zero c h k = Has-below n (children o) c (ground arith) k
get_or-below n (o ∷ os) (suc q) c h k = get_or-below n os q c (ground arith) k

pub obj-get_or : (q : Ptr) → obj memory q ≡ get_or table q (free_cell 0)
unfolding obj
obj-get_or zero = refl
obj-get_or (suc q) = ground arith

pub memory-IsBounded : IsBounded memory 15
memory-IsBounded q c h =
    get_or-below 15 table q c refl (subst (λ o. Has c (children o)) (obj-get_or q) h)

memory-filled : fill_heap memory ≡ memory
unfolding fill_heap fill_cells fill_marks
memory-filled = refl

memory-IsClean : IsClean machine (fill_heap memory)
unfolding fill_heap fill_cells fill_marks pointers looks_pointerp in_heaps obj
memory-IsClean = record {
  unmarked = λ a. refl;
  bounded = memory-IsBounded;
  roots = λ a h. Has-below 15 (gc_roots machine memory) a refl h;
}

pub memory-Ready : Ready memory (7 ∷ 8 ∷ 9 ∷ 14 ∷ [])
memory-Ready = record {
  sweeping = refl;
  chain = (
    refl,
    refl,
    (8, refl, (refl, refl, (9, refl, (refl, refl, (14, refl, (refl, refl, (0, refl, refl))))))),
  );
}

gc_mark_and_sweep-Collected_example :
    (t : State) × (xs : List Ptr) × (gc_mark_and_sweep machine memory ≡ ok tt t)
    × Collected (fill_heap memory) t (gc_roots machine (fill_heap memory)) xs
gc_mark_and_sweep-Collected_example = gc_mark_and_sweep-Collected machine memory memory-IsClean

gc_sweep-FreeList_example : (xs : List Ptr) × FreeList memory (gc_sweep memory) xs
gc_sweep-FreeList_example = gc_sweep-FreeList memory

memory-unmarked : unmarked 15 memory.marks ≡ 15
unfolding unmarked
memory-unmarked = refl

gc_mark-Marked_example :
    (k : Marks) × (gc_mark memory 16 3 memory.marks ≡ some k)
    × Marked memory (3 ∷ []) memory.marks k
gc_mark-Marked_example =
    gc_mark-Marked {s = memory} 15 memory-IsBounded 16 3 memory.marks (omega arith)
      (omega (arith, memory-unmarked))

newcell-Fresh_example :
    (t : State) × (newcell machine (gc_fatal_error machine) (flonum 4) memory ≡ ok 7 t)
    × Fresh memory t 7 (flonum 4) (8 ∷ 9 ∷ 14 ∷ [])
newcell-Fresh_example =
    newcell-Fresh machine (gc_fatal_error machine) (flonum 4) memory memory-Ready
