-- ===== src/Gc/Safety.antt =====
-- On `gc_mark_and_sweep` of winsiod/slib.c: the cells and the free list after a collection.
use siod.Prelude.{
  refl, ℕ, zero, suc, ◌+◌, ◌≤◌, ◌<◌, ◌≡◌, true, false, ◌⊎◌, inl, inr, some, List, length, arith,
  Bool-cases,
}
use siod.Store.{Ptr, State, ok}
use siod.Machine.{Machine}
use siod.Gc.{Marks, mark_each, gc_mark}
use siod.Gc.Reach.{Has, Reach, unmarked}
use siod.Gc.Marking.{Marked, IsBounded, mark_each-Marked, gc_mark-Marked}
use siod.Gc.Sweep.{gc_sweep, in_heaps}
use siod.Gc.Sweeping.{FreeChain, FreeList, gc_sweep-FreeList}
use siod.Gc.Collect.{fill_heap, gc_roots, cell_count, gc_mark_and_sweep, sweep_phase}

-- A heap between collections: no mark is left, and every pointer names a cell of a heap or `NIL`.
pub record IsClean (m : Machine) (s : State) : Type 0 where
  pub unmarked : (a : Ptr) → s.marks a ≡ false
  pub bounded : IsBounded s (cell_count s)
  pub roots : (a : Ptr) → Has a (gc_roots m s) → a < cell_count s

unmarked-le : (n : ℕ) (k : Marks) → unmarked n k ≤ n
unfolding unmarked
unmarked-le zero k = omega arith
unmarked-le (suc n) k = ground (arith, unmarked-le n k)

-- What a collection leaves of the state `s` and its roots.
pub record Collected (s t : State) (roots : List Ptr) (xs : List Ptr) : Type 0 where
  pub kept : (a : Ptr) → Reach s roots a → t.cells a ≡ s.cells a
  pub not_free : (a : Ptr) → Reach s roots a → ¬ (Has a xs)
  pub chain : FreeChain t.cells t.freelist xs
  pub freed : (a : Ptr) → in_heaps s.heaps s.heap_size 1 a ≡ true → Has a xs ⊎ Reach s roots a
  pub unmarked : (a : Ptr) → in_heaps s.heaps s.heap_size 1 a ≡ true → t.marks a ≡ false
  pub counted : t.gc_cells_collected ≡ length xs
  pub inside : (a : Ptr) → Has a xs → in_heaps s.heaps s.heap_size 1 a ≡ true
  pub same_symbols : t.symbols ≡ s.symbols
  pub same_heaps : t.heaps ≡ s.heaps
  pub same_size : t.heap_size ≡ s.heap_size
  pub same_mode : t.gc_kind_copying ≡ s.gc_kind_copying

module _ {s : State} {ps : List Ptr} {k : Marks} (clean : (a : Ptr) → s.marks a ≡ false)
    (v : Marked s ps s.marks k) where
  Reach-marked : {a : Ptr} → Reach s ps a → k a ≡ true
  Reach-marked (Reach.start h n) = v.roots _ h n
  Reach-marked (Reach.step r e) = v.closed _ _ (clean _) (Reach-marked r) e

  marked-Reach : {a : Ptr} → k a ≡ true → Reach s ps a
  marked-Reach {a} h = elim (v.sound a h) [ inl old ↦ absurd (ground (arith, clean a)) | inr r ↦ r ]

  swept-Collected :
      (m : Machine) {xs : List Ptr}
      → FreeList (record s { marks = k }) (gc_sweep (record s { marks = k })) xs
      → Collected s (sweep_phase m s k) ps xs
  unfolding sweep_phase gc_sweep
  swept-Collected m f = record {
    kept = λ a r. f.kept a (Reach-marked r);
    not_free = λ a r h. let o = f.only a h in let t = Reach-marked r in cc;
    chain = f.chain;
    freed = λ a h. elim (Bool-cases (k a)) [
      | inl black ↦ inr (marked-Reach black)
      | inr white ↦ inl (f.free a h white)
    ];
    unmarked = f.cleared;
    counted = f.counted;
    inside = λ a h. (f.only a h).0;
    same_symbols = refl;
    same_heaps = refl;
    same_size = refl;
    same_mode = refl;
  }

run-ok :
    (m : Machine) (s : State) (k : Marks)
    → mark_each
        (gc_mark (fill_heap s) (cell_count (fill_heap s) + 1))
        (gc_roots m (fill_heap s))
        (fill_heap s).marks
      ≡ some k
    → gc_mark_and_sweep m s ≡ ok tt (sweep_phase m (fill_heap s) k)
unfolding gc_mark_and_sweep
run-ok m s k e = cc

-- In a heap without marks whose pointers and roots all are below the number of cells, a collection
-- ends. It leaves every cell that the roots reach as it was, and off the free list; the free list
-- is a chain that holds every cell of a heap that cannot be reached; no cell of a heap is marked,
-- and the number of the free cells is counted.
pub gc_mark_and_sweep-Collected :
    (m : Machine) (s : State)
    → IsClean m (fill_heap s)
    → (t : State) × (xs : List Ptr) × (gc_mark_and_sweep m s ≡ ok tt t)
      × Collected (fill_heap s) t (gc_roots m (fill_heap s)) xs
gc_mark_and_sweep-Collected m s0 clean =
    let s = fill_heap s0 in
    let n = cell_count s in
    let (k, e, v) =
      mark_each-Marked n clean.bounded (n + 1) (gc_mark-Marked n clean.bounded (n + 1))
        (gc_roots m s) s.marks clean.roots (omega (arith, unmarked-le n s.marks)) in
    let (xs, f) = gc_sweep-FreeList (record s { marks = k }) in
    (sweep_phase m s k, xs, run-ok m s0 k e, swept-Collected clean.unmarked v m f)
