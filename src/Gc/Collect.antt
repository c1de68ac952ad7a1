-- ===== src/Gc/Collect.antt =====
-- `gc_mark_and_sweep` of winsiod/slib.c: the roots, the mark phase and the sweep together.
use siod.Prelude.{
  ℕ, zero, suc, ◌+◌, ◌-◌, ◌*◌, false, ◌&&◌, none, some, List, [], ◌∷◌, ◌++◌, length, leb,
  if◌then◌else◌, codes,
}
use siod.Store.{Ptr, Obj, free_cell, State, ok, out_of_fuel, Cmd, update}
use siod.Machine.{Machine}
use siod.Gc.{Marks, mark_each, gc_mark}
use siod.Gc.Sweep.{gc_sweep, looks_pointerp}

-- The first loop: the cells that were never used become free cells without a mark.
unfoldable pub fill_cells : ℕ → Ptr → (Ptr → Obj) → Ptr → Obj
fill_cells zero p cells = cells
fill_cells (suc k) p cells = fill_cells k (p + 1) (update cells p (free_cell 0))

unfoldable pub fill_marks : ℕ → Ptr → Marks → Marks
fill_marks zero p m = m
fill_marks (suc k) p m = fill_marks k (p + 1) (update m p false)

unfoldable pub fill_heap : State → State
unfolding fill_cells fill_marks
fill_heap s =
    let k = s.heap_end - s.heap in
    record s {
      cells = fill_cells k s.heap s.cells;
      marks = fill_marks k s.heap s.marks;
      heap = s.heap + k;
    }

-- The contents of `protected_registers`.
abbrev pub protected_registers : State → List Ptr
protected_registers s =
    s.oblistvar ∷ s.symbols.unbound_marker ∷ s.symbols.eof_val ∷ s.symbols.sym_t
      ∷ s.symbols.sym_errobj ∷ s.symbols.sym_catchall ∷ s.symbols.sym_progn ∷ s.symbols.sym_lambda
      ∷ s.symbols.sym_quote ∷ s.symbols.sym_dot ∷ s.symbols.sym_after_gc
      ∷ s.symbols.sym_eval_history_ptr ∷ s.obarray
    ++ (s.inums ++ s.protected)

-- `mark_locations_array` keeps the words that look like pointers.
unfoldable pub pointers : State → List Ptr → List Ptr
pointers s [] = []
pointers s (p ∷ ps) = let rest = pointers s ps in if looks_pointerp s p then p ∷ rest else rest

-- What is marked, in the order of the calls.
abbrev pub gc_roots : Machine → State → List Ptr
gc_roots m s =
    pointers s (m.saved_registers s) ++ (protected_registers s ++ pointers s (m.stack_words s))

-- The number of cells of all heaps, and `NIL`.
abbrev pub cell_count : State → ℕ
cell_count s = 1 + length s.heaps * s.heap_size

-- What follows the marking: the sweep, and the message of `gc_ms_stats_end` after that of
-- `gc_ms_stats_start`.
unfoldable pub sweep_phase : Machine → State → Marks → State
sweep_phase m s k =
    let t = gc_sweep (record s { marks = k }) in
    let talk = s.gc_status_flag && leb 4 s.siod_verbose_level in
    record t {
      out =
          if talk
          then m.gc_stats_line t.gc_cells_collected ∷ codes "[starting GC]\n" ∷ s.out
          else s.out;
    }

unfoldable pub gc_mark_and_sweep : Machine → Cmd (Unit {0})
unfolding fill_heap sweep_phase
gc_mark_and_sweep m s0 =
    let s = fill_heap s0 in
    elim (mark_each (gc_mark s (cell_count s + 1)) (gc_roots m s) s.marks) [
      | none ↦ out_of_fuel
      | some k ↦ ok tt (sweep_phase m s k)
    ]
