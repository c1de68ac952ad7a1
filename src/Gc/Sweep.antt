-- ===== src/Gc/Sweep.antt =====
-- `gc_sweep` and `looks_pointerp` of winsiod/slib.c. Heap `j` holds the `heap_size` cells from
-- number `1 + j * heap_size` on.
use siod.Prelude.{
  ℕ, zero, suc, ◌+◌, Bool, true, false, ◌&&◌, ◌||◌, not, List, [], ◌∷◌, ltb, leb, if◌then◌else◌,
}
use siod.Store.{Ptr, Obj, free_cell, State, obj, update}
use siod.Gc.{Marks}

-- The local variables of `gc_sweep`, with the cells and marks that it writes.
pub record Sweep : Type 0 where
  pub cells : Ptr → Obj
  pub marks : Marks
  pub nfreelist : Ptr
  pub n : ℕ

unfoldable pub sweep_cell : Ptr → Sweep → Sweep
sweep_cell ptr w = if w.marks ptr then record w { marks = update w.marks ptr false } else record w {
  cells = update w.cells ptr (free_cell w.nfreelist);
  nfreelist = ptr;
  n = w.n + 1;
}

-- The inner loop, with the cells that are left.
unfoldable pub sweep_range : ℕ → Ptr → Sweep → Sweep
sweep_range zero ptr w = w
sweep_range (suc k) ptr w = sweep_range k (ptr + 1) (sweep_cell ptr w)

unfoldable pub sweep_heaps : List Bool → ℕ → Ptr → Sweep → Sweep
sweep_heaps [] size org w = w
sweep_heaps (there ∷ hs) size org w =
    sweep_heaps hs size (org + size) (if there then sweep_range size org w else w)

unfoldable pub gc_sweep : State → State
gc_sweep s =
    let w =
      sweep_heaps s.heaps s.heap_size 1
        (record { cells = s.cells; marks = s.marks; nfreelist = 0; n = 0 }) in
    record s { cells = w.cells; marks = w.marks; gc_cells_collected = w.n; freelist = w.nfreelist }

abbrev pub in_range : Ptr → ℕ → Ptr → Bool
in_range org k a = leb org a && ltb a (org + k)

-- The loop of `looks_pointerp` over the heaps that exist.
unfoldable pub in_heaps : List Bool → ℕ → Ptr → Ptr → Bool
in_heaps [] size org a = false
in_heaps (there ∷ hs) size org a = (there && in_range org size a) || in_heaps hs size (org + size) a

abbrev pub is_free_cell : Obj → Bool
is_free_cell (free_cell p) = true
is_free_cell _ = false

unfoldable pub looks_pointerp : State → Ptr → Bool
looks_pointerp s p = in_heaps s.heaps s.heap_size 1 p && not (is_free_cell (obj s p))
