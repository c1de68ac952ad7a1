-- ===== src/Alloc.antt =====
-- Storage and errors of winsiod/slib.c: `NEWCELL` (winsiod/siodp.h), `gc_for_newcell`,
-- `allocate_aheap`, `cons`, `strcons`, `err` and `get_c_string`. `err` allocates, and an allocation
-- may call `err`, once: the inner call finds `inside_err` set and allocates nothing.
pub mod Error
pub mod Fresh
pub mod Jump
pub mod Catch
pub mod Leaves
pub mod Reports
pub mod Heaps
pub mod Taking
pub mod Reuse
pub mod Refill
use siod.Prelude.{
  ◌/◌, ◌%◌, ◌++◌, codes, ◌&&◌, ℕ, zero, suc, ◌+◌, ◌-◌, ◌*◌, Bool, true, false, ◌||◌, not, Option,
  none, some, List, [], ◌∷◌, ◌==◌, ltb, leb, if◌then◌else◌, length, take, String,
}
use siod.Store.{
  Ptr, Bytes, Obj, nil, free_cell, cons, symbol, string, Frame, State, obj, update, set_cell, Run,
  ok, caught, toplevel, exited, fault, out_of_fuel, Cmd, pure, and_then, ◌>>=◌, ◌>>◌, view, store,
  get, modify,
}
use siod.Machine.{Machine}
use siod.Gc.Collect.{gc_mark_and_sweep}

-- The part of a buffer before its first NUL: what `strlen`, `strcpy` and `%s` see.
unfoldable pub c_str : Bytes → Bytes
c_str [] = []
c_str (c ∷ cs) = if c == 0 then [] else c ∷ c_str cs

-- `allocate_aheap`: the first heap that is missing, if there is one.
unfoldable pub missing_heap : ℕ → List Bool → Option ℕ
missing_heap j [] = none
missing_heap j (there ∷ hs) = if there then missing_heap (j + 1) hs else some j

unfoldable pub enable_heap : ℕ → List Bool → List Bool
enable_heap j [] = []
enable_heap zero (there ∷ hs) = true ∷ hs
enable_heap (suc j) (there ∷ hs) = there ∷ enable_heap j hs

-- Its loop over the `k` cells from `p` on: each points to the next, the last to the free list.
unfoldable pub chain_cells : ℕ → Ptr → Ptr → (Ptr → Obj) → Ptr → Obj
chain_cells zero p last cells = cells
chain_cells (suc k) p last cells =
    chain_cells k (p + 1) last (update cells p (free_cell (if k == 0 then last else p + 1)))

-- A number as `printf ("%ld")` writes it, of at most so many digits.
unfoldable pub digits_of : ℕ → ℕ → Bytes
digits_of zero n = []
digits_of (suc k) n =
    if ltb n 10 then (b'0' + n) ∷ [] else digits_of k (n / 10) ++ ((b'0' + n % 10) ∷ [])

-- The message of `allocate_aheap`, in front of those before it.
unfoldable pub heap_message : ℕ → State → List Bytes
heap_message j s =
    if s.gc_status_flag && leb 4 s.siod_verbose_level
    then (codes "[allocating heap " ++ (digits_of (suc j) j ++ codes "]\n")) ∷ s.out
    else s.out

unfoldable pub allocate_aheap : State → Option State
allocate_aheap s = elim (missing_heap 0 s.heaps) [
  | none ↦ none
  | some j ↦
      let base = 1 + j * s.heap_size in
      some (record s {
        heaps = enable_heap j s.heaps;
        cells = chain_cells s.heap_size base s.freelist s.cells;
        freelist = base;
        out = heap_message j s;
      })
]

-- The loop that counts the free cells, up to a bound.
unfoldable pub count_free : ℕ → State → Ptr → ℕ
count_free zero s l = 0
count_free (suc k) s l = elim (obj s l) [ free_cell q ↦ suc (count_free k s q) | _ ↦ 0 ]

-- The calls below take `gc_fatal_error ()` as a command. Where it returns, the C code goes on with a
-- cell that is not there.
module _ (m : Machine) (fatal : Cmd Ptr) where
  unfoldable pub allocate_or_fail : Cmd (Unit {0})
  allocate_or_fail s =
      if s.gc_kind_copying
      then and_then (fatal s) (λ _ _. fault)
      else elim (allocate_aheap s) [ none ↦ and_then (fatal s) (λ _ _. fault) | some t ↦ ok tt t ]

  -- What is done after a collection, by the number of free cells, at most 100.
  unfoldable pub after_collection : Cmd (Unit {0})
  after_collection s =
      let n = count_free 100 s s.freelist in
      if n == 0
      then allocate_or_fail s
      else if (n == 100) && not (s.symbols.sym_after_gc == 0)
      then and_then (m.eval s.symbols.sym_after_gc 0 s)
          (λ form t. and_then (m.eval form 0 t) (λ _ u. ok tt u))
      else elim (allocate_aheap s) [ none ↦ ok tt s | some t ↦ ok tt t ]

  unfoldable pub gc_for_newcell : Cmd (Unit {0})
  gc_for_newcell s =
      if ltb s.heap s.heap_end
      then ok tt (record s {
        freelist = s.heap;
        cells = update s.cells s.heap (free_cell 0);
        heap = s.heap + 1;
      })
      else if s.errjmp_ok
      then and_then (gc_mark_and_sweep m (record s { errjmp_ok = false }))
          (λ _ t. after_collection (record t { errjmp_ok = true }))
      else and_then (fatal s) (λ _ _. fault)

  -- The cell at the head of the free list becomes the new object.
  unfoldable pub take_free : Obj → Cmd Ptr
  take_free o s = elim (obj s s.freelist) [
    | free_cell q ↦ ok s.freelist (record s {
      freelist = q;
      gc_cells_allocated = s.gc_cells_allocated + 1;
      cells = update s.cells s.freelist o;
      marks = update s.marks s.freelist false;
    })
    | _ ↦ fault
  ]

  -- `NEWCELL`, with the contents that the caller stores in the cell.
  unfoldable pub newcell : Obj → Cmd Ptr
  newcell o s =
      if s.gc_kind_copying
      then (if leb s.heap_end s.heap
          then and_then (fatal s) (λ _ _. fault)
          else ok s.heap (record s {
            heap = s.heap + 1;
            cells = update s.cells s.heap o;
            marks = update s.marks s.heap false;
          }))
      else if s.freelist == 0
      then and_then (gc_for_newcell s) (λ _. take_free o)
      else take_free o s
