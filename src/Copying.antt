-- ===== src/Copying.antt =====
-- The copying collector of winsiod/slib.c: `gc_relocate`, `scan_registers`, `get_newspace`,
-- `scan_newspace` and `gc_stop_and_copy`, with `array_gc_relocate` and `array_gc_scan` of
-- winsiod/sliba.c. A mark says that a cell has been moved, and its first word then is the new
-- place. `free_oldspace` releases buffers and changes no cell.
pub mod Ends
pub mod Room
pub mod Moves
pub mod Scan
pub mod Registers
pub mod Copied
use siod.Prelude.{
  ℕ, zero, suc, ◌+◌, ◌-◌, Bool, true, false, List, [], ◌∷◌, ◌==◌, ltb, leb, get_or, if◌then◌else◌,
}
use siod.Store.{
  Ptr, Obj, cons, symbol, closure, lisp_array, Symbols, State, obj, update, Run, ok, fault,
  out_of_fuel, Cmd, pure, and_then, ◌>>=◌, ◌>>◌, view, store, get, modify,
}
use siod.Machine.{Machine}
use siod.Alloc.Error.{gc_fatal_error}

-- `CAR` as the first word of any cell. The rest of a moved cell is not read again: what it holds
-- is kept where it is a pair or a closure, and dropped otherwise.
unfoldable pub first_word : Obj → Ptr
first_word (cons a d) = a
first_word (closure env code) = env
first_word _ = 0

unfoldable pub set_first_word : Ptr → Obj → Obj
set_first_word nw (cons a d) = cons nw d
set_first_word nw (closure env code) = closure nw code
set_first_word nw _ = cons nw 0

-- `get_newspace`: of the first two heaps, the one that is not in use. `heap_org` is `heap_size`
-- cells below `heap_end`.
unfoldable pub get_newspace : State → State
get_newspace s =
    let heap_org = s.heap_end - s.heap_size in
    let newspace = if heap_org == 1 then 1 + s.heap_size else 1 in
    record s { heap = newspace; heap_end = newspace + s.heap_size }

-- The registers that `Symbols` holds.
unfoldable pub symbols_of : List Ptr → Symbols
symbols_of ps = record {
  unbound_marker = get_or ps 0 0;
  eof_val = get_or ps 1 0;
  sym_t = get_or ps 2 0;
  sym_errobj = get_or ps 3 0;
  sym_catchall = get_or ps 4 0;
  sym_progn = get_or ps 5 0;
  sym_lambda = get_or ps 6 0;
  sym_quote = get_or ps 7 0;
  sym_dot = get_or ps 8 0;
  sym_after_gc = get_or ps 9 0;
  sym_eval_history_ptr = get_or ps 10 0;
}

abbrev pub list_symbols : State → List Ptr
list_symbols s =
    s.symbols.unbound_marker ∷ s.symbols.eof_val ∷ s.symbols.sym_t ∷ s.symbols.sym_errobj
    ∷ s.symbols.sym_catchall ∷ s.symbols.sym_progn ∷ s.symbols.sym_lambda ∷ s.symbols.sym_quote
    ∷ s.symbols.sym_dot ∷ s.symbols.sym_after_gc ∷ s.symbols.sym_eval_history_ptr ∷ []

module _ (m : Machine) where
  -- The copy of a cell at the next place of the new space. Every type is moved in this way, also by
  -- `array_gc_relocate`; a hook of an extension is left out.
  unfoldable pub move : Ptr → Cmd Ptr
  move x s =
      if leb s.heap_end s.heap
      then and_then (gc_fatal_error m s) (λ _ _. fault)
      else ok s.heap (record s {
        heap = s.heap + 1;
        cells = update (update s.cells s.heap (s.cells x)) x (set_first_word s.heap (s.cells x));
        marks = update (update s.marks s.heap (s.marks x)) x true;
      })

  unfoldable pub gc_relocate : Ptr → Cmd Ptr
  gc_relocate x s =
      if x == 0 then ok 0 s else if s.marks x then ok (first_word (s.cells x)) s else move x s

  -- A row of locations, in order; the new contents.
  unfoldable pub relocate_each : List Ptr → Cmd (List Ptr)
  relocate_each [] = pure []
  relocate_each (x ∷ xs) = do y ← gc_relocate x; ys ← relocate_each xs; pure (y ∷ ys)

  -- The order of the registers is not that of the C code, in which the last protected comes first.
  unfoldable pub scan_registers : Cmd (Unit {0})
  scan_registers = do
    oblist ← get (λ s. s.oblistvar)
    oblist' ← gc_relocate oblist
    modify (λ s. record s { oblistvar = oblist' })
    registers ← get list_symbols
    registers' ← relocate_each registers
    modify (λ s. record s { symbols = symbols_of registers' })
    buckets ← get (λ s. s.obarray)
    buckets' ← relocate_each buckets
    modify (λ s. record s { obarray = buckets' })
    inums ← get (λ s. s.inums)
    inums' ← relocate_each inums
    modify (λ s. record s { inums = inums' })
    locations ← get (λ s. s.protected)
    locations' ← relocate_each locations
    modify (λ s. record s { protected = locations' })

  -- The pointers of one cell of the new space, by what is in it.
  unfoldable pub scan_obj : Ptr → Obj → Cmd (Unit {0})
  scan_obj ptr (cons a d) = do
    a' ← gc_relocate a
    store ptr (cons a' d)
    d' ← gc_relocate d
    store ptr (cons a' d')
  scan_obj ptr (closure env code) = do
    env' ← gc_relocate env
    store ptr (closure env' code)
    code' ← gc_relocate code
    store ptr (closure env' code')
  scan_obj ptr (symbol name v) = do v' ← gc_relocate v; store ptr (symbol name v')
  scan_obj ptr (lisp_array xs) = do ys ← relocate_each xs; store ptr (lisp_array ys)
  scan_obj ptr _ = pure tt

  unfoldable pub scan_cell : Ptr → Cmd (Unit {0})
  scan_cell ptr = do o ← view ptr; scan_obj ptr o

  -- The loop runs as long as cells are added: the fuel bounds its rounds.
  unfoldable pub scan_newspace : ℕ → Ptr → Cmd (Unit {0})
  scan_newspace zero ptr s = out_of_fuel
  scan_newspace (suc f) ptr s =
      let next = and_then (scan_cell ptr s) (λ _. scan_newspace f (ptr + 1)) in
      if ltb ptr s.heap then next else ok tt s

  unfoldable pub gc_stop_and_copy : Cmd (Unit {0})
  gc_stop_and_copy s0 =
      let s = get_newspace (record s0 { errjmp_ok = false }) in
      (scan_registers
          >> scan_newspace (s.heap_size + 1) s.heap
          >> modify (λ u. record u { errjmp_ok = true }))
        s
