-- ===== src/Copying/Copied.antt =====
-- On `gc_stop_and_copy` of winsiod/slib.c as a whole, in a heap whose pointers are in order.
use siod.Prelude.{
  ℕ, zero, suc, ◌+◌, ◌-◌, ◌≤◌, ◌<◌, ◌≡◌, refl, sym, ap, subst, true, false, ◌==◌, ltb,
  if◌then◌else◌, arith, Bool-cases, ◌⊎◌, inl, inr,
}
use siod.Store.{Ptr, State, obj, Run, ok, Cmd, ◌>>◌, modify}
use siod.Machine.{Machine}
use siod.Copying.{get_newspace, scan_registers, scan_cell, scan_newspace, gc_stop_and_copy}
use siod.Copying.Room.{globals, Inside, Spaces, Room, Returns, Returns-and_then, unmarked_most}
use siod.Copying.Registers.{Registers, Registers-grown, Ready, scan_registers-Ready}
use siod.Copying.Scan.{Closed, scan_obj-Closed}

module _ (m : Machine) (v : Spaces) where
  -- The state when all cells of the new space are scanned.
  abbrev pub Scanned : ℕ → State → Type 0
  Scanned n t = Room v t.heap t.heap t × (n ≤ t.heap)

  scan_next :
      (ptr : Ptr) (s : State)
      → v.new ≤ ptr
      → ptr < s.heap
      → Room v ptr ptr s
      → Returns (λ _ t. Closed v ptr s.heap t) (scan_cell m ptr s)
  unfolding scan_cell obj
  scan_next ptr s low lt r =
      let first = v.new_first in
      let some_cell : (ptr == 0) ≡ false = ground arith in
      let r' : Room v ptr (ptr + 1) s = record {
        same = r.same;
        ends = r.ends;
        room = r.room;
        bottom = r.bottom;
        here = r.here;
        moved = r.moved;
        done = r.done;
        waits = λ y le. r.waits y (omega (arith, le));
      } in
      rw some_cell
        (scan_obj-Closed m v ptr low (s.cells ptr) s r' lt refl (r.waits ptr (omega arith) lt))

  scan_newspace-Scanned :
      (f : ℕ) (ptr : Ptr) (s : State) (n : ℕ)
      → n ≤ s.heap
      → v.new ≤ ptr
      → ptr ≤ s.heap
      → v.new + v.k < ptr + f
      → Room v ptr ptr s
      → Returns (λ _ t. Scanned n t) (scan_newspace m f ptr s)
  unfolding scan_newspace
  scan_newspace-Scanned zero ptr s n at low le lt r =
      let room = r.room in omega (arith, room, le, lt)
  scan_newspace-Scanned (suc f) ptr s n at low le lt r = elim (Bool-cases (ltb ptr s.heap)) [
    | inl more ↦
        let below : ptr < s.heap = ground arith in
        rw more (
          Returns-and_then (λ _ t. Closed v ptr s.heap t) (λ _ t. Scanned n t) (scan_cell m ptr s) _
            (scan_next ptr s low below r)
            (λ _ t (r', up).
              scan_newspace-Scanned f (ptr + 1) t n (omega (arith, at, up)) (omega (arith, low))
                (omega (arith, up, below)) (omega (arith, lt)) r'))
    | inr done ↦
        let top : ptr ≡ s.heap = ground arith in rw done (subst (λ z. Room v z z s) top r, at)
  ]

-- The two spaces and the protected locations when a collection is done.
record Packed (v : Spaces) (t : State) : Type 0 where
  ends : t.heap_end ≡ v.new + v.size
  filled : t.heap ≤ v.new + v.k
  cells : (p : Ptr) → v.new ≤ p → p < t.heap → Inside v.new t.heap (t.cells p)
  registers : Registers v.new t.heap t

Returns-map :
    {A : Type 0} (P Q : A → State → Type 0) (r : Run A)
    → ((a : A) (t : State) → P a t → Q a t)
    → Returns P r
    → Returns Q r
Returns-map P Q (ok a t) h p = h a t p
Returns-map P Q _ h p = elim p [ ]

scan_newspace-Packed :
    (m : Machine) (v : Spaces) (t : State)
    → Room v v.new v.new t
    → Registers v.new t.heap t
    → Returns (λ _ u. Packed v u) (scan_newspace m (v.size + 1) v.new t)
scan_newspace-Packed m v t r regs =
    let v' = record v { fixed = λ g. g ≡ globals t } in
    let enough = v.enough in
    let r' : Room v' v.new v.new t = record {
      same = refl;
      ends = r.ends;
      room = r.room;
      bottom = r.bottom;
      here = r.here;
      moved = r.moved;
      done = r.done;
      waits = r.waits;
    } in
    Returns-map (λ _ u. Scanned m v' t.heap u) (λ _ u. Packed v u)
      (scan_newspace m (v.size + 1) v.new t)
      (λ _ u (q, up). record {
        ends = q.ends;
        filled = (let room = q.room in omega (arith, room));
        cells = q.done;
        registers = Registers-grown v.new t u q.same up regs;
      })
      (scan_newspace-Scanned m v' (v.size + 1) v.new t t.heap (omega arith) (omega arith) r.bottom
        (omega (arith, enough)) r')

-- The state before a copying collection: both spaces are there, no cell of the old one has a mark,
-- and its pointers and the registers stay in it. `used` cells are in use.
pub record Orderly (s : State) (lo used new : ℕ) : Type 0 where
  pub spaces : ((lo ≡ 1) × (new ≡ 1 + s.heap_size)) ⊎ ((lo ≡ 1 + s.heap_size) × (new ≡ 1))
  pub end : s.heap_end ≡ lo + s.heap_size
  pub heap : s.heap ≡ lo + used
  pub enough : used ≤ s.heap_size
  pub clear : (q : ℕ) → q < used → s.marks (lo + q) ≡ false
  pub cells : (q : ℕ) → q < used → Inside lo (lo + used) (s.cells (lo + q))
  pub registers : Registers lo (lo + used) s

-- The state after it.
pub record Compact (s : State) (used new : ℕ) (t : State) : Type 0 where
  pub jumps : t.errjmp_ok ≡ true
  pub end : t.heap_end ≡ new + s.heap_size
  pub filled : t.heap ≤ new + used
  pub cells : (p : Ptr) → new ≤ p → p < t.heap → Inside new t.heap (t.cells p)
  pub registers : Registers new t.heap t

-- What follows `get_newspace`.
abbrev copy_phase : Machine → Cmd (Unit {0})
copy_phase m s =
    (scan_registers m
        >> scan_newspace m (s.heap_size + 1) s.heap
        >> modify (λ u. record u { errjmp_ok = true }))
      s

abbrev at_newspace : State → ℕ → State
at_newspace s new = record s { errjmp_ok = false; heap = new; heap_end = new + s.heap_size }

get_newspace-other :
    (s : State) (lo used new : ℕ)
    → Orderly s lo used new
    → get_newspace (record s { errjmp_ok = false }) ≡ at_newspace s new
unfolding get_newspace
get_newspace-other s lo used new o =
    let end = o.end in
    let e : (if s.heap_end - s.heap_size == 1 then 1 + s.heap_size else 1) ≡ new = elim o.spaces [
      | inl (e1, e2) ↦ ground arith
      | inr (e1, e2) ↦ ground arith
    ] in
    ap (at_newspace s) e

copy_phase-Compact :
    (m : Machine) (s : State) (lo used new : ℕ)
    → Orderly s lo used new
    → Returns (λ _ t. Compact s used new t) (copy_phase m (at_newspace s new))
copy_phase-Compact m s lo used new o =
    let enough' = o.enough in
    let v : Spaces = record {
      fixed = λ g. Unit;
      lo = lo;
      k = used;
      new = new;
      size = s.heap_size;
      old_first = elim o.spaces [ inl (e1, e2) ↦ omega arith | inr (e1, e2) ↦ omega arith ];
      new_first = elim o.spaces [ inl (e1, e2) ↦ omega arith | inr (e1, e2) ↦ omega arith ];
      enough = enough';
      apart = elim o.spaces [ inl (e1, e2) ↦ ground arith | inr (e1, e2) ↦ ground arith ];
    } in
    let s' = at_newspace s new in
    let started : Room v new new s' = record {
      same = tt;
      ends = refl;
      room = (let most = unmarked_most used (λ q. s.marks (lo + q)) in omega (arith, most));
      bottom = omega arith;
      here = λ q l n. o.cells q l;
      moved = λ q l n. (let clear = o.clear q l in ground arith);
      done = λ y le l. (let no : ⊥ = omega (arith, le, l) in elim no [ ]);
      waits = λ y le l. (let no : ⊥ = omega (arith, le, l) in elim no [ ]);
    } in
    let regs : Registers lo (lo + used) s' = record {
      oblist = o.registers.oblist;
      names = o.registers.names;
      buckets = o.registers.buckets;
      numbers = o.registers.numbers;
      others = o.registers.others;
    } in
    Returns-and_then (λ _ t. Packed v t) (λ _ t. Compact s used new t)
      ((scan_registers m >> scan_newspace m (s.heap_size + 1) new) s') _
      (Returns-and_then (λ _ t. Ready m v (λ g. tt) t) (λ _ t. Packed v t) (scan_registers m s') _
        (scan_registers-Ready m v (λ g. tt) s' started regs)
        (λ _ t (r, p). scan_newspace-Packed m v t r p))
      (λ _ t r. record {
        jumps = refl;
        end = r.ends;
        filled = r.filled;
        cells = r.cells;
        registers = record {
          oblist = r.registers.oblist;
          names = r.registers.names;
          buckets = r.registers.buckets;
          numbers = r.registers.numbers;
          others = r.registers.others;
        };
      })

-- In an orderly heap, where a new space is free, no cell in use has a mark and the pointers of the
-- cells and the protected locations stay in the old space, gc_stop_and_copy returns, and does not
-- run out of storage: jumps are allowed again, the other space is in use, with no more cells than
-- were in use before, and every pointer of its cells and every protected location is NIL or one of
-- its cells.
pub gc_stop_and_copy-Compact :
    (m : Machine) (s : State) (lo used new : ℕ)
    → Orderly s lo used new
    → Returns (λ _ t. Compact s used new t) (gc_stop_and_copy m s)
unfolding gc_stop_and_copy get_newspace
gc_stop_and_copy-Compact m s lo used new o =
    subst (λ s'. Returns (λ _ t. Compact s used new t) (copy_phase m s'))
      (sym (get_newspace-other s lo used new o)) (copy_phase-Compact m s lo used new o)
