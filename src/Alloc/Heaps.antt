-- ===== src/Alloc/Heaps.antt =====
-- On `allocate_aheap` of winsiod/slib.c: the cells of the new heap and of the others.
use siod.Prelude.{
  ℕ, zero, suc, ◌+◌, ◌*◌, ◌≤◌, ◌<◌, ◌≡◌, refl, ◌∙◌, Bool, true, false, ◌⊎◌, inl, inr, none, some,
  List, [], ◌∷◌, ◌==◌, if◌then◌else◌, arith, Bool-cases, subst,
}
use siod.Store.{Ptr, Obj, free_cell, State, update}
use siod.Gc.Sweep.{in_range, in_heaps}
use siod.Alloc.{missing_heap, enable_heap, heap_message, chain_cells, allocate_aheap}

-- The cells of the new heap become free, the others stay.
chain_cells-out :
    (k p last a : ℕ) (cells : Ptr → Obj)
    → (a < p) ⊎ (p + k ≤ a)
    → chain_cells k p last cells a ≡ cells a
unfolding chain_cells
chain_cells-out zero p last a cells out = refl
chain_cells-out (suc k) p last a cells (inl below) =
    chain_cells-out k (p + 1) last a (update cells p (free_cell (if k == 0 then last else p + 1)))
      (inl (omega arith))
    ∙ (let e : (a == p) ≡ false = ground arith in rw e)
chain_cells-out (suc k) p last a cells (inr above) =
    chain_cells-out k (p + 1) last a (update cells p (free_cell (if k == 0 then last else p + 1)))
      (inr (omega arith))
    ∙ (let e : (a == p) ≡ false = ground arith in rw e)

chain_cells-first :
    (k p last : ℕ) (cells : Ptr → Obj)
    → (q : Ptr) × (chain_cells (suc k) p last cells p ≡ free_cell q)
unfolding chain_cells
chain_cells-first k p last cells =
    let q = if k == 0 then last else p + 1 in
    let e : (p == p) ≡ true = ground arith in
    (q, chain_cells-out k (p + 1) last p (update cells p (free_cell q)) (inl (omega arith)) ∙ rw e)

in_heaps-above : (hs : List Bool) (size org a : ℕ) → in_heaps hs size org a ≡ true → org ≤ a
unfolding in_heaps
in_heaps-above [] size org a h = absurd (ground arith)
in_heaps-above (there ∷ hs) size org a h = elim (Bool-cases (in_heaps hs size (org + size) a)) [
  | inl later ↦ omega (arith, in_heaps-above hs size (org + size) a later)
  | inr other ↦ ground arith
]

missing-from : (hs : List Bool) (i j : ℕ) → missing_heap i hs ≡ some j → (k : ℕ) × (j ≡ i + k)
unfolding missing_heap
missing-from [] i j m = absurd (ground arith)
missing-from (true ∷ hs) i j m = let (k, e) = missing-from hs (i + 1) j m in (suc k, omega arith)
missing-from (false ∷ hs) i j m = (0, ground arith)

next_heap : (k size : ℕ) → suc k * size ≡ size + k * size
next_heap k size = omega arith

-- A cell of a heap that is there lies outside the missing one.
missing-apart :
    (hs : List Bool) (size org i j a : ℕ)
    → missing_heap i hs ≡ some j
    → in_heaps hs size org a ≡ true
    → (k : ℕ) × (j ≡ i + k) × ((a < org + k * size) ⊎ (org + k * size + size ≤ a))
unfolding missing_heap in_heaps
missing-apart [] size org i j a m h = absurd (ground arith)
missing-apart (true ∷ hs) size org i j a m h = elim (Bool-cases (in_range org size a)) [
  | inl here ↦
      let (k, e) = missing-from hs (i + 1) j m in
      let lt : a < org + size = ground arith in
      (suc k, omega arith, inl (omega (arith, next_heap k size)))
  | inr away ↦
      let (k, e, apart) = missing-apart hs size (org + size) (i + 1) j a m (ground arith) in
      (suc k, omega arith, farther k apart)
]
  where
    farther :
        (k : ℕ)
        → (a < org + size + k * size) ⊎ (org + size + k * size + size ≤ a)
        → (a < org + suc k * size) ⊎ (org + suc k * size + size ≤ a)
    farther k (inl lt) = inl (omega (arith, next_heap k size))
    farther k (inr le) = inr (omega (arith, next_heap k size))
missing-apart (false ∷ hs) size org i j a m h =
    (0, ground arith, inr (omega (arith, in_heaps-above hs size (org + size) a h)))

-- The state after the heap `j` has been made.
abbrev pub with_heap : ℕ → State → State
with_heap j s =
    let base = 1 + j * s.heap_size in
    record s {
      heaps = enable_heap j s.heaps;
      cells = chain_cells s.heap_size base s.freelist s.cells;
      freelist = base;
      out = heap_message j s;
    }

pub allocate_aheap-some :
    (s : State) (j : ℕ) → missing_heap 0 s.heaps ≡ some j → allocate_aheap s ≡ some (with_heap j s)
unfolding allocate_aheap
allocate_aheap-some s j e = rw (e, allocate_aheap)

pub allocate_aheap-none : (s : State) → missing_heap 0 s.heaps ≡ none → allocate_aheap s ≡ none
unfolding allocate_aheap
allocate_aheap-none s e = rw (e, allocate_aheap)

-- The free list starts with a new cell, and the cells of the other heaps are as before.
pub record NewHeap (s u : State) : Type 0 where
  pub next : Ptr
  pub first : u.cells u.freelist ≡ free_cell next
  pub ne_nil : (u.freelist == 0) ≡ false
  pub apart : (a : Ptr) → in_heaps s.heaps s.heap_size 1 a ≡ true → (a == u.freelist) ≡ false
  pub kept : (a : Ptr) → in_heaps s.heaps s.heap_size 1 a ≡ true → u.cells a ≡ s.cells a

first_cell :
    (n p last : ℕ) (cells : Ptr → Obj)
    → 1 ≤ n
    → (q : Ptr) × (chain_cells n p last cells p ≡ free_cell q)
first_cell zero p last cells le = absurd (omega arith)
first_cell (suc k) p last cells le = chain_cells-first k p last cells

outside :
    (s : State) (j a : ℕ)
    → missing_heap 0 s.heaps ≡ some j
    → in_heaps s.heaps s.heap_size 1 a ≡ true
    → (a < 1 + j * s.heap_size) ⊎ (1 + j * s.heap_size + s.heap_size ≤ a)
outside s j a m h =
    let (k, e, apart) = missing-apart s.heaps s.heap_size 1 0 j a m h in
    let same : k ≡ j = omega arith in
    subst (λ x. (a < 1 + x * s.heap_size) ⊎ (1 + x * s.heap_size + s.heap_size ≤ a)) same apart

not_first : (a base n : ℕ) → 1 ≤ n → (a < base) ⊎ (base + n ≤ a) → (a == base) ≡ false
not_first a base n le (inl lt) = ground arith
not_first a base n le (inr ge) = ground arith

pub with_heap-NewHeap :
    (s : State) (j : ℕ)
    → 1 ≤ s.heap_size
    → missing_heap 0 s.heaps ≡ some j
    → NewHeap s (with_heap j s)
with_heap-NewHeap s j le m =
    let base = 1 + j * s.heap_size in
    let (q, e) = first_cell s.heap_size base s.freelist s.cells le in
    record {
      next = q;
      first = e;
      ne_nil = ground arith;
      apart = λ a h. not_first a base s.heap_size le (outside s j a m h);
      kept = λ a h. chain_cells-out s.heap_size base s.freelist a s.cells (outside s j a m h);
    }
