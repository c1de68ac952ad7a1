-- ===== src/Gc/Sweeping.antt =====
-- On `gc_sweep` of winsiod/slib.c: the free list, the marks and the other cells after it.
use mathlib.Core.Path.{fun_ext}
use siod.Prelude.{
  ℕ, zero, suc, ◌+◌, ◌≤◌, ◌<◌, ◌≡◌, refl, Bool, true, false, ◌||◌, List, [], ◌∷◌, arith, ◌==◌,
  Bool-cases, inl, inr, length, subst, ◌⊎◌, ap,
}
use siod.Store.{Ptr, Obj, free_cell, State, update}
use siod.Gc.Reach.{Has, head, tail}
use siod.Gc.Sweep.{Sweep, sweep_cell, sweep_range, sweep_heaps, gc_sweep, in_range, in_heaps}

-- From `p` the free cells `xs` are chained, in this order.
abbrev pub FreeChain : (Ptr → Obj) → Ptr → List Ptr → Type 0
FreeChain cells p [] = p ≡ 0
FreeChain cells p (x ∷ xs) =
    (p ≡ x) × ((x == 0) ≡ false) × ((q : Ptr) × (cells x ≡ free_cell q) × FreeChain cells q xs)

FreeChain-update :
    (cells : Ptr → Obj) (p a : Ptr) (o : Obj) (xs : List Ptr)
    → ((x : Ptr) → Has x xs → x < a)
    → FreeChain cells p xs
    → FreeChain (update cells a o) p xs
FreeChain-update cells p a o [] below c = c
FreeChain-update cells p a o (x ∷ xs) below (e, n, (q, g, c)) =
    let lt = below x (head refl) in
    (e, n, (q, ground arith, FreeChain-update cells q a o xs (λ y h. below y (tail h)) c))

-- How far the sweep has come: the cells that are done, and the free list that it has made.
pub record Swept (s : State) (done : Ptr → Bool) (ptr : Ptr) (w : Sweep) (xs : List Ptr)
    : Type 0 where
  pub chain : FreeChain w.cells w.nfreelist xs
  pub positive : 1 ≤ ptr
  pub below : (a : Ptr) → done a ≡ true → a < ptr
  pub listed : (a : Ptr) → done a ≡ true → s.marks a ≡ false → Has a xs
  pub only : (a : Ptr) → Has a xs → (done a ≡ true) × (s.marks a ≡ false)
  pub kept : (a : Ptr) → (done a ≡ false) ⊎ (s.marks a ≡ true) → w.cells a ≡ s.cells a
  pub waiting : (a : Ptr) → done a ≡ false → w.marks a ≡ s.marks a
  pub cleared : (a : Ptr) → done a ≡ true → w.marks a ≡ false
  pub counted : w.n ≡ length xs

module _ {s : State} where
  Swept-ext :
      {done d : Ptr → Bool} {ptr : Ptr} {w : Sweep} {xs : List Ptr}
      → ((a : Ptr) → done a ≡ d a)
      → Swept s done ptr w xs
      → Swept s d ptr w xs
  Swept-ext {ptr} {w} {xs} e v = subst (λ f. Swept s f ptr w xs) (fun_ext e) v

  Swept-skip :
      {done : Ptr → Bool} {ptr : Ptr} {w : Sweep} {xs : List Ptr} (k : ℕ)
      → Swept s done ptr w xs
      → Swept s done (ptr + k) w xs
  Swept-skip k v = record {
    chain = v.chain;
    positive = omega (arith, v.positive);
    below = λ a h. omega (arith, v.below a h);
    listed = v.listed;
    only = v.only;
    kept = v.kept;
    waiting = v.waiting;
    cleared = v.cleared;
    counted = v.counted;
  }

  module _ {done : Ptr → Bool} {ptr : Ptr} {w : Sweep} {xs : List Ptr}
      (v : Swept s done ptr w xs) where
    fresh : done ptr ≡ false
    fresh = elim (Bool-cases (done ptr)) [
      | inl t ↦ absurd (omega (arith, v.below ptr t))
      | inr f ↦ f
    ]

    Swept-marked :
        s.marks ptr ≡ true → Swept s (λ a. done a || (a == ptr)) (ptr + 1) (sweep_cell ptr w) xs
    unfolding sweep_cell
    Swept-marked black = rw (at_ptr) (record {
      chain = v.chain;
      positive = omega arith;
      below = λ a h. ground (arith, v.below a);
      listed = λ a h g. ground (arith, v.listed a);
      only = λ a h. let o = v.only a h in ground (arith);
      kept = kept;
      waiting = λ a h. ground (arith, v.waiting a);
      cleared = λ a h. ground (arith, v.cleared a);
      counted = v.counted;
    })
      where
        at_ptr : w.marks ptr ≡ true
        at_ptr = ground (arith, v.waiting ptr fresh)

        kept :
            (a : Ptr)
            → ((done a || (a == ptr)) ≡ false) ⊎ (s.marks a ≡ true)
            → w.cells a ≡ s.cells a
        kept a (inl h) = v.kept a (inl (ground arith))
        kept a (inr h) = v.kept a (inr h)

    Swept-white :
        s.marks ptr ≡ false
        → Swept s (λ a. done a || (a == ptr)) (ptr + 1) (sweep_cell ptr w) (ptr ∷ xs)
    unfolding sweep_cell
    Swept-white white = rw (at_ptr) (record {
      chain = (
        refl,
        ground (arith, v.positive),
        (
          w.nfreelist,
          ground arith,
          FreeChain-update w.cells w.nfreelist ptr (free_cell w.nfreelist) xs
              (λ x h. v.below x (v.only x h).0) v.chain,
        ),
      );
      positive = omega arith;
      below = λ a h. ground (arith, v.below a);
      listed = listed;
      only = only;
      kept = kept;
      waiting = λ a h. ground (arith, v.waiting a);
      cleared = cleared;
      counted = omega (arith, v.counted);
    })
      where
        at_ptr : w.marks ptr ≡ false
        at_ptr = ground (arith, v.waiting ptr fresh)

        listed : (a : Ptr) → (done a || (a == ptr)) ≡ true → s.marks a ≡ false → Has a (ptr ∷ xs)
        listed a h g = elim (Bool-cases (done a)) [
          | inl t ↦ tail (v.listed a t g)
          | inr f ↦ head (ground arith)
        ]

        only : (a : Ptr) → Has a (ptr ∷ xs) → ((done a || (a == ptr)) ≡ true) × (s.marks a ≡ false)
        only a (head e) = (ground arith, subst (λ x. s.marks x ≡ false) e white)
        only a (tail h) = let o = v.only a h in (ground arith, o.1)

        kept :
            (a : Ptr)
            → ((done a || (a == ptr)) ≡ false) ⊎ (s.marks a ≡ true)
            → update w.cells ptr (free_cell w.nfreelist) a ≡ s.cells a
        kept a (inl h) = ground (arith, v.kept a (inl (ground arith)))
        kept a (inr h) = elim (Bool-cases (a == ptr)) [
          | inl same ↦ let at : a ≡ ptr = ground arith in absurd (ground (arith, ap s.marks at))
          | inr other ↦ ground (arith, v.kept a (inr h))
        ]

        cleared : (a : Ptr) → (done a || (a == ptr)) ≡ true → w.marks a ≡ false
        cleared a h = elim (Bool-cases (done a)) [
          | inl t ↦ v.cleared a t
          | inr f ↦ let at : ptr ≡ a = ground arith in subst (λ x. w.marks x ≡ false) at at_ptr
        ]

module _ {s : State} where
  sweep_range-Swept :
      (k : ℕ) {done : Ptr → Bool} {ptr : Ptr} {w : Sweep} {xs : List Ptr}
      → Swept s done ptr w xs
      → (ys : List Ptr) × Swept s
          (λ a. done a || in_range ptr k a)
          (ptr + k)
          (sweep_range k ptr w)
          ys
  unfolding sweep_range
  sweep_range-Swept zero {done} {ptr} {w} {xs} v =
      (xs, Swept-ext (λ a. ground arith) (Swept-skip 0 v))
  sweep_range-Swept (suc k) {done} {ptr} {w} {xs} v =
      let (ys, u) = next (Bool-cases (s.marks ptr)) in
      let (zs, t) = sweep_range-Swept k u in (zs, at_end (Swept-ext (λ a. ground arith) t))
    where
      next :
          (s.marks ptr ≡ true) ⊎ (s.marks ptr ≡ false)
          → (ys : List Ptr) × Swept s (λ a. done a || (a == ptr)) (ptr + 1) (sweep_cell ptr w) ys
      next (inl black) = (xs, Swept-marked v black)
      next (inr white) = (ptr ∷ xs, Swept-white v white)

      at_end :
          {d : Ptr → Bool} {u : Sweep} {zs : List Ptr}
          → Swept s d (ptr + 1 + k) u zs
          → Swept s d (ptr + suc k) u zs
      at_end {d} {u} {zs} t = subst (λ q. Swept s d q u zs) (omega arith) t

  sweep_heaps-Swept :
      (hs : List Bool) (size : ℕ) {done : Ptr → Bool} {ptr : Ptr} {w : Sweep} {xs : List Ptr}
      → Swept s done ptr w xs
      → (ys : List Ptr) × (end : Ptr) × Swept s
          (λ a. done a || in_heaps hs size ptr a)
          end
          (sweep_heaps hs size ptr w)
          ys
  unfolding sweep_heaps in_heaps
  sweep_heaps-Swept [] size {ptr} {xs} v = (xs, ptr, Swept-ext (λ a. ground arith) v)
  sweep_heaps-Swept (true ∷ hs) size {ptr} v =
      let (ys, u) = sweep_range-Swept size v in
      let (zs, end, t) = sweep_heaps-Swept hs size u in (zs, end, Swept-ext (λ a. ground arith) t)
  sweep_heaps-Swept (false ∷ hs) size {ptr} v = sweep_heaps-Swept hs size (Swept-skip size v)

-- The free list and the marks after a sweep.
pub record FreeList (s t : State) (xs : List Ptr) : Type 0 where
  pub chain : FreeChain t.cells t.freelist xs
  pub free : (a : Ptr) → in_heaps s.heaps s.heap_size 1 a ≡ true → s.marks a ≡ false → Has a xs
  pub only : (a : Ptr) → Has a xs → (in_heaps s.heaps s.heap_size 1 a ≡ true) × (s.marks a ≡ false)
  pub kept : (a : Ptr) → s.marks a ≡ true → t.cells a ≡ s.cells a
  pub cleared : (a : Ptr) → in_heaps s.heaps s.heap_size 1 a ≡ true → t.marks a ≡ false
  pub outside : (a : Ptr) → in_heaps s.heaps s.heap_size 1 a ≡ false → t.marks a ≡ s.marks a
  pub counted : t.gc_cells_collected ≡ length xs

-- After `gc_sweep` the free list is a chain of exactly the cells of the heaps that carried no mark,
-- their number is counted, every marked cell is as before, and no cell of a heap is marked.
pub gc_sweep-FreeList : (s : State) → (xs : List Ptr) × FreeList s (gc_sweep s) xs
unfolding gc_sweep
gc_sweep-FreeList s =
    let (xs, end, v) = sweep_heaps-Swept s.heaps s.heap_size first in
    (
      xs,
      record {
        chain = v.chain;
        free = v.listed;
        only = v.only;
        kept = λ a h. v.kept a (inr h);
        cleared = v.cleared;
        outside = v.waiting;
        counted = v.counted;
      },
    )
  where
    first :
        Swept s
          (λ a. false)
          1
          (record { cells = s.cells; marks = s.marks; nfreelist = 0; n = 0 })
          []
    first = record {
      chain = refl;
      positive = omega arith;
      below = λ a h. cc;
      listed = λ a h g. cc;
      only = λ a h. elim h [ ];
      kept = λ a h. refl;
      waiting = λ a h. refl;
      cleared = λ a h. cc;
      counted = refl;
    }
