-- ===== src/Alloc/Fresh.antt =====
-- On `NEWCELL` of winsiod/siodp.h with a free list that is not empty.
use siod.Prelude.{
  suc, ◌+◌, ◌<◌, ◌≡◌, refl, true, false, List, [], ◌∷◌, ◌==◌, arith, ap, length, Bool-cases, inl,
  inr, ◌∙◌, subst,
}
use siod.Store.{Ptr, Obj, free_cell, State, obj, update, set_cell, ok, Cmd}
use siod.Machine.{Machine}
use siod.Gc.Reach.{Has, head, tail}
use siod.Gc.Sweep.{is_free_cell}
use siod.Gc.Sweeping.{FreeChain}
use siod.Alloc.{newcell, take_free}
use siod.Alloc.Error.{alloc, gc_fatal_error}

-- In the mark-and-sweep mode the free list holds these cells, in this order.
pub record Ready (s : State) (xs : List Ptr) : Type 0 where
  pub sweeping : s.gc_kind_copying ≡ false
  pub chain : FreeChain s.cells s.freelist xs

FreeChain-length :
    (cells : Ptr → Obj) (p : Ptr) (xs ys : List Ptr)
    → FreeChain cells p xs
    → FreeChain cells p ys
    → length xs ≡ length ys
FreeChain-length cells p [] [] c d = refl
FreeChain-length cells p [] (y ∷ ys) c d = ground arith
FreeChain-length cells p (x ∷ xs) [] c d = ground arith
FreeChain-length cells p (x ∷ xs) (y ∷ ys) (e, n, (q, g, c)) (e', n', (q', g', c')) =
    let same : q' ≡ q = cc in
    let d : FreeChain cells q ys = subst (λ r. FreeChain cells r ys) same c' in
    ap suc (FreeChain-length cells q xs ys c d)

-- The chain from a cell of a chain is no longer than that chain.
FreeChain-from :
    (cells : Ptr → Obj) (p a : Ptr) (xs : List Ptr)
    → FreeChain cells p xs
    → Has a xs
    → (ys : List Ptr) × FreeChain cells a (a ∷ ys) × (length ys < length xs)
FreeChain-from cells p a [] c h = elim h [ ]
FreeChain-from cells p a (x ∷ xs) (e, n, (q, g, c)) (head same) =
    (xs, subst (λ y. FreeChain cells y (y ∷ xs)) same (refl, n, (q, g, c)), omega arith)
FreeChain-from cells p a (x ∷ xs) (e, n, (q, g, c)) (tail h) =
    let (ys, d, lt) = FreeChain-from cells q a xs c h in (ys, d, omega arith)

-- A chain meets no cell twice.
pub FreeChain-distinct :
    (cells : Ptr → Obj) (p x : Ptr) (xs : List Ptr) → FreeChain cells p (x ∷ xs) → ¬ (Has x xs)
FreeChain-distinct cells p x xs (e, n, (q, g, c)) h =
    let (ys, d, lt) = FreeChain-from cells q x xs c h in
    let all : FreeChain cells x (x ∷ xs) = (refl, n, (q, g, c)) in
    absurd (omega (arith, FreeChain-length cells x (x ∷ xs) (x ∷ ys) all d))

FreeChain-other :
    (cells : Ptr → Obj) (p a : Ptr) (o : Obj) (xs : List Ptr)
    → ¬ (Has a xs)
    → FreeChain cells p xs
    → FreeChain (update cells a o) p xs
FreeChain-other cells p a o [] out c = c
FreeChain-other cells p a o (x ∷ xs) out (e, n, (q, g, c)) = elim (Bool-cases (x == a)) [
  | inl same ↦ absurd (out (head (ground arith)))
  | inr other ↦ (e, n, (q, ground arith, FreeChain-other cells q a o xs (λ h. out (tail h)) c))
]

-- The state after an allocation of `o` at `p`, where `q` is the next free cell.
abbrev pub allocated : State → Ptr → Ptr → Obj → State
allocated s p q o = record s {
  freelist = q;
  gc_cells_allocated = s.gc_cells_allocated + 1;
  cells = update s.cells p o;
  marks = update s.marks p false;
}

-- Every cell that is in use holds what it held.
abbrev pub Extends : State → State → Type 0
Extends s t = (a : Ptr) → is_free_cell (obj s a) ≡ false → obj t a ≡ obj s a

pub Extends-refl : (s : State) → Extends s s
Extends-refl s a h = refl

pub Extends-trans : (s t u : State) → Extends s t → Extends t u → Extends s u
Extends-trans s t u f g a h = g a (ap is_free_cell (f a h) ∙ h) ∙ f a h

-- What an allocation gives: a cell that was free, with the object; the rest of the free list; and
-- all cells in use as they were.
pub record Fresh (s t : State) (p : Ptr) (o : Obj) (xs : List Ptr) : Type 0 where
  pub holds : obj t p ≡ o
  pub ready : Ready t xs
  pub extends : Extends s t
  pub same_symbols : t.symbols ≡ s.symbols
  pub same_frames : t.catch_frames ≡ s.catch_frames
  pub same_obarray : t.obarray ≡ s.obarray
  pub same_oblistvar : t.oblistvar ≡ s.oblistvar
  pub same_inums : t.inums ≡ s.inums

newcell_run :
    (m : Machine) (fatal : Cmd Ptr) (o : Obj) (s : State) (p q : Ptr)
    → s.gc_kind_copying ≡ false
    → s.freelist ≡ p
    → (p == 0) ≡ false
    → s.cells p ≡ free_cell q
    → newcell m fatal o s ≡ ok p (allocated s p q o)
unfolding newcell take_free obj
newcell_run m fatal o s p q mode at ne e = ground arith

-- In the mark-and-sweep mode, with a cell at the head of the free list, an allocation returns this
-- cell with the new object; the rest of the free list stays, and no cell in use is changed, nor
-- are the symbols and the frames.
pub newcell-Fresh :
    (m : Machine) (fatal : Cmd Ptr) (o : Obj) (s : State) {p : Ptr} {xs : List Ptr}
    → Ready s (p ∷ xs)
    → (t : State) × (newcell m fatal o s ≡ ok p t) × Fresh s t p o xs
unfolding obj
newcell-Fresh m fatal o s {p} {xs} r =
    let (at, ne, (q, e, rest)) = r.chain in
    let whole : FreeChain s.cells p (p ∷ xs) = (refl, ne, (q, e, rest)) in
    (
      allocated s p q o,
      newcell_run m fatal o s p q r.sweeping at ne e,
      record {
        holds = rw ne (ground arith);
        ready = record {
          sweeping = r.sweeping;
          chain = FreeChain-other s.cells q p o xs (FreeChain-distinct s.cells p p xs whole) rest;
        };
        extends = λ a used. elim (Bool-cases (a == p)) [
          | inl same ↦ let here : a ≡ p = ground arith in absurd (ground (arith, ap s.cells here))
          | inr other ↦ ground arith
        ];
        same_symbols = refl;
        same_frames = refl;
        same_obarray = refl;
        same_oblistvar = refl;
        same_inums = refl;
      },
    )

pub alloc-Fresh :
    (m : Machine) (o : Obj) (s : State) {p : Ptr} {xs : List Ptr}
    → Ready s (p ∷ xs)
    → (t : State) × (alloc m o s ≡ ok p t) × Fresh s t p o xs
unfolding alloc
alloc-Fresh m o s r = newcell-Fresh m (gc_fatal_error m) o s r

-- A cell of the chain is free.
pub FreeChain-free :
    (s : State) (p a : Ptr) (xs : List Ptr)
    → FreeChain s.cells p xs
    → Has a xs
    → is_free_cell (obj s a) ≡ true
unfolding obj
FreeChain-free s p a [] c h = elim h [ ]
FreeChain-free s p a (x ∷ xs) (e, n, (q, g, c)) (head same) =
    subst (λ y. is_free_cell (obj s y) ≡ true) same (rw (n, g))
FreeChain-free s p a (x ∷ xs) (e, n, (q, g, c)) (tail h) = FreeChain-free s q a xs c h

-- A write to a cell in use leaves the free list alone.
pub Ready-set_cell :
    (s : State) (a : Ptr) (o : Obj) (xs : List Ptr)
    → is_free_cell (obj s a) ≡ false
    → Ready s xs
    → Ready (set_cell a o s) xs
Ready-set_cell s a o xs used r = record {
  sweeping = r.sweeping;
  chain =
      FreeChain-other s.cells s.freelist a o xs
        (λ h. let f = FreeChain-free s s.freelist a xs r.chain h in cc) r.chain;
}
