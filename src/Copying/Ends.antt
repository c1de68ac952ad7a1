-- ===== src/Copying/Ends.antt =====
-- On the rounds of the copying collector of winsiod/slib.c.
use siod.Prelude.{
  none, ℕ, zero, suc, ◌+◌, ◌≤◌, ◌<◌, ◌≡◌, refl, ◌∙◌, Bool, true, false, List, [], ◌∷◌, ◌==◌, ltb,
  leb, arith, Bool-cases, inl, inr,
}
use siod.Store.{
  Ptr, Obj, cons, symbol, closure, lisp_array, State, obj, update, Run, ok, caught, toplevel,
  exited, fault, out_of_fuel, Cmd, and_then, ◌>>=◌, ◌>>◌, store,
}
use siod.Machine.{Machine}
use siod.Alloc.Error.{gc_fatal_error, err_with, err_parts, print_error, inner_fatal, out_of_storage}
use siod.Alloc.Leaves.{leave_ends}
use siod.Copying.{
  get_newspace, symbols_of, list_symbols, move, gc_relocate, relocate_each, scan_registers,
  scan_obj, scan_cell, scan_newspace, gc_stop_and_copy,
}

-- What a step of the collector keeps: jumps stay off, the new space keeps its end, and it is
-- filled upwards within its bound.
pub record Growth (end heap : ℕ) (jumps : Bool) (end' heap' : ℕ) : Type 0 where
  pub critical : jumps ≡ false
  pub same_end : end' ≡ end
  pub grown : heap ≤ heap'
  pub fits : heap' ≤ end'

abbrev pub Grown : State → State → Type 0
Grown s t = Growth s.heap_end s.heap t.errjmp_ok t.heap_end t.heap

-- A run that returns with the new space grown, or ends the program.
abbrev pub Grows : {A : Type 0} → State → Run A → Type 0
Grows s (ok a t) = Grown s t
Grows s (exited t) = Unit
Grows s _ = ⊥

abbrev pub Open : State → Type 0
Open s = (s.errjmp_ok ≡ false) × (s.heap ≤ s.heap_end)

Grown-Open : {e h e' h' : ℕ} {b : Bool} → Growth e h b e' h' → (b ≡ false) × (h' ≤ e')
Grown-Open g = (g.critical, g.fits)

Grown-trans : (s t u : State) → Grown s t → Grown t u → Grown s u
Grown-trans s t u g h = record {
  critical = h.critical;
  same_end = h.same_end ∙ g.same_end;
  grown = (let a = g.grown in let b = h.grown in omega (arith, a, b));
  fits = h.fits;
}

Grows-trans : {A : Type 0} (s t : State) (r : Run A) → Grown s t → Grows t r → Grows s r
Grows-trans s t (ok a u) g h = Grown-trans s t u g h
Grows-trans s t (caught n u) g h = h
Grows-trans s t (toplevel n u) g h = h
Grows-trans s t (exited u) g h = tt
Grows-trans s t fault g h = h
Grows-trans s t out_of_fuel g h = h

Grows-and_then :
    {A B : Type 0} (s : State) (r : Run A) (k : A → Cmd B)
    → Grows s r
    → ((a : A) (t : State) → Grown s t → Grows t (k a t))
    → Grows s (and_then r k)
Grows-and_then s (ok a t) k g h = Grows-trans s t (k a t) g (h a t g)
Grows-and_then s (caught n t) k g h = g
Grows-and_then s (toplevel n t) k g h = g
Grows-and_then s (exited t) k g h = tt
Grows-and_then s fault k g h = g
Grows-and_then s out_of_fuel k g h = g

-- A state with the same three fields.
Grown-same : (s : State) → Open s → Grown s s
Grown-same s (c, f) = record { critical = c; same_end = refl; grown = omega arith; fits = f }

gc_fatal_error-exits :
    (m : Machine) (hook : m.fatal_exit_hook ≡ none) (s : State)
    → s.errjmp_ok ≡ false
    → {A : Type 0} (k : Ptr → Cmd A) → Grows s (and_then (gc_fatal_error m s) k)
unfolding gc_fatal_error err_with err_parts print_error
gc_fatal_error-exits m hook s e k =
    let (t, x, same) =
      leave_ends m (inner_fatal m) s.inside_err out_of_storage 0 0 (print_error out_of_storage 0 s)
        e hook in
    rw x tt

move-Grows :
    (m : Machine) (hook : m.fatal_exit_hook ≡ none) (x : Ptr) (s : State)
    → Open s
    → Grows s (move m x s)
unfolding move
move-Grows m hook x s (c, f) = elim (Bool-cases (leb s.heap_end s.heap)) [
  | inl full ↦ rw full (gc_fatal_error-exits m hook s c (λ _ _. fault))
  | inr room ↦
      rw room (record { critical = c; same_end = refl; grown = omega arith; fits = ground arith })
]

gc_relocate-Grows :
    (m : Machine) (hook : m.fatal_exit_hook ≡ none) (x : Ptr) (s : State)
    → Open s
    → Grows s (gc_relocate m x s)
unfolding gc_relocate
gc_relocate-Grows m hook x s o = elim (Bool-cases (x == 0)) [
  | inl is_nil ↦ rw is_nil (Grown-same s o)
  | inr other ↦ elim (Bool-cases (s.marks x)) [
    | inl moved ↦ rw (other, moved) (Grown-same s o)
    | inr here ↦ rw (other, here) (move-Grows m hook x s o)
  ]
]

relocate_each-Grows :
    (m : Machine) (hook : m.fatal_exit_hook ≡ none) (xs : List Ptr) (s : State)
    → Open s
    → Grows s (relocate_each m xs s)
unfolding relocate_each
relocate_each-Grows m hook [] s o = Grown-same s o
relocate_each-Grows m hook (x ∷ xs) s o =
    Grows-and_then s (gc_relocate m x s) _ (gc_relocate-Grows m hook x s o) (λ y t g.
      Grows-and_then t (relocate_each m xs t) _ (relocate_each-Grows m hook xs t (Grown-Open g))
        (λ ys u h. Grown-same u (Grown-Open h)))

register_row-Grows :
    (m : Machine) (hook : m.fatal_exit_hook ≡ none) (xs : List Ptr) (s : State)
    (k : List Ptr → Cmd (Unit {0}))
    → Open s
    → ((ys : List Ptr) (t : State) → Open t → Grows t (k ys t))
    → Grows s (and_then (relocate_each m xs s) k)
register_row-Grows m hook xs s k o h =
    Grows-and_then s (relocate_each m xs s) k (relocate_each-Grows m hook xs s o)
      (λ ys t g. h ys t (Grown-Open g))

scan_registers-Grows :
    (m : Machine) (hook : m.fatal_exit_hook ≡ none) (s : State)
    → Open s
    → Grows s (scan_registers m s)
unfolding scan_registers
scan_registers-Grows m hook s o =
    Grows-and_then s (gc_relocate m s.oblistvar s) _ (gc_relocate-Grows m hook s.oblistvar s o)
      (λ a t g.
        let t' = record t { oblistvar = a } in
        register_row-Grows m hook (list_symbols t') t' _ (Grown-Open g) (λ b u p.
          let u' = record u { symbols = symbols_of b } in
          register_row-Grows m hook u.obarray u' _ p (λ c v q.
            register_row-Grows m hook v.inums (record v { obarray = c }) _ q
              (λ d w r.
                register_row-Grows m hook w.protected (record w { inums = d }) _ r
                  (λ e x h. Grown-same x h)))))

-- Two pointers of a cell.
store_one-Grows :
    (m : Machine) (hook : m.fatal_exit_hook ≡ none) (ptr x : Ptr) (s : State) (make : Ptr → Obj)
    → Open s
    → Grows s (and_then (gc_relocate m x s) (λ y. store ptr (make y)))
store_one-Grows m hook ptr x s make o =
    Grows-and_then s (gc_relocate m x s) _ (gc_relocate-Grows m hook x s o)
      (λ y t g. Grown-same t (Grown-Open g))

store_two-Grows :
    (m : Machine) (hook : m.fatal_exit_hook ≡ none) (ptr x y : Ptr) (s : State)
    (make : Ptr → Ptr → Obj)
    → Open s
    → Grows s (
        and_then
          (gc_relocate m x s)
          (λ x'. store ptr (make x' y) >> (gc_relocate m y >>= (λ y'. store ptr (make x' y')))))
store_two-Grows m hook ptr x y s make o =
    Grows-and_then s (gc_relocate m x s) _ (gc_relocate-Grows m hook x s o) (λ x' t g.
      let t' = record t { cells = update t.cells ptr (make x' y) } in
      store_one-Grows m hook ptr y t' (make x') (Grown-Open g))

scan_obj-Grows :
    (m : Machine) (hook : m.fatal_exit_hook ≡ none) (ptr : Ptr) (o : Obj) (s : State)
    → Open s
    → Grows s (scan_obj m ptr o s)
unfolding scan_obj
scan_obj-Grows m hook ptr (cons a d) s o = store_two-Grows m hook ptr a d s cons o
scan_obj-Grows m hook ptr (closure env code) s o = store_two-Grows m hook ptr env code s closure o
scan_obj-Grows m hook ptr (symbol name v) s o = store_one-Grows m hook ptr v s (symbol name) o
scan_obj-Grows m hook ptr (lisp_array xs) s o =
    Grows-and_then s (relocate_each m xs s) _ (relocate_each-Grows m hook xs s o)
      (λ ys t g. Grown-same t (Grown-Open g))
scan_obj-Grows m hook ptr _ s o = Grown-same s o

scan_cell-Grows :
    (m : Machine) (hook : m.fatal_exit_hook ≡ none) (ptr : Ptr) (s : State)
    → Open s
    → Grows s (scan_cell m ptr s)
unfolding scan_cell
scan_cell-Grows m hook ptr s o = scan_obj-Grows m hook ptr (obj s ptr) s o

scan_newspace-Grows :
    (m : Machine) (hook : m.fatal_exit_hook ≡ none) (f ptr : ℕ) (s : State)
    → Open s
    → ptr ≤ s.heap
    → s.heap_end < ptr + f
    → Grows s (scan_newspace m f ptr s)
unfolding scan_newspace
scan_newspace-Grows m hook zero ptr s (c, fits) le lt = omega (arith, fits, le, lt)
scan_newspace-Grows m hook (suc f) ptr s o le lt = elim (Bool-cases (ltb ptr s.heap)) [
  | inl more ↦ rw more (
      Grows-and_then s (scan_cell m ptr s) _ (scan_cell-Grows m hook ptr s o) (λ _ t g.
        let up = g.grown in
        let same = g.same_end in
        scan_newspace-Grows m hook f (ptr + 1) t (Grown-Open g) (ground arith)
          (omega (arith, same, lt))))
  | inr done ↦ rw done (Grown-same s o)
]

-- How a collection ends: with the new space filled from its start to a place within its end, and
-- jumps allowed, or with the end of the program.
pub data Ended (new size : ℕ) : Run (Unit {0}) → Type 0 where
  returned :
      {t : State}
      → t.errjmp_ok ≡ true
      → t.heap_end ≡ new + size
      → new ≤ t.heap
      → t.heap ≤ t.heap_end
      → Ended new size (ok tt t)
  no_storage : {t : State} → Ended new size (exited t)

allow-Ended :
    (s : State) (size : ℕ) (r : Run (Unit {0}))
    → s.heap_end ≡ s.heap + size
    → Grows s r
    → Ended s.heap size (and_then r (λ _ u. ok tt (record u { errjmp_ok = true })))
allow-Ended s size (ok a t) e g = returned refl (g.same_end ∙ e) g.grown g.fits
allow-Ended s size (caught n t) e g = elim g [ ]
allow-Ended s size (toplevel n t) e g = elim g [ ]
allow-Ended s size (exited t) e g = no_storage
allow-Ended s size fault e g = elim g [ ]
allow-Ended s size out_of_fuel e g = elim g [ ]

-- With no `fatal_exit_hook`, gc_stop_and_copy ends, in any state: the loop over the new space has enough rounds. Either it
-- returns, with jumps allowed and with the new space filled from its start to a place within its
-- end, or it exits for lack of storage.
pub gc_stop_and_copy-Ended :
    (m : Machine) (hook : m.fatal_exit_hook ≡ none) (s : State)
    → Ended (get_newspace s).heap s.heap_size (gc_stop_and_copy m s)
unfolding gc_stop_and_copy get_newspace
gc_stop_and_copy-Ended m hook s =
    let s' = get_newspace (record s { errjmp_ok = false }) in
    let opened : Open s' = (refl, omega arith) in
    allow-Ended s' s.heap_size
      (and_then (scan_registers m s') (λ _. scan_newspace m (s.heap_size + 1) s'.heap)) refl
      (Grows-and_then s' (scan_registers m s') _ (scan_registers-Grows m hook s' opened) (λ a t g.
        let up = g.grown in
        let same = g.same_end in
        scan_newspace-Grows m hook (s.heap_size + 1) s'.heap t (Grown-Open g) up
          (omega (arith, same))))
