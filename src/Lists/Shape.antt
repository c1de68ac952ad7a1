-- ===== src/Lists/Shape.antt =====
-- Lists in the heap, and what the basic operations do at a pair and at `NIL`.
use siod.Prelude.{◌≡◌, ◌∙◌, ap, List, [], ◌∷◌}
use siod.Store.{Ptr, cons, State, obj, ok, Cmd, set_cell}
use siod.Store.View.{obj-zero}
use siod.Machine.{Machine}
use siod.Gc.Sweep.{is_free_cell}
use siod.Alloc.Error.{cons_cell}
use siod.Alloc.Fresh.{Ready, Extends, Fresh, alloc-Fresh}
use siod.Lists.{car, cdr, setcar, setcdr, on_pair}

-- A proper list: from `p` the pairs lead through these elements to `NIL`.
abbrev pub IsList : State → Ptr → List Ptr → Type 0
IsList s p [] = p ≡ 0
IsList s p (v ∷ vs) = (d : Ptr) × (obj s p ≡ cons v d) × IsList s d vs

pub keep_pair :
    (s t : State) (p : Ptr) {a d : Ptr} → Extends s t → obj s p ≡ cons a d → obj t p ≡ cons a d
keep_pair s t p f e = f p (ap is_free_cell e) ∙ e

pub IsList-Extends :
    (s t : State) (p : Ptr) (vs : List Ptr) → Extends s t → IsList s p vs → IsList t p vs
IsList-Extends s t p [] f l = l
IsList-Extends s t p (v ∷ vs) f (d, e, l) = (d, keep_pair s t p f e, IsList-Extends s t d vs f l)

module _ (m : Machine) (s : State) (p : Ptr) {a d : Ptr} (e : obj s p ≡ cons a d) where
  pub car-cons : car m p s ≡ ok a s
  unfolding car
  car-cons = rw (e, car)

  pub cdr-cons : cdr m p s ≡ ok d s
  unfolding cdr
  cdr-cons = rw (e, cdr)

  pub setcar-cons : (v : Ptr) → setcar m p v s ≡ ok v (set_cell p (cons v d) s)
  unfolding setcar
  setcar-cons v = rw (e, setcar)

  pub setcdr-cons : (v : Ptr) → setcdr m p v s ≡ ok v (set_cell p (cons a v) s)
  unfolding setcdr
  setcdr-cons v = rw (e, setcdr)

  pub on_pair-cons :
      {A : Type 0} (more : Ptr → Ptr → Cmd A) (done : Cmd A) → on_pair m p more done s ≡ more a d s
  unfolding on_pair
  on_pair-cons more done = rw (e, on_pair)

module _ (m : Machine) (s : State) where
  pub car-nil : car m 0 s ≡ ok 0 s
  unfolding car
  car-nil = rw (obj-zero s, car)

  pub cdr-nil : cdr m 0 s ≡ ok 0 s
  unfolding cdr
  cdr-nil = rw (obj-zero s, cdr)

  pub on_pair-nil :
      {A : Type 0} (p : Ptr) (more : Ptr → Ptr → Cmd A) (done : Cmd A)
      → p ≡ 0
      → on_pair m p more done s ≡ done s
  unfolding on_pair
  on_pair-nil p more done e = rw (e, obj-zero s, on_pair)

pub cons_cell-Fresh :
    (m : Machine) (x y : Ptr) (s : State) {p : Ptr} {xs : List Ptr}
    → Ready s (p ∷ xs)
    → (t : State) × (cons_cell m x y s ≡ ok p t) × Fresh s t p (cons x y) xs
unfolding cons_cell
cons_cell-Fresh m x y s r = alloc-Fresh m (cons x y) s r
