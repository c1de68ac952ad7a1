-- ===== src/Eval/Calls.antt =====
-- On the call of a closure in `leval`, and on `leval_or`, of winsiod/slib.c.
use siod.Prelude.{
  ℕ, zero, suc, ◌+◌, ◌≤◌, ◌<◌, ◌≡◌, ◌∙◌, ap, false, List, [], ◌∷◌, ◌++◌, ◌==◌, arith, length, subst,
}
use siod.Store.{Ptr, cons, State, obj, ok}
use siod.Store.View.{ne_nil}
use siod.Machine.{Machine}
use siod.Alloc.Fresh.{Extends}
use siod.Lists.{cdr}
use siod.Lists.Shape.{IsList, IsList-Extends, keep_pair, car-cons, cdr-cons}
use siod.Lists.Cells.{Cells}
use siod.Eval.Forms.{leval_or_loop, leval_or}

-- The forms are evaluated one after the other, each to `NIL`, and keep the cells in use.
abbrev pub NilRow : Machine → Ptr → State → List Ptr → State → Type 0
NilRow m env s [] t = s ≡ t
NilRow m env s (f ∷ fs) t =
    (u : State) × (m.eval f env s ≡ ok 0 u) × Extends s u × NilRow m env u fs t

or_skip :
    (m : Machine) (f : ℕ) (l next form env d : Ptr) (s u : State)
    → obj s l ≡ cons form next
    → (next == 0) ≡ false
    → m.eval form env s ≡ ok 0 u
    → cdr m next u ≡ ok d u
    → leval_or_loop m (suc f) l next env s ≡ leval_or_loop m f next d env u
unfolding leval_or_loop
or_skip m f l next form env d s u e ne v c = rw (ne, car-cons m s l e, v, c)

or_stop :
    (m : Machine) (f : ℕ) (l next form env v : Ptr) (s u : State)
    → obj s l ≡ cons form next
    → (next == 0) ≡ false
    → m.eval form env s ≡ ok v u
    → (v == 0) ≡ false
    → leval_or_loop m (suc f) l next env s ≡ ok (0, v, env) u
unfolding leval_or_loop
or_stop m f l next form env v s u e ne val nz = rw (ne, car-cons m s l e, val, nz)

-- A form `g` that gives a value, with `h` and `rest` behind it.
module _ (m : Machine) (env g h v : Ptr) (rest : List Ptr) (t u : State)
    (val : m.eval g env t ≡ ok v u) (nz : (v == 0) ≡ false) where
  or_last :
      (f : ℕ) (l next : Ptr)
      → obj t l ≡ cons g next
      → IsList t next (h ∷ rest)
      → leval_or_loop m (suc f) l next env t ≡ ok (0, v, env) u
  or_last f l next e (d, k, is) = or_stop m f l next g env v t u e (ne_nil t next k) val nz

  or_rest :
      (fs : List Ptr) (f : ℕ) (l next x : Ptr) (s w : State)
      → obj s l ≡ cons x next
      → IsList s next (fs ++ (g ∷ h ∷ rest))
      → m.eval x env s ≡ ok 0 w
      → Extends s w
      → NilRow m env w fs t
      → length fs < f
      → leval_or_loop m (suc f) l next env s ≡ ok (0, v, env) u
  or_rest fs zero l next x s w e is ev ext row lt = absurd (omega arith)
  or_rest [] (suc f) l next x s w e (d, k, is) ev ext row lt =
      let at = subst (λ a. obj a next ≡ cons g d) row (keep_pair s w next ext k) in
      let there = subst (λ a. IsList a d (h ∷ rest)) row (IsList-Extends s w d (h ∷ rest) ext is) in
      or_skip m (suc f) l next x env d s w e (ne_nil s next k) ev
        (cdr-cons m w next (keep_pair s w next ext k))
      ∙ ap (leval_or_loop m (suc f) next d env) row
      ∙ or_last f next d at there
  or_rest (y ∷ ys) (suc f) l next x s w e (d, k, is) ev ext (w2, ev2, ext2, row) lt =
      let at = keep_pair s w next ext k in
      or_skip m (suc f) l next x env d s w e (ne_nil s next k) ev (cdr-cons m w next at)
      ∙ or_rest ys f next d y w w2 at (IsList-Extends s w d (ys ++ (g ∷ h ∷ rest)) ext is) ev2 ext2
          row (omega arith)

or_start :
    (m : Machine) (form env l next a : Ptr) (s : State)
    → obj s form ≡ cons a l
    → cdr m l s ≡ ok next s
    → leval_or m form env s ≡ leval_or_loop m m.fuel l next env s
unfolding leval_or
or_start m form env l next a s e c = rw (cdr-cons m s form e, c)

-- Where the forms of an `or` in front of one that is not the last are evaluated to `NIL`, one after
-- the other, with the cells in use kept, and this one to another value, the `or` has this value, in
-- the state after this form: the forms behind it are not evaluated.
pub leval_or-first :
    (m : Machine) (form env l a g h v : Ptr) (fs rest : List Ptr) (s t u : State)
    → obj s form ≡ cons a l
    → IsList s l (fs ++ (g ∷ h ∷ rest))
    → NilRow m env s fs t
    → m.eval g env t ≡ ok v u
    → (v == 0) ≡ false
    → length fs + 1 < m.fuel
    → leval_or m form env s ≡ ok (0, v, env) u
leval_or-first m form env l a g h v [] rest s t u e (next, k, is) row val nz lt =
    or_start m form env l next a s e (cdr-cons m s l k) ∙ first m.fuel (omega arith)
  where
    first : (f : ℕ) → 1 ≤ f → leval_or_loop m f l next env s ≡ ok (0, v, env) u
    first zero le = absurd (omega arith)
    first (suc f) le =
        ap (leval_or_loop m (suc f) l next env) row
        ∙ or_last m env g h v rest t u val nz f l next (subst (λ b. obj b l ≡ cons g next) row k)
            (subst (λ b. IsList b next (h ∷ rest)) row is)
leval_or-first m form env l a g h v (x ∷ fs) rest s t u e (next, k, is) (w, ev, ext, row) val nz
      lt =
    or_start m form env l next a s e (cdr-cons m s l k) ∙ later m.fuel lt
  where
    later : (f : ℕ) → suc (length fs) + 1 < f → leval_or_loop m f l next env s ≡ ok (0, v, env) u
    later zero le = absurd (omega arith)
    later (suc f) le =
        or_rest m env g h v rest t u val nz fs f l next x s w k is ev ext row (omega arith)
