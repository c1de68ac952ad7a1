-- ===== src/Eval/Arguments.antt =====
-- On `leval_args` of winsiod/slib.c for arguments like constants and variables.
use siod.Prelude.{
  ℕ, zero, suc, ◌<◌, ◌≡◌, refl, sym, ◌∙◌, ap, true, false, List, [], ◌∷◌, ◌++◌, ◌==◌, arith, length,
  subst, Bool-cases, inl, inr,
}
use siod.Store.{Ptr, cons, State, obj, ok, set_cell, raw_cdr, set_raw_cdr}
use siod.Store.View.{ne_nil, obj_set_self, obj_set_other}
use siod.Machine.{Machine}
use siod.Gc.Reach.{Has, head, tail}
use siod.Gc.Sweep.{is_free_cell}
use siod.Alloc.Error.{cons_cell}
use siod.Alloc.Fresh.{Ready, Extends, Extends-refl, FreeChain-free, Ready-set_cell}
use siod.Lists.Shape.{IsList, keep_pair, on_pair-cons, on_pair-nil, cons_cell-Fresh}
use siod.Lists.Cells.{Cells, ListAt, addresses}
use siod.Eval.{leval_args_loop, leval_args}

raw_cdr_run : (s : State) (p : Ptr) {a d : Ptr} → obj s p ≡ cons a d → raw_cdr p s ≡ ok d s
unfolding raw_cdr
raw_cdr_run s p e = rw e refl

set_raw_cdr_run :
    (s : State) (p v : Ptr) {a d : Ptr}
    → obj s p ≡ cons a d
    → set_raw_cdr p v s ≡ ok tt (set_cell p (cons a v) s)
unfolding set_raw_cdr
set_raw_cdr_run s p v e = rw e refl

-- Each form has the value of its cell wherever the cells in use are as they are now, and its
-- evaluation changes nothing.
abbrev pub Evaluates : Machine → Ptr → State → List Ptr → Cells → Type 0
Evaluates m env s [] [] = Unit
Evaluates m env s [] (c ∷ cs) = ⊥
Evaluates m env s (f ∷ fs) [] = ⊥
Evaluates m env s (f ∷ fs) ((a, v) ∷ cs) =
    ((t : State) → Extends s t → m.eval f env t ≡ ok v t) × Evaluates m env s fs cs

-- A free cell is not one in use.
free_ne :
    (s : State) (p q : Ptr)
    → is_free_cell (obj s p) ≡ true
    → is_free_cell (obj s q) ≡ false
    → (q == p) ≡ false
free_ne s p q h k = elim (Bool-cases (q == p)) [
  | inl e ↦
      let same : q ≡ p = ground arith in
      absurd (let c = sym h ∙ (ap (λ z. is_free_cell (obj s z)) (sym same) ∙ k) in cc)
  | inr e ↦ e
]

module _ (m : Machine) (l env : Ptr) where
  loop_end : (f v1 : ℕ) (s : State) → leval_args_loop m (suc f) l env v1 0 s ≡ ok tt s
  unfolding leval_args_loop
  loop_end f v1 s = on_pair-nil m s 0 _ _ refl

  loop_step :
      (f v1 v2 x d v a w : ℕ) (s t : State) {e : Ptr}
      → obj s v2 ≡ cons x d
      → m.eval x env s ≡ ok v s
      → cons_cell m v 0 s ≡ ok a t
      → obj t v1 ≡ cons w e
      → obj (set_cell v1 (cons w a) t) v2 ≡ cons x d
      → leval_args_loop m (suc f) l env v1 v2 s
        ≡ leval_args_loop m f l env a d (set_cell v1 (cons w a) t)
  unfolding leval_args_loop
  loop_step f v1 v2 x d v a w s t e ev c at at2 =
      on_pair-cons m s v2 e _ _
      ∙ rw (ev, c, set_raw_cdr_run t v1 a at, raw_cdr_run (set_cell v1 (cons w a) t) v2 at2) refl

  -- What the loop leaves: the pair `v1` goes on with the list of the values, in the cells `cs`; no
  -- other cell that was in use at `u` is changed, and none that was in use at `s`.
  record Filled (s u : State) (v1 w : Ptr) (cs : Cells) (free : List Ptr) (t : State) : Type 0 where
    pub rest : Ptr
    pub last : obj t v1 ≡ cons w rest
    pub list : ListAt t rest cs
    pub keeps : (x : Ptr) → is_free_cell (obj u x) ≡ false → (x == v1) ≡ false → obj t x ≡ obj u x
    pub extends : Extends s t
    pub ready : Ready t free

  loop-Filled :
      (f v1 v2 w : ℕ) (s u : State) (fs : List Ptr) (cs : Cells) (free : List Ptr)
      → Extends s u
      → is_free_cell (obj s v1) ≡ true
      → ((x : Ptr) → Has x (addresses cs) → is_free_cell (obj s x) ≡ true)
      → obj u v1 ≡ cons w 0
      → IsList s v2 fs
      → Evaluates m env s fs cs
      → Ready u (addresses cs ++ free)
      → length fs < f
      → (t : State) × (leval_args_loop m f l env v1 v2 u ≡ ok tt t) × Filled s u v1 w cs free t
  loop-Filled zero v1 v2 w s u fs cs free ext new news at is ev r lt = absurd (omega arith)
  loop-Filled (suc f) v1 v2 w s u [] [] free ext new news at is ev r lt = (
    u,
    subst (λ z. leval_args_loop m (suc f) l env v1 z u ≡ ok tt u) (sym is) (loop_end f v1 u),
    record { rest = 0; last = at; list = refl; keeps = λ x h ne. refl; extends = ext; ready = r },
  )
  loop-Filled (suc f) v1 v2 w s u [] (c ∷ cs) free ext new news at is ev r lt = elim ev [ ]
  loop-Filled (suc f) v1 v2 w s u (x ∷ fs) [] free ext new news at is ev r lt = elim ev [ ]
  loop-Filled (suc f) v1 v2 w s u (x ∷ fs) ((a, v) ∷ cs) free ext new news at (d, k, is) (ev, evs) r
        lt =
      let (t, c, fr) = cons_cell-Fresh m v 0 u r in
      let u2 = set_cell v1 (cons w a) t in
      let a_free : is_free_cell (obj u a) ≡ true =
        FreeChain-free u u.freelist a (a ∷ (addresses cs ++ free)) r.chain (head refl) in
      let at_t : obj t v1 ≡ cons w 0 = keep_pair u t v1 fr.extends at in
      let a_ne : (a == v1) ≡ false =
        let ne = free_ne u a v1 a_free (ap is_free_cell at) in ground (arith, ne) in
      let v1_ne = free_ne u a v1 a_free (ap is_free_cell at) in
      let at_2 : obj u2 v1 ≡ cons w a = obj_set_self t v1 (cons w a) (ne_nil t v1 at_t) in
      let ext2 : Extends s u2 = λ y used.
        obj_set_other t v1 y (cons w a) (free_ne s v1 y new used)
        ∙ (fr.extends y (ap is_free_cell (ext y used) ∙ used) ∙ ext y used) in
      let at_a : obj u2 a ≡ cons v 0 = obj_set_other t v1 a (cons w a) a_ne ∙ fr.holds in
      let (t', run, filled) =
        loop-Filled f a d v s u2 fs cs free ext2 (news a (head refl)) (λ y h. news y (tail h)) at_a
          is evs
          (Ready-set_cell t v1 (cons w a) (addresses cs ++ free) (ap is_free_cell at_t) fr.ready)
          (omega arith) in
      (
        t',
        loop_step f v1 v2 x d v a w u t (keep_pair s u v2 ext k) (ev u ext) c at_t
              (keep_pair s u2 v2 ext2 k)
            ∙ run,
        record {
          rest = a;
          last = filled.keeps v1 (ap is_free_cell at_2) v1_ne ∙ at_2;
          list = (refl, (filled.rest, filled.last, filled.list));
          keeps = λ y h ne.
              let same = obj_set_other t v1 y (cons w a) ne ∙ fr.extends y h in
              filled.keeps y (ap is_free_cell same ∙ h) (free_ne u a y a_free h) ∙ same;
          extends = filled.extends;
          ready = filled.ready;
        },
      )

-- What the call gives: the list of the values, in free cells, and all cells in use as they were.
pub record Evaluated (s t : State) (actuals : Ptr) (cs : Cells) (free : List Ptr) : Type 0 where
  pub list : ListAt t actuals cs
  pub extends : Extends s t
  pub ready : Ready t free

Has-++ : (x : Ptr) (xs ys : List Ptr) → Has x xs → Has x (xs ++ ys)
Has-++ x [] ys h = elim h [ ]
Has-++ x (y ∷ xs) ys (head e) = head e
Has-++ x (y ∷ xs) ys (tail h) = tail (Has-++ x xs ys h)

leval_args_start :
    (m : Machine) (l env x d v a : Ptr) (s t u : State)
    → obj s l ≡ cons x d
    → m.eval x env s ≡ ok v s
    → cons_cell m v 0 s ≡ ok a t
    → obj t l ≡ cons x d
    → leval_args_loop m m.fuel l env a d t ≡ ok tt u
    → leval_args m l env s ≡ ok a u
unfolding leval_args
leval_args_start m l env x d v a s t u e ev c e2 run =
    rw (ne_nil s l e) (on_pair-cons m s l e _ _ ∙ rw (ev, c, raw_cdr_run t l e2, run) refl)

pub leval_args-Evaluated :
    (m : Machine) (l env : Ptr) (s : State) (fs : List Ptr) (cs : Cells) (free : List Ptr)
    → IsList s l fs
    → Evaluates m env s fs cs
    → Ready s (addresses cs ++ free)
    → length fs < m.fuel
    → (actuals : Ptr) × (t : State) × (leval_args m l env s ≡ ok actuals t)
      × Evaluated s t actuals cs free
unfolding leval_args
leval_args-Evaluated m l env s [] [] free is ev r lt =
    (0, s, rw is refl, record { list = refl; extends = Extends-refl s; ready = r })
leval_args-Evaluated m l env s [] (c ∷ cs) free is ev r lt = elim ev [ ]
leval_args-Evaluated m l env s (x ∷ fs) [] free is ev r lt = elim ev [ ]
leval_args-Evaluated m l env s (x ∷ fs) ((a, v) ∷ cs) free (d, k, is) (ev, evs) r lt =
    let (t, c, fr) = cons_cell-Fresh m v 0 s r in
    let free_at = λ (y : Ptr) (h : Has y (a ∷ addresses cs)).
      FreeChain-free s s.freelist y (a ∷ (addresses cs ++ free)) r.chain
        (Has-++ y (a ∷ addresses cs) free h) in
    let (u, run, filled) =
      loop-Filled m l env m.fuel a d v s t fs cs free fr.extends (free_at a (head refl))
        (λ y h. free_at y (tail h)) fr.holds is evs fr.ready (omega arith) in
    (
      a,
      u,
      leval_args_start m l env x d v a s t u k (ev s (Extends-refl s)) c
          (keep_pair s t l fr.extends k) run,
      record {
        list = (refl, (filled.rest, filled.last, filled.list));
        extends = filled.extends;
        ready = filled.ready;
      },
    )
