-- ===== src/Eval/Apply.antt =====
-- `lapply` of winsiod/slib.c, and the calls through it in winsiod/sliba.c.
use siod.Prelude.{ℕ, zero, suc, List, [], ◌∷◌, ◌==◌, if◌then◌else◌}
use siod.Store.{
  Ptr, cons, subr, closure, SubrKind, subr_0, subr_1, subr_2, subr_3, subr_4, subr_5, subr_2n,
  lsubr, fsubr, msubr, Cmd, pure, ◌>>=◌, ◌>>◌, view, raw_cdr, set_raw_cdr,
}
use siod.Machine.{Machine}
use siod.Alloc.Error.{fail, cons_cell}
use siod.Lists.{car, cdr, on_pair, exhausted, not_found, nreverse}
use siod.Eval.Env.{extend_env}

module _ (m : Machine) where
  -- The first `n` elements of the arguments; a missing one is `NIL`.
  unfoldable pub first_args : ℕ → Ptr → Cmd (List Ptr)
  first_args zero args = pure []
  first_args (suc zero) args = do a ← car m args; pure (a ∷ [])
  first_args (suc (suc n)) args = do
    a ← car m args
    d ← cdr m args
    rest ← first_args (suc n) d
    pure (a ∷ rest)

  unfoldable pub apply_fold : ℕ → ℕ → Ptr → Ptr → Cmd Ptr
  apply_fold zero f args acc = exhausted
  apply_fold (suc k) f args acc =
      on_pair m args
        (λ a _. do acc' ← m.call f (acc ∷ a ∷ []); d ← raw_cdr args; apply_fold k f d acc')
        (pure acc)

  unfoldable pub apply_first : ℕ → ℕ → Ptr → Cmd Ptr
  apply_first n f args = do vs ← first_args n args; m.call f vs

  unfoldable pub apply_subr : SubrKind → ℕ → Ptr → Ptr → Cmd Ptr
  apply_subr subr_0 f fcn args = m.call f []
  apply_subr subr_1 f fcn args = apply_first 1 f args
  apply_subr subr_2 f fcn args = apply_first 2 f args
  apply_subr subr_2n f fcn args = do
    vs ← first_args 2 args
    acc ← m.call f vs
    d ← cdr m args
    rest ← cdr m d
    apply_fold m.fuel f rest acc
  apply_subr subr_3 f fcn args = apply_first 3 f args
  apply_subr subr_4 f fcn args = apply_first 4 f args
  apply_subr subr_5 f fcn args = apply_first 5 f args
  apply_subr lsubr f fcn args = m.call f (args ∷ [])
  apply_subr fsubr f fcn args = fail m "cannot be applied" fcn
  apply_subr msubr f fcn args = fail m "cannot be applied" fcn

  unfoldable pub apply_closure_subr : SubrKind → ℕ → Ptr → Ptr → Ptr → Cmd Ptr
  apply_closure_subr subr_1 f fcn cenv args = m.call f (cenv ∷ [])
  apply_closure_subr subr_2 f fcn cenv args = do vs ← first_args 1 args; m.call f (cenv ∷ vs)
  apply_closure_subr subr_3 f fcn cenv args = do vs ← first_args 2 args; m.call f (cenv ∷ vs)
  apply_closure_subr subr_4 f fcn cenv args = do vs ← first_args 3 args; m.call f (cenv ∷ vs)
  apply_closure_subr subr_5 f fcn cenv args = do vs ← first_args 4 args; m.call f (cenv ∷ vs)
  apply_closure_subr lsubr f fcn cenv args = do p ← cons_cell m cenv args; m.call f (p ∷ [])
  apply_closure_subr _ f fcn cenv args = fail m "closure code type not valid" fcn

  unfoldable pub apply_closure : Ptr → Ptr → Ptr → Ptr → Cmd Ptr
  apply_closure fcn cenv code args = do
    o ← view code
    elim o [
      | cons formals body ↦ do env ← extend_env m args formals cenv; m.eval body env
      | subr kind name f ↦ apply_closure_subr kind f fcn cenv args
      | _ ↦ fail m "closure code type not valid" fcn
    ]

  unfoldable pub lapply : Ptr → Ptr → Cmd Ptr
  lapply fcn args = do
    o ← view fcn
    elim o [
      | subr kind name f ↦ apply_subr kind f fcn args
      | closure cenv code ↦ apply_closure fcn cenv code args
      | _ ↦ fail m "cannot be applied" fcn
    ]

  unfoldable pub apply_one : Ptr → Ptr → Cmd Ptr
  apply_one fcn a1 = do args ← cons_cell m a1 0; lapply fcn args

  unfoldable pub funcall1 : Ptr → Ptr → Cmd Ptr
  funcall1 fcn a1 = do
    o ← view fcn
    elim o [
      | subr kind name f ↦ elim kind [ subr_1 ↦ m.call f (a1 ∷ []) | _ ↦ apply_one fcn a1 ]
      | closure cenv code ↦ do
        c ← view code
        elim c [
          | subr kind name f ↦ elim kind [
            | subr_2 ↦ m.call f (cenv ∷ a1 ∷ [])
            | _ ↦ apply_one fcn a1
          ]
          | _ ↦ apply_one fcn a1
        ]
      | _ ↦ apply_one fcn a1
    ]

  unfoldable pub apply_two : Ptr → Ptr → Ptr → Cmd Ptr
  apply_two fcn a1 a2 = do l ← cons_cell m a2 0; args ← cons_cell m a1 l; lapply fcn args

  unfoldable pub funcall2 : Ptr → Ptr → Ptr → Cmd Ptr
  funcall2 fcn a1 a2 = do
    o ← view fcn
    elim o [
      | subr kind name f ↦ elim kind [
        | subr_2 ↦ m.call f (a1 ∷ a2 ∷ [])
        | subr_2n ↦ m.call f (a1 ∷ a2 ∷ [])
        | _ ↦ apply_two fcn a1 a2
      ]
      | _ ↦ apply_two fcn a1 a2
    ]

  unfoldable pub mapcar1_loop : ℕ → Ptr → Ptr → Ptr → Cmd (Unit {0})
  mapcar1_loop zero fcn ptr l = exhausted
  mapcar1_loop (suc f) fcn ptr l =
      on_pair m l
        (λ a _. do
          v ← funcall1 fcn a
          rest ← raw_cdr ptr
          next ← cons_cell m v rest
          set_raw_cdr ptr next
          d ← raw_cdr l
          mapcar1_loop f fcn next d)
        (pure tt)

  unfoldable pub mapcar1 : Ptr → Ptr → Cmd Ptr
  mapcar1 fcn in' =
      let more : Cmd Ptr = (do
        a ← car m in'
        v ← funcall1 fcn a
        res ← cons_cell m v 0
        l ← cdr m in'
        mapcar1_loop m.fuel fcn res l
        pure res) in
      if in' == 0 then pure 0 else more

  unfoldable pub lsubset_loop : ℕ → Ptr → Ptr → Ptr → Cmd Ptr
  lsubset_loop zero fcn v result = exhausted
  lsubset_loop (suc f) fcn v result =
      on_pair m v
        (λ a _. do
          keep ← funcall1 fcn a
          result' ← (if keep == 0 then pure result else cons_cell m a result)
          d ← raw_cdr v
          lsubset_loop f fcn d result')
        (nreverse m result)

  unfoldable pub lsubset : Ptr → Ptr → Cmd Ptr
  lsubset fcn l = lsubset_loop m.fuel fcn l 0

  unfoldable pub ass_loop : ℕ → Ptr → Ptr → Ptr → Ptr → Cmd Ptr
  ass_loop zero x alist fcn l = exhausted
  ass_loop (suc f) x alist fcn l =
      let next : Cmd Ptr = (do d ← raw_cdr l; ass_loop f x alist fcn d) in
      on_pair m l
        (λ tmp _.
          on_pair m tmp (λ k _. do v ← funcall2 fcn k x; if v == 0 then next else pure tmp) next)
        (not_found m "improper list to ass" l alist)

  unfoldable pub ass : Ptr → Ptr → Ptr → Cmd Ptr
  ass x alist fcn = ass_loop m.fuel x alist fcn alist
