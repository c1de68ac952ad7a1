-- ===== src/Eval.antt =====
-- The evaluator of winsiod/slib.c: environments, `leval`, `lapply` and the special forms. A call
-- of `leval` inside another goes through `eval` of the machine; `Eval.Knot` ties it.
pub mod Env
pub mod Apply
pub mod Forms
pub mod Control
pub mod Knot
pub mod Lookup
pub mod Catch
pub mod Extend
pub mod Assign
pub mod Arguments
pub mod Calls
use siod.Prelude.{
  ℕ, zero, suc, Bool, true, false, Option, none, some, List, [], ◌∷◌, ◌==◌, if◌then◌else◌,
}
use siod.Store.{
  Ptr, Obj, nil, cons, symbol, subr, closure, SubrKind, subr_0, subr_1, subr_2, subr_3, subr_4,
  subr_5, subr_2n, lsubr, fsubr, msubr, State, Symbols, obj, Run, ok, fault, Cmd, pure, ◌>>=◌, ◌>>◌,
  and_then, view, store, get, get_symbol, is_symbol, raw_car, raw_cdr, set_raw_car, set_raw_cdr,
}
use siod.Machine.{Machine}
use siod.Alloc.Error.{fail, cons_cell, set_vcell}
use siod.Lists.{car, cdr, on_pair, exhausted}
use siod.Eval.Env.{envlookup, extend_env, symbol_or_global}

-- How a round of the loop in `leval` ends: with a value, or with a new form and environment.
pub data Next : Type 0 where
  done : Ptr → Next
  again : Ptr → Ptr → Next

module _ (m : Machine) where
  -- `leval_args` after its first argument: `v1` is the last pair so far.
  unfoldable pub leval_args_loop : ℕ → Ptr → Ptr → Ptr → Ptr → Cmd (Unit {0})
  leval_args_loop zero l env v1 v2 = exhausted
  leval_args_loop (suc f) l env v1 v2 =
      on_pair m v2
        (λ a _. do
          v ← m.eval a env
          tmp ← cons_cell m v 0
          set_raw_cdr v1 tmp
          d ← raw_cdr v2
          leval_args_loop f l env tmp d)
        (if v2 == 0 then pure tt else fail m "bad syntax argument list" l)

  unfoldable pub leval_args : Ptr → Ptr → Cmd Ptr
  leval_args l env =
      if l == 0
      then pure 0
      else on_pair m l
          (λ a _. do
            v ← m.eval a env
            result ← cons_cell m v 0
            d ← raw_cdr l
            leval_args_loop m.fuel l env result d
            pure result)
          (fail m "bad syntax argument list" l)

  -- The first `n` arguments of a form, evaluated; a missing one is `NIL`.
  unfoldable pub leval_first : ℕ → Ptr → Ptr → Cmd (List Ptr)
  leval_first zero x env = pure []
  leval_first (suc zero) x env = do a ← car m x; v ← m.eval a env; pure (v ∷ [])
  leval_first (suc (suc n)) x env = do
    a ← car m x
    v ← m.eval a env
    d ← cdr m x
    vs ← leval_first (suc n) d env
    pure (v ∷ vs)

  -- The loop over the further arguments of a `tc_subr_2n`.
  unfoldable pub leval_fold : ℕ → ℕ → Ptr → Ptr → Ptr → Cmd Ptr
  leval_fold zero f x env acc = exhausted
  leval_fold (suc k) f x env acc =
      on_pair m x
        (λ a _. do
          v ← m.eval a env
          acc' ← m.call f (acc ∷ v ∷ [])
          d ← raw_cdr x
          leval_fold k f d env acc')
        (pure acc)

  unfoldable pub finish : Cmd Ptr → Cmd Next
  finish c = do v ← c; pure (done v)

  unfoldable pub call_first : ℕ → ℕ → Ptr → Ptr → Cmd Next
  call_first n f args env = do vs ← leval_first n args env; finish (m.call f vs)

  -- A form whose operator is a subr; `x` is the form, `args` its `CDR`.
  unfoldable pub leval_subr : SubrKind → ℕ → Ptr → Ptr → Ptr → Cmd Next
  leval_subr subr_0 f x args env = finish (m.call f [])
  leval_subr subr_1 f x args env = call_first 1 f args env
  leval_subr subr_2 f x args env = call_first 2 f args env
  leval_subr subr_2n f x args env = do
    a ← car m args
    u ← m.eval a env
    d ← cdr m args
    b ← car m d
    v ← m.eval b env
    acc ← m.call f (u ∷ v ∷ [])
    rest ← cdr m d
    finish (leval_fold m.fuel f rest env acc)
  leval_subr subr_3 f x args env = call_first 3 f args env
  leval_subr subr_4 f x args env = call_first 4 f args env
  leval_subr subr_5 f x args env = call_first 5 f args env
  leval_subr lsubr f x args env = do l ← leval_args args env; finish (m.call f (l ∷ []))
  leval_subr fsubr f x args env = finish (m.call f (args ∷ env ∷ []))
  leval_subr msubr f x args env = do
    (go, x', env') ← m.call_m f x env
    pure (if go == 0 then done x' else again x' env')

  -- A closure over a subr: the environment of the closure is the first argument.
  unfoldable pub leval_closure_subr : SubrKind → ℕ → Ptr → Ptr → Ptr → Ptr → Cmd Next
  leval_closure_subr subr_1 f fn cenv args env = finish (m.call f (cenv ∷ []))
  leval_closure_subr subr_2 f fn cenv args env = do
    vs ← leval_first 1 args env
    finish (m.call f (cenv ∷ vs))
  leval_closure_subr subr_3 f fn cenv args env = do
    vs ← leval_first 2 args env
    finish (m.call f (cenv ∷ vs))
  leval_closure_subr subr_4 f fn cenv args env = do
    vs ← leval_first 3 args env
    finish (m.call f (cenv ∷ vs))
  leval_closure_subr subr_5 f fn cenv args env = do
    vs ← leval_first 4 args env
    finish (m.call f (cenv ∷ vs))
  leval_closure_subr lsubr f fn cenv args env = do
    l ← leval_args args env
    p ← cons_cell m cenv l
    finish (m.call f (p ∷ []))
  leval_closure_subr _ f fn cenv args env = fail m "closure code type not valid" fn

  unfoldable pub leval_closure : Ptr → Ptr → Ptr → Ptr → Ptr → Cmd Next
  leval_closure fn cenv code args env = do
    o ← view code
    elim o [
      | cons formals body ↦ do
        actuals ← leval_args args env
        env' ← extend_env m actuals formals cenv
        pure (again body env')
      | subr kind name f ↦ leval_closure_subr kind f fn cenv args env
      | _ ↦ fail m "closure code type not valid" fn
    ]

  -- A macro: the form is quoted and handed to the function that the symbol names.
  unfoldable pub leval_macro : Ptr → Ptr → Ptr → Cmd Next
  leval_macro fn x env = do
    quote ← get_symbol (λ y. y.sym_quote)
    a ← cons_cell m x 0
    b ← cons_cell m quote a
    c ← cons_cell m b 0
    form ← cons_cell m fn c
    x' ← m.eval form 0
    pure (again x' env)

  unfoldable pub leval_form : Ptr → Ptr → Ptr → Ptr → Cmd Next
  leval_form fn x args env = do
    o ← view fn
    elim o [
      | subr kind name f ↦ leval_subr kind f x args env
      | closure cenv code ↦ leval_closure fn cenv code args env
      | symbol name v ↦ leval_macro fn x env
      | _ ↦ fail m "bad function" fn
    ]

  -- The operator of a form: a symbol is looked up, a pair evaluated, all else stands for itself.
  unfoldable pub leval_operator : Ptr → Ptr → Cmd Ptr
  leval_operator fn env = do
    o ← view fn
    elim o [ symbol name v ↦ symbol_or_global m fn env | cons a d ↦ m.eval fn env | _ ↦ pure fn ]

  -- The evaluation history: a circular list whose next pair takes the form.
  unfoldable pub note_history : Ptr → Cmd (Unit {0})
  note_history x = do
    ptr ← get_symbol (λ y. y.sym_eval_history_ptr)
    o ← view ptr
    elim o [
      | symbol name tmp ↦ on_pair m tmp (λ a d. set_raw_car tmp x >> set_vcell ptr d) (pure tt)
      | _ ↦ (λ _. fault)
    ]

  -- A round of the loop.
  unfoldable pub leval_step : Ptr → Ptr → Cmd Next
  leval_step x env = do
    note_history x
    o ← view x
    elim o [
      | symbol name v ↦ finish (symbol_or_global m x env)
      | cons fn args ↦ do tmp ← leval_operator fn env; args' ← raw_cdr x; leval_form tmp x args' env
      | _ ↦ pure (done x)
    ]

  unfoldable pub leval_loop : ℕ → Ptr → Ptr → Cmd Ptr
  leval_loop zero x env = exhausted
  leval_loop (suc f) x env = do
    n ← leval_step x env
    elim n [ done v ↦ pure v | again x' env' ↦ leval_loop f x' env' ]
