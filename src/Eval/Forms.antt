-- ===== src/Eval/Forms.antt =====
-- The special forms of winsiod/slib.c up to `and`; `Eval.Control` has the others. An msubr returns
-- its value with the new form and environment.
use siod.Prelude.{ℕ, zero, suc, ◌==◌, if◌then◌else◌}
use siod.Store.{Ptr, closure, Cmd, pure, ◌>>=◌, ◌>>◌, view, get_symbol, is_symbol, set_raw_car}
use siod.Machine.{Machine}
use siod.Alloc.Error.{fail, cons_cell, alloc, set_vcell}
use siod.Lists.{car, cdr, cadr, setcar, setcdr, exhausted}
use siod.Eval.Env.{envlookup, setvar}

-- The value of an msubr, the new form and the new environment.
abbrev pub Step : Type 0
Step = Ptr × Ptr × Ptr

module _ (m : Machine) where
  unfoldable pub leval_setq : Ptr → Ptr → Cmd Ptr
  leval_setq args env = do
    var ← car m args
    form ← cadr m args
    val ← m.eval form env
    setvar m var val env

  unfoldable pub syntax_define_rec : ℕ → Ptr → Cmd Ptr
  syntax_define_rec zero args = exhausted
  syntax_define_rec (suc f) args = do
    a ← car m args
    o ← view a
    let curried : Cmd Ptr = (do
      name ← car m a
      formals ← cdr m a
      body ← cdr m args
      lambda ← get_symbol (λ y. y.sym_lambda)
      fb ← cons_cell m formals body
      l ← cons_cell m lambda fb
      ls ← cons_cell m l 0
      next ← cons_cell m name ls
      syntax_define_rec f next)
    if is_symbol o then pure args else curried

  unfoldable pub syntax_define : Ptr → Cmd Ptr
  syntax_define args = syntax_define_rec m.fuel args

  unfoldable pub leval_define : Ptr → Ptr → Cmd Ptr
  leval_define args env = do
    form ← syntax_define args
    var ← car m form
    o ← view var
    let body : Cmd Ptr = (do
      f ← cadr m form
      val ← m.eval f env
      tmp ← envlookup m var env
      if tmp == 0
          then (if env == 0 then set_vcell var val >> pure val else (do
            frame ← car m env
            names ← car m frame
            names' ← cons_cell m var names
            setcar m frame names'
            values ← cdr m frame
            values' ← cons_cell m val values
            setcdr m frame values'
            pure val))
          else set_raw_car tmp val >> pure val)
    if is_symbol o then body else fail m "wta(non-symbol) to define" var

  unfoldable pub go_on : Ptr → Ptr → Cmd Step
  go_on form env = do t ← get_symbol (λ y. y.sym_t); pure (t, form, env)

  unfoldable pub leval_if : Ptr → Ptr → Cmd Step
  leval_if form env = do
    args ← cdr m form
    test ← car m args
    v ← m.eval test env
    rest ← cdr m args
    form' ← (if v == 0 then cadr m rest else car m rest)
    go_on form' env

  unfoldable pub leval_lambda : Ptr → Ptr → Cmd Ptr
  leval_lambda args env = do
    rest ← cdr m args
    more ← cdr m rest
    body ←
        (if more == 0
          then car m rest
          else (do progn ← get_symbol (λ y. y.sym_progn); cons_cell m progn rest))
    formals ← car m args
    code ← cons_cell m formals body
    alloc m (closure env code)

  -- All but the last of a row of forms are evaluated; the last is returned.
  unfoldable pub but_last : ℕ → Ptr → Ptr → Ptr → Cmd Ptr
  but_last zero l next env = exhausted
  but_last (suc f) l next env =
      let more : Cmd Ptr = (do
        a ← car m l
        m.eval a env
        next' ← cdr m next
        but_last f next next' env) in
      if next == 0 then car m l else more

  unfoldable pub leval_progn : Ptr → Ptr → Cmd Step
  leval_progn form env = do
    l ← cdr m form
    next ← cdr m l
    form' ← but_last m.fuel l next env
    go_on form' env

  unfoldable pub leval_or_loop : ℕ → Ptr → Ptr → Ptr → Cmd Step
  leval_or_loop zero l next env = exhausted
  leval_or_loop (suc f) l next env =
      let more : Cmd Step = (do
        a ← car m l
        val ← m.eval a env
        if val == 0
            then (do next' ← cdr m next; leval_or_loop f next next' env)
            else pure (0, val, env)) in
      let end : Cmd Step = (do a ← car m l; go_on a env) in if next == 0 then end else more

  unfoldable pub leval_or : Ptr → Ptr → Cmd Step
  leval_or form env = do l ← cdr m form; next ← cdr m l; leval_or_loop m.fuel l next env

  unfoldable pub leval_and_loop : ℕ → Ptr → Ptr → Ptr → Cmd Step
  leval_and_loop zero l next env = exhausted
  leval_and_loop (suc f) l next env =
      let more : Cmd Step = (do
        a ← car m l
        val ← m.eval a env
        if val == 0
            then pure (0, 0, env)
            else (do next' ← cdr m next; leval_and_loop f next next' env)) in
      let end : Cmd Step = (do a ← car m l; go_on a env) in if next == 0 then end else more

  unfoldable pub leval_and : Ptr → Ptr → Cmd Step
  leval_and form env = do
    l ← cdr m form
    let empty : Cmd Step = (do t ← get_symbol (λ y. y.sym_t); pure (0, t, env))
    let some_forms : Cmd Step = (do next ← cdr m l; leval_and_loop m.fuel l next env)
    if l == 0 then empty else some_forms
