-- ===== src/Eval/Control.antt =====
-- `catch` and `throw`, `let-internal`, `quote`, `the-environment` and `while` of winsiod/slib.c, and
-- `prog1` and `cond` of winsiod/sliba.c.
use siod.Prelude.{ℕ, zero, suc, none, some, List, [], ◌∷◌, ◌==◌, if◌then◌else◌, length}
use siod.Store.{Ptr, Frame, State, Run, ok, caught, fault, Cmd, pure, ◌>>=◌, ◌>>◌, modify}
use siod.Machine.{Machine}
use siod.Alloc.Error.{fail, find_frame, set_retval}
use siod.Lists.{car, cdr, cadr, caddr, exhausted}
use siod.Eval.Env.{extend_env}
use siod.Eval.{leval_args}
use siod.Eval.Forms.{Step, go_on, but_last}

module _ (m : Machine) where
  -- The loop of `leval_catch_1`.
  unfoldable pub leval_row : ℕ → Ptr → Ptr → Ptr → Cmd Ptr
  leval_row zero l env val = exhausted
  leval_row (suc f) l env val =
      let more : Cmd Ptr = (do a ← car m l; v ← m.eval a env; d ← cdr m l; leval_row f d env v) in
      if l == 0 then pure val else more

  unfoldable pub pop_frame : State → State
  pop_frame s = record s { catch_frames = elim s.catch_frames [ [] ↦ [] | f ∷ fs ↦ fs ] }

  unfoldable pub leval_catch_1 : Ptr → Ptr → Cmd Ptr
  leval_catch_1 forms env = do val ← leval_row m.fuel forms env 0; modify pop_frame; pure val

  -- The frame with so many frames outside it, and these.
  unfoldable pub frames_from : ℕ → List Frame → List Frame
  frames_from n [] = []
  frames_from n (f ∷ fs) = if length fs == n then f ∷ fs else frames_from n fs

  -- `setjmp` returns a second time where the jump was to this frame.
  unfoldable pub land : ℕ → Run Ptr → Run Ptr
  land depth (caught n s) =
      if n == depth
      then elim (frames_from n s.catch_frames) [
        | f ∷ fs ↦ ok f.retval (record s { catch_frames = fs })
        | [] ↦ fault
      ]
      else caught n s
  land depth r = r

  unfoldable pub leval_catch : Ptr → Ptr → Cmd Ptr
  leval_catch args env = do
    form ← car m args
    tag ← m.eval form env
    (λ s.
        let frame : Frame = record { tag = tag; retval = 0 } in
        land (length s.catch_frames) (
          (do forms ← cdr m args; leval_catch_1 forms env)
            (record s { catch_frames = frame ∷ s.catch_frames })))

  unfoldable pub lthrow : Ptr → Ptr → Cmd Ptr
  lthrow tag value s = elim (find_frame tag s.symbols.sym_catchall s.catch_frames) [
    | some n ↦ caught n (record s { catch_frames = set_retval n value s.catch_frames })
    | none ↦ fail m "no *catch found with this tag" tag s
  ]

  unfoldable pub leval_let : Ptr → Ptr → Cmd Step
  leval_let form env = do
    l ← cdr m form
    inits ← cadr m l
    actuals ← leval_args m inits env
    formals ← car m l
    env' ← extend_env m actuals formals env
    form' ← caddr m l
    go_on m form' env'

  unfoldable pub leval_quote : Ptr → Ptr → Cmd Ptr
  leval_quote args env = car m args

  unfoldable pub leval_tenv : Ptr → Ptr → Cmd Ptr
  leval_tenv args env = pure env

  unfoldable pub leval_while_loop : ℕ → Ptr → Ptr → Cmd Ptr
  leval_while_loop zero args env = exhausted
  leval_while_loop (suc f) args env = do
    test ← car m args
    v ← m.eval test env
    let more : Cmd Ptr = (do
      body ← cdr m args
      leval_row m.fuel body env 0
      leval_while_loop f args env)
    if v == 0 then pure 0 else more

  unfoldable pub leval_while : Ptr → Ptr → Cmd Ptr
  leval_while args env = leval_while_loop m.fuel args env

  unfoldable pub leval_prog1 : Ptr → Ptr → Cmd Ptr
  leval_prog1 args env = do
    form ← car m args
    retval ← m.eval form env
    l ← cdr m args
    leval_row m.fuel l env 0
    pure retval

  -- The last clause of `leval_cond`, whose test is the form of the loop if it stands alone.
  unfoldable pub cond_last : Ptr → Ptr → Cmd Step
  cond_last clause env = do
    next ← cdr m clause
    let alone : Cmd Step = (do a ← car m clause; go_on m a env)
    let tested : Cmd Step = (do
      a ← car m clause
      value ← m.eval a env
      let chosen : Cmd Step = (do
        next' ← cdr m next
        form ← but_last m m.fuel next next' env
        go_on m form env)
      if value == 0 then pure (0, 0, env) else chosen)
    if next == 0 then alone else tested

  -- A clause before the last that was chosen, with the value of its test.
  unfoldable pub cond_chosen : Ptr → Ptr → Ptr → Cmd Step
  cond_chosen value clause env = do
    body ← cdr m clause
    let forms : Cmd Step = (do
      next ← cdr m body
      form ← but_last m m.fuel body next env
      go_on m form env)
    if body == 0 then pure (0, value, env) else forms

  unfoldable pub leval_cond_loop : ℕ → Ptr → Ptr → Ptr → Cmd Step
  leval_cond_loop zero args next env = exhausted
  leval_cond_loop (suc f) args next env = do
    clause ← car m args
    let more : Cmd Step = (do
      test ← car m clause
      value ← m.eval test env
      if value == 0
          then (do next' ← cdr m next; leval_cond_loop f next next' env)
          else cond_chosen value clause env)
    if next == 0 then cond_last clause env else more

  unfoldable pub leval_cond : Ptr → Ptr → Cmd Step
  leval_cond form env = do
    args ← cdr m form
    let clauses : Cmd Step = (do next ← cdr m args; leval_cond_loop m.fuel args next env)
    if args == 0 then pure (0, 0, env) else clauses
