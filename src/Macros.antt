-- ===== src/Macros.antt =====
-- The macros `let`, `let*` and `letrec` of winsiod/slib.c, which rewrite their form, with `listn` of
-- winsiod/sliba.c.
use siod.Prelude.{ℕ, zero, suc, List, [], ◌∷◌, ◌==◌, if◌then◌else◌, length, codes}
use siod.Store.{Ptr, Cmd, pure, ◌>>=◌, ◌>>◌, view, get_symbol, is_symbol}
use siod.Machine.{Machine}
use siod.Alloc.Error.{cons_cell}
use siod.Lists.{exhausted, car, cdr, setcar, setcdr, cadr, cddr, caar, reverse}
use siod.Symbols.{gen_intern}

module _ (m : Machine) where
  -- The bindings of `let`: the variables and the forms, the last ones first.
  unfoldable pub let_loop : ℕ → Ptr → Ptr → Ptr → Cmd (Ptr × Ptr)
  let_loop zero p fl al = exhausted
  let_loop (suc f) p fl al =
      let more : Cmd (Ptr × Ptr) = (do
        tmp ← car m p
        o ← view tmp
        name ← (if is_symbol o then pure tmp else car m tmp)
        fl' ← cons_cell m name fl
        form ← (if is_symbol o then pure 0 else (do d ← cdr m tmp; car m d))
        al' ← cons_cell m form al
        d ← cdr m p
        let_loop f d fl' al') in
      if p == 0 then pure (fl, al) else more

  unfoldable pub let_body : Ptr → Cmd Ptr
  let_body p = do
    d ← cdr m p
    if d == 0 then car m p else (do progn ← get_symbol (λ y. y.sym_progn); cons_cell m progn p)

  unfoldable pub let_macro : Ptr → Cmd Ptr
  let_macro form = do
    d ← cdr m form
    bindings ← car m d
    (fl, al) ← let_loop m.fuel bindings 0 0
    rest ← cddr m form
    body ← let_body rest
    last ← cons_cell m body 0
    forms ← reverse m al
    tail ← cons_cell m forms last
    names ← reverse m fl
    new ← cons_cell m names tail
    setcdr m form new
    op ← gen_intern m (codes "let-internal")
    setcar m form op
    pure form

  -- The rewriting of `let*` with more than one binding.
  unfoldable pub nest_let : Ptr → Ptr → Cmd Ptr
  nest_let form bindings = do
    body ← cddr m form
    others ← cdr m bindings
    inner ← cons_cell m others body
    op ← gen_intern m (codes "let*")
    nested ← cons_cell m op inner
    tail ← cons_cell m nested 0
    first ← car m bindings
    one ← cons_cell m first 0
    new ← cons_cell m one tail
    setcdr m form new

  unfoldable pub letstar_macro : Ptr → Cmd Ptr
  letstar_macro form = do
    bindings ← cadr m form
    more ← (if bindings == 0 then pure 0 else cdr m bindings)
    (if more == 0 then pure 0 else nest_let form bindings)
    op ← gen_intern m (codes "let")
    setcar m form op
    pure form

  -- `listn`: the cells first, from the last one, then their elements.
  unfoldable pub empty_cells : ℕ → Ptr → Cmd Ptr
  empty_cells zero result = pure result
  empty_cells (suc n) result = do r ← cons_cell m 0 result; empty_cells n r

  unfoldable pub listn_loop : List Ptr → Ptr → Cmd (Unit {0})
  listn_loop [] ptr = pure tt
  listn_loop (x ∷ xs) ptr = do setcar m ptr x; d ← cdr m ptr; listn_loop xs d

  unfoldable pub listn : List Ptr → Cmd Ptr
  listn args = do result ← empty_cells (length args) 0; listn_loop args result; pure result

  unfoldable pub letrec_loop : ℕ → Ptr → Ptr → Ptr → Cmd (Ptr × Ptr)
  letrec_loop zero l letb setb = exhausted
  letrec_loop (suc f) l letb setb =
      let more : Cmd (Ptr × Ptr) = (do
        name ← caar m l
        one ← cons_cell m name 0
        letb' ← cons_cell m one letb
        b ← car m l
        value ← cadr m b
        name' ← caar m l
        op ← gen_intern m (codes "set!")
        assign ← listn (op ∷ name' ∷ value ∷ [])
        setb' ← cons_cell m assign setb
        d ← cdr m l
        letrec_loop f d letb' setb') in
      if l == 0 then pure (letb, setb) else more

  unfoldable pub letrec_macro : Ptr → Cmd Ptr
  letrec_macro form = do
    body ← cddr m form
    bindings ← cadr m form
    (letb, setb) ← letrec_loop m.fuel bindings 0 body
    new ← cons_cell m letb setb
    setcdr m form new
    op ← gen_intern m (codes "let")
    setcar m form op
    pure form
