-- ===== src/Eval/Knot.antt =====
-- `leval` with the functions behind the subrs that `init_subrs_1` and `init_subrs_a` register. A
-- function pointer is a number here; those that the tables lack are the machine's.
use siod.Prelude.{ℕ, zero, suc, List, [], ◌∷◌, ◌==◌, if◌then◌else◌}
use siod.Store.{Ptr, Cmd}
use siod.Machine.{Machine}
use siod.Lists.{
  car, cdr, setcar, setcdr, consp, eq, nullp, memq, assq, reverse, nreverse, copy_list, last, nconc,
  append, exhausted,
}
use siod.Alloc.Error.{cons_cell}
use siod.Eval.{leval_loop}
use siod.Eval.Apply.{lapply, mapcar1}
use siod.Eval.Forms.{
  leval_setq, leval_define, leval_if, leval_lambda, leval_progn, leval_or, leval_and, Step,
}
use siod.Eval.Control.{
  leval_catch, lthrow, leval_let, leval_quote, leval_tenv, leval_while, leval_prog1, leval_cond,
}

-- The functions of one argument.
unfoldable pub call_1 : Machine → ℕ → Ptr → Cmd Ptr
call_1 m f x =
    if f == 1
    then car m x
    else if f == 2
    then cdr m x
    else if f == 3
    then consp m x
    else if f == 4
    then nullp m x
    else if f == 5
    then reverse m x
    else if f == 6
    then nreverse m x
    else if f == 7
    then copy_list m x
    else if f == 8
    then last m x
    else if f == 9
    then append m x
    else m.call f (x ∷ [])

-- The fsubrs.
unfoldable pub fsubr_2 : Machine → ℕ → Ptr → Ptr → Cmd Ptr
fsubr_2 m f x y =
    if f == 40
    then leval_setq m x y
    else if f == 41
    then leval_define m x y
    else if f == 42
    then leval_lambda m x y
    else if f == 43
    then leval_catch m x y
    else if f == 44
    then leval_quote m x y
    else if f == 45
    then leval_tenv m x y
    else if f == 46
    then leval_while m x y
    else if f == 47
    then leval_prog1 m x y
    else m.call f (x ∷ y ∷ [])

-- The functions of two arguments.
unfoldable pub call_2 : Machine → ℕ → Ptr → Ptr → Cmd Ptr
call_2 m f x y =
    if f == 20
    then cons_cell m x y
    else if f == 21
    then eq m x y
    else if f == 22
    then setcar m x y
    else if f == 23
    then setcdr m x y
    else if f == 24
    then memq m x y
    else if f == 25
    then assq m x y
    else if f == 26
    then lapply m x y
    else if f == 27
    then mapcar1 m x y
    else if f == 28
    then lthrow m x y
    else if f == 29
    then nconc m x y
    else fsubr_2 m f x y

unfoldable pub call_table : Machine → ℕ → List Ptr → Cmd Ptr
call_table m f (x ∷ []) = call_1 m f x
call_table m f (x ∷ y ∷ []) = call_2 m f x y
call_table m f args = m.call f args

unfoldable pub call_m_table : Machine → ℕ → Ptr → Ptr → Cmd Step
call_m_table m f form env =
    if f == 60
    then leval_if m form env
    else if f == 61
    then leval_progn m form env
    else if f == 62
    then leval_or m form env
    else if f == 63
    then leval_and m form env
    else if f == 64
    then leval_let m form env
    else if f == 65
    then leval_cond m form env
    else m.call_m f form env

-- `leval`, to a depth of the C recursion.
unfoldable pub leval : ℕ → Machine → Ptr → Ptr → Cmd Ptr
leval zero m x env = exhausted
leval (suc n) m x env =
    let inner = record m { eval = leval n m } in
    leval_loop (record inner { call = call_table inner; call_m = call_m_table inner }) m.fuel x env
