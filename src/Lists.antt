-- ===== src/Lists.antt =====
-- Pairs and lists: the functions of winsiod/slib.c and winsiod/sliba.c that walk, build and change
-- lists. A loop or a recursion over a list has `fuel` rounds.
pub mod Shape
pub mod Build
pub mod Search
pub mod Cells
pub mod Change
pub mod Join
use siod.Prelude.{
  ℕ, zero, suc, ◌+◌, ◌-◌, Bool, true, false, Option, none, some, List, [], ◌∷◌, ◌==◌, ltb,
  if◌then◌else◌, length, String,
}
use siod.Prelude.Int.{ℤ, pos, negsuc, ltb_ℤ}
use siod.Store.{
  Ptr, Bytes, Obj, nil, cons, flonum, string, byte_array, double_array, long_array, lisp_array,
  State, obj, Run, ok, fault, out_of_fuel, Cmd, pure, and_then, ◌>>=◌, ◌>>◌, view, store, get,
  get_symbol, Symbols, is_cons, raw_car, raw_cdr, set_raw_cdr, set_raw_car,
}
use siod.Machine.{Machine, Double}
use siod.Alloc.{c_str}
use siod.Alloc.Error.{fail, cons_cell, alloc}

-- `sym_t` or `NIL`
unfoldable pub truth : Bool → Cmd Ptr
truth b s = ok (if b then s.symbols.sym_t else 0) s

unfoldable pub exhausted : {A : Type 0} → Cmd A
exhausted s = out_of_fuel

module _ (m : Machine) where
  unfoldable pub consp : Ptr → Cmd Ptr
  consp x s = truth (is_cons (obj s x)) s

  unfoldable pub eq : Ptr → Ptr → Cmd Ptr
  eq x y = truth (x == y)

  unfoldable pub nullp : Ptr → Cmd Ptr
  nullp x = truth (x == 0)

  unfoldable pub car : Ptr → Cmd Ptr
  car x s = elim (obj s x) [ nil ↦ ok 0 s | cons a d ↦ ok a s | _ ↦ fail m "wta to car" x s ]

  unfoldable pub cdr : Ptr → Cmd Ptr
  cdr x s = elim (obj s x) [ nil ↦ ok 0 s | cons a d ↦ ok d s | _ ↦ fail m "wta to cdr" x s ]

  unfoldable pub setcar : Ptr → Ptr → Cmd Ptr
  setcar cell value s = elim (obj s cell) [
    | cons a d ↦ and_then (store cell (cons value d) s) (λ _. pure value)
    | _ ↦ fail m "wta to setcar" cell s
  ]

  unfoldable pub setcdr : Ptr → Ptr → Cmd Ptr
  setcdr cell value s = elim (obj s cell) [
    | cons a d ↦ and_then (store cell (cons a value) s) (λ _. pure value)
    | _ ↦ fail m "wta to setcdr" cell s
  ]

  unfoldable pub caar : Ptr → Cmd Ptr
  caar x = do y ← car x; car y

  unfoldable pub cadr : Ptr → Cmd Ptr
  cadr x = do y ← cdr x; car y

  unfoldable pub cdar : Ptr → Cmd Ptr
  cdar x = do y ← car x; cdr y

  unfoldable pub cddr : Ptr → Cmd Ptr
  cddr x = do y ← cdr x; cdr y

  unfoldable pub caddr : Ptr → Cmd Ptr
  caddr x = do y ← cdr x; cadr y

  unfoldable pub cdddr : Ptr → Cmd Ptr
  cdddr x = do y ← cdr x; cddr y

  -- The head and the tail of a pair, or how a loop ends that stops at the first non-pair.
  unfoldable pub on_pair : {A : Type 0} → Ptr → (Ptr → Ptr → Cmd A) → Cmd A → Cmd A
  on_pair l more done s = elim (obj s l) [ cons a d ↦ more a d s | _ ↦ done s ]

  -- The end of a search: `NIL` closes the list, anything else is an error.
  unfoldable pub not_found : String → Ptr → Ptr → Cmd Ptr
  not_found message l whole = if l == 0 then pure 0 else fail m message whole

  unfoldable pub memq_loop : ℕ → Ptr → Ptr → Ptr → Cmd Ptr
  memq_loop zero x il l = exhausted
  memq_loop (suc f) x il l =
      on_pair l (λ a d. if x == a then pure l else memq_loop f x il d)
        (not_found "improper list to memq" l il)

  unfoldable pub memq : Ptr → Ptr → Cmd Ptr
  memq x il = memq_loop m.fuel x il il

  unfoldable pub assq_loop : ℕ → Ptr → Ptr → Ptr → Cmd Ptr
  assq_loop zero x alist l = exhausted
  assq_loop (suc f) x alist l =
      let next = λ (d : Ptr). assq_loop f x alist d in
      on_pair l (λ tmp d. on_pair tmp (λ k v. if k == x then pure tmp else next d) (next d))
        (not_found "improper list to assq" l alist)

  unfoldable pub assq : Ptr → Ptr → Cmd Ptr
  assq x alist = assq_loop m.fuel x alist alist

  unfoldable pub reverse_loop : ℕ → Ptr → Ptr → Cmd Ptr
  reverse_loop zero p n = exhausted
  reverse_loop (suc f) p n =
      let more : Cmd Ptr = (do a ← car p; n' ← cons_cell m a n; d ← cdr p; reverse_loop f d n') in
      if p == 0 then pure n else more

  unfoldable pub reverse : Ptr → Cmd Ptr
  reverse l = reverse_loop m.fuel l 0

  unfoldable pub nreverse_loop : ℕ → Ptr → Ptr → Cmd Ptr
  nreverse_loop zero oldp newp = exhausted
  nreverse_loop (suc f) oldp newp =
      on_pair oldp (λ a d. store oldp (cons a newp) >> nreverse_loop f d oldp) (pure newp)

  unfoldable pub nreverse : Ptr → Cmd Ptr
  nreverse x = nreverse_loop m.fuel x 0

  unfoldable pub copy_list_rec : ℕ → Ptr → Cmd Ptr
  copy_list_rec zero x = exhausted
  copy_list_rec (suc f) x =
      let more : Cmd Ptr = (do
        d ← cdr x
        rest ← copy_list_rec f d
        a ← car x
        cons_cell m a rest) in
      if x == 0 then pure 0 else more

  unfoldable pub copy_list : Ptr → Cmd Ptr
  copy_list x = copy_list_rec m.fuel x

  unfoldable pub delq_rec : ℕ → Ptr → Ptr → Cmd Ptr
  delq_rec zero elem l = exhausted
  delq_rec (suc f) elem l =
      let more : Cmd Ptr = (do
        a ← car l
        d ← cdr l
        rest ← delq_rec f elem d
        if elem == a then pure rest else setcdr l rest >> pure l) in
      if l == 0 then pure l else more

  unfoldable pub delq : Ptr → Ptr → Cmd Ptr
  delq elem l = delq_rec m.fuel elem l

  unfoldable pub last_loop : ℕ → Ptr → Ptr → Cmd Ptr
  last_loop zero v1 v2 = exhausted
  last_loop (suc f) v1 v2 = on_pair v2 (λ a d. last_loop f v2 d) (pure v1)

  unfoldable pub last : Ptr → Cmd Ptr
  last l = on_pair l (λ a d. last_loop m.fuel l d) (fail m "bad arg to last" l)

  unfoldable pub butlast_rec : ℕ → Ptr → Cmd Ptr
  butlast_rec zero l = exhausted
  butlast_rec (suc f) l =
      if l == 0
      then fail m "list is empty" l
      else on_pair l
          (λ a d. if d == 0 then pure 0 else (do rest ← butlast_rec f d; cons_cell m a rest))
          (fail m "not a list" l)

  unfoldable pub butlast : Ptr → Cmd Ptr
  butlast l = butlast_rec m.fuel l

  unfoldable pub nconc : Ptr → Ptr → Cmd Ptr
  nconc a b = if a == 0 then pure b else (do l ← last a; setcdr l b; pure a)

  unfoldable pub nlength_loop : ℕ → Ptr → Ptr → ℕ → Cmd ℕ
  nlength_loop zero whole l n = exhausted
  nlength_loop (suc f) whole l n =
      on_pair l (λ a d. nlength_loop f whole d (n + 1))
        (if l == 0 then pure n else fail m "improper list to length" whole)

  unfoldable pub nlength : Ptr → Cmd ℕ
  nlength x s = elim (obj s x) [
    | string b ↦ ok (length (c_str b)) s
    | byte_array b ↦ ok (length b) s
    | double_array v ↦ ok (length v) s
    | long_array v ↦ ok (length v) s
    | lisp_array v ↦ ok (length v) s
    | nil ↦ ok 0 s
    | cons a d ↦ nlength_loop m.fuel x x 0 s
    | _ ↦ fail m "wta to length" x s
  ]

  -- `n` cells of `v`: the loops of `make_list`, `append2` and `listn`.
  unfoldable pub make_cells : ℕ → Ptr → Ptr → Cmd Ptr
  make_cells zero v l = pure l
  make_cells (suc n) v l = do l' ← cons_cell m v l; make_cells n v l'

  unfoldable pub get_c_long : Ptr → Cmd ℤ
  get_c_long x s = elim (obj s x) [
    | flonum d ↦ ok (m.double.to_long d) s
    | _ ↦ fail m "not a number" x s
  ]

  unfoldable pub make_list : Ptr → Ptr → Cmd Ptr
  make_list x v = do n ← get_c_long x; elim n [ pos k ↦ make_cells k v 0 | negsuc k ↦ pure 0 ]

  -- The copy loop of `append2`; it returns the place that it has reached.
  unfoldable pub fill_from : ℕ → Ptr → Ptr → Cmd Ptr
  fill_from zero p1 p2 = exhausted
  fill_from (suc f) p1 p2 =
      let more : Cmd Ptr = (do
        a ← car p2
        setcar p1 a
        d1 ← cdr p1
        d2 ← cdr p2
        fill_from f d1 d2) in
      if p2 == 0 then pure p1 else more

  unfoldable pub append2 : Ptr → Ptr → Cmd Ptr
  append2 l1 l2 = do
    n1 ← nlength l1
    n2 ← nlength l2
    result ← make_cells (n1 + n2) 0 0
    p1 ← fill_from m.fuel result l1
    fill_from m.fuel p1 l2
    pure result

  unfoldable pub append_rec : ℕ → Ptr → Cmd Ptr
  append_rec zero l = exhausted
  append_rec (suc f) l =
      let many : Cmd Ptr = (do d ← cdr l; rest ← append_rec f d; a ← car l; append2 a rest) in
      let some_more : Cmd Ptr = (do
        dd ← cddr l
        if dd == 0 then (do a ← car l; b ← cadr l; append2 a b) else many) in
      if l == 0 then pure 0 else (do d ← cdr l; if d == 0 then car l else some_more)

  unfoldable pub append : Ptr → Cmd Ptr
  append l = append_rec m.fuel l

  unfoldable pub nth_loop : ℕ → ℕ → Ptr → Cmd Ptr
  nth_loop zero n l = exhausted
  nth_loop (suc f) n l = if n == 0 then pure l else on_pair l (λ a d. nth_loop f (n - 1) d) (pure l)

  -- The loop stops at once where the index is negative.
  unfoldable pub nth : Ptr → Ptr → Cmd Ptr
  nth x li = do
    n ← get_c_long x
    l ← nth_loop m.fuel (elim n [ pos k ↦ k | negsuc k ↦ 0 ]) li
    on_pair l (λ a d. pure a) (fail m "bad arg to nth" x)

  unfoldable pub getprop_loop : ℕ → Ptr → Ptr → Cmd Ptr
  getprop_loop zero key l = exhausted
  getprop_loop (suc f) key l =
      let more : Cmd Ptr = (do
        a ← car l
        if a == key then cadr l else (do d ← cddr l; getprop_loop f key d)) in
      if l == 0 then pure 0 else more

  unfoldable pub getprop : Ptr → Ptr → Cmd Ptr
  getprop plist key = do l ← cdr plist; getprop_loop m.fuel key l
