-- ===== src/Arguments.antt =====
-- `mapcar2`, `mapcar`, `member`, `memv` and the functions on argument lists of winsiod/sliba.c.
use siod.Prelude.{
  ℕ, zero, suc, ◌-◌, Bool, true, false, ◌&&◌, ◌||◌, Option, none, some, [], ◌∷◌, ◌==◌,
  if◌then◌else◌, length, drop, String,
}
use siod.Prelude.Int.{pos, negsuc}
use siod.Store.{Ptr, Bytes, string, obj, ok, Cmd, pure, ◌>>=◌, ◌>>◌, raw_cdr, set_raw_cdr}
use siod.Machine.{Machine}
use siod.Alloc.{c_str}
use siod.Alloc.Error.{fail, cons_cell, strcons, get_c_string}
use siod.Lists.{exhausted, car, cdr, cadr, cddr, on_pair, not_found, get_c_long, nth_loop, nlength}
use siod.Number.{flocons, eql}
use siod.Eval.Apply.{lapply, funcall2, mapcar1}
use siod.Equality.{equal}
use siod.Strings.Chars.{starts_with}

module _ (m : Machine) where
  unfoldable pub mapcar2_loop : ℕ → Ptr → Ptr → Ptr → Ptr → Cmd (Unit {0})
  mapcar2_loop zero fcn ptr l1 l2 = exhausted
  mapcar2_loop (suc f) fcn ptr l1 l2 =
      on_pair m l1
        (λ a _.
          on_pair m l2
            (λ b _. do
              v ← funcall2 m fcn a b
              rest ← raw_cdr ptr
              next ← cons_cell m v rest
              set_raw_cdr ptr next
              d1 ← raw_cdr l1
              d2 ← raw_cdr l2
              mapcar2_loop f fcn next d1 d2)
            (pure tt))
        (pure tt)

  unfoldable pub mapcar2 : Ptr → Ptr → Ptr → Cmd Ptr
  mapcar2 fcn in1 in2 =
      let more : Cmd Ptr = (do
        b ← car m in2
        a ← car m in1
        v ← funcall2 m fcn a b
        res ← cons_cell m v 0
        l1 ← cdr m in1
        l2 ← cdr m in2
        mapcar2_loop m.fuel fcn res l1 l2
        pure res) in
      if in1 == 0 || in2 == 0 then pure 0 else more

  unfoldable pub mapcar : Ptr → Cmd Ptr
  mapcar l = do
    fcn ← car m l
    n ← nlength m l
    count ← flocons m (m.double.of_long (pos n))
    k ← get_c_long m count
    let two : Cmd Ptr = (do x ← cadr m l; mapcar1 m fcn x)
    let three : Cmd Ptr = (do d ← cddr m l; y ← car m d; x ← cadr m l; mapcar2 fcn x y)
    let other : Cmd Ptr = fail m "mapcar case not handled" l
    elim k [ pos j ↦ if j == 2 then two else if j == 3 then three else other | negsuc j ↦ other ]

  -- The loops of `member` and `memv`, with `equal` or `eql`.
  unfoldable pub member_loop : (Ptr → Ptr → Cmd Ptr) → String → ℕ → Ptr → Ptr → Ptr → Cmd Ptr
  member_loop test message zero x il l = exhausted
  member_loop test message (suc f) x il l =
      on_pair m l
        (λ tmp d. do r ← test x tmp; if r == 0 then member_loop test message f x il d else pure l)
        (not_found m message l il)

  unfoldable pub member : Ptr → Ptr → Cmd Ptr
  member x il = member_loop (equal m m.fuel) "improper list to member" m.fuel x il il

  unfoldable pub memv : Ptr → Ptr → Cmd Ptr
  memv x il = member_loop (eql m) "improper list to memv" m.fuel x il il

  unfoldable pub lref_default : Ptr → Ptr → Ptr → Cmd Ptr
  lref_default li x fcn = do
    n ← get_c_long m x
    l ← nth_loop m m.fuel (elim n [ pos k ↦ k | negsuc k ↦ 0 ]) li
    on_pair m l (λ a d. pure a) (if fcn == 0 then pure 0 else lapply m fcn 0)

  -- Whether an element of an argument list is an option: a text that starts with `-` or `:`. An empty
  -- text is one too, since `strchr` finds its NUL.
  unfoldable pub is_option : Ptr → Cmd Bool
  is_option elem s = elim (obj s elem) [
    | string b ↦ pure (elim b [ [] ↦ true | c ∷ cs ↦ c == b'-' || (c == b':' || c == 0) ]) s
    | _ ↦ pure false s
  ]

  unfoldable pub larg_loop : ℕ → Ptr → ℕ → Ptr → Cmd Ptr
  larg_loop zero l n dval = exhausted
  larg_loop (suc f) l n dval =
      let more : Cmd Ptr = (do
        elem ← car m l
        skip ← is_option elem
        d ← cdr m l
        if skip
            then larg_loop f d n dval
            else if n == 0
            then pure elem
            else larg_loop f d (n - 1) dval) in
      if l == 0 then pure dval else more

  -- Each element that is no option is counted; a negative index is never met.
  unfoldable pub larg_default : Ptr → Ptr → Ptr → Cmd Ptr
  larg_default li x dval = do
    n ← get_c_long m x
    elim n [ pos k ↦ larg_loop m.fuel li k dval | negsuc k ↦ larg_loop m.fuel li m.fuel dval ]

  -- The value of an element `:key=value`, if it is one.
  unfoldable pub key_value : Bytes → Bytes → Option Bytes
  key_value ckey [] = none
  key_value ckey (c ∷ cs) =
      if c == b':' && starts_with cs ckey
      then elim (drop (length ckey) cs) [ [] ↦ none | d ∷ v ↦ if d == b'=' then some v else none ]
      else none

  unfoldable pub key_in : Bytes → Ptr → Cmd (Option Bytes)
  key_in ckey elem s = elim (obj s elem) [
    | string b ↦ ok (key_value ckey (c_str b)) s
    | _ ↦ ok none s
  ]

  unfoldable pub lkey_loop : ℕ → Ptr → Bytes → Ptr → Cmd Ptr
  lkey_loop zero l ckey dval = exhausted
  lkey_loop (suc f) l ckey dval =
      let more : Cmd Ptr = (do
        elem ← car m l
        found ← key_in ckey elem
        elim found [ some v ↦ strcons m v | none ↦ (do d ← cdr m l; lkey_loop f d ckey dval) ]) in
      if l == 0 then pure dval else more

  unfoldable pub lkey_default : Ptr → Ptr → Ptr → Cmd Ptr
  lkey_default li key dval = do ckey ← get_c_string m key; lkey_loop m.fuel li ckey dval
