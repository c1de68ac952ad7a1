-- ===== src/Number.antt =====
-- The numbers of winsiod/slib.c, over the `double` operations of the machine.
use siod.Prelude.{
  ℕ, zero, suc, ◌+◌, ◌*◌, ◌/◌, ◌^◌, Bool, true, false, ◌&&◌, ◌||◌, not, Option, none, some, List,
  [], ◌∷◌, ◌==◌, ltb, if◌then◌else◌, length, get_or, String,
}
use siod.Prelude.Int.{ℤ, pos, negsuc}
use siod.Store.{
  Ptr, Bits, Obj, flonum, State, obj, Run, ok, Cmd, pure, ◌>>=◌, ◌>>◌, view, get, is_flonum,
}
use siod.Machine.{Machine, Double}
use siod.Alloc.Error.{fail, alloc}
use siod.Lists.{truth, get_c_long}
pub mod Small

module _ (m : Machine) where
  -- `x - n == 0`, `x >= 0` and `n < inums_dim`, where `n` is `(long) x`.
  unfoldable pub small_index : Bits → State → Option ℕ
  small_index x s =
      let d = m.double in
      let n = d.to_long x in
      let zero_bits = d.of_long (pos 0) in
      let whole = d.eq (d.sub x (d.of_long n)) zero_bits && not (d.lt x zero_bits) in
      elim n [ pos k ↦ if whole && ltb k (length s.inums) then some k else none | negsuc k ↦ none ]

  unfoldable pub flocons : Bits → Cmd Ptr
  flocons x s = elim (small_index x s) [
    | some k ↦ ok (get_or s.inums k 0) s
    | none ↦ alloc m (flonum x) s
  ]

  unfoldable pub numberp : Ptr → Cmd Ptr
  numberp x s = truth (is_flonum (obj s x)) s

  -- `FLONM (x)`, or an error where `x` is no number.
  unfoldable pub number_or : String → Ptr → Cmd Bits
  number_or message x s = elim (obj s x) [ flonum v ↦ ok v s | _ ↦ fail m message x s ]

  unfoldable pub plus : Ptr → Ptr → Cmd Ptr
  plus x y =
      let sum : Cmd Ptr = (do
        a ← number_or "wta(1st) to plus" x
        b ← number_or "wta(2nd) to plus" y
        flocons (m.double.add a b)) in
      if y == 0 then (if x == 0 then flocons (m.double.of_long (pos 0)) else pure x) else sum

  unfoldable pub ltimes : Ptr → Ptr → Cmd Ptr
  ltimes x y =
      let product : Cmd Ptr = (do
        a ← number_or "wta(1st) to times" x
        b ← number_or "wta(2nd) to times" y
        flocons (m.double.mul a b)) in
      if y == 0 then (if x == 0 then flocons (m.double.of_long (pos 1)) else pure x) else product

  unfoldable pub difference : Ptr → Ptr → Cmd Ptr
  difference x y = do
    a ← number_or "wta(1st) to difference" x
    if y == 0
        then flocons (m.double.neg a)
        else (do b ← number_or "wta(2nd) to difference" y; flocons (m.double.sub a b))

  unfoldable pub quotient : Ptr → Ptr → Cmd Ptr
  quotient x y = do
    a ← number_or "wta(1st) to quotient" x
    if y == 0
        then flocons (m.double.div (m.double.of_long (pos 1)) a)
        else (do b ← number_or "wta(2nd) to quotient" y; flocons (m.double.div a b))

  unfoldable pub lllabs : Ptr → Cmd Ptr
  lllabs x = do
    v ← number_or "wta to abs" x
    if m.double.lt v (m.double.of_long (pos 0)) then flocons (m.double.neg v) else pure x

  unfoldable pub lsqrt : Ptr → Cmd Ptr
  lsqrt x = do v ← number_or "wta to sqrt" x; flocons (m.double.sqrt v)

  -- The two numbers of a comparison.
  unfoldable pub compare_with : String → String → (Bits → Bits → Bool) → Ptr → Ptr → Cmd Ptr
  compare_with first second test x y = do
    a ← number_or first x
    b ← number_or second y
    truth (test a b)

  unfoldable pub greaterp : Ptr → Ptr → Cmd Ptr
  greaterp = compare_with "wta(1st) to greaterp" "wta(2nd) to greaterp" (λ a b. m.double.lt b a)

  unfoldable pub lessp : Ptr → Ptr → Cmd Ptr
  lessp = compare_with "wta(1st) to lessp" "wta(2nd) to lessp" m.double.lt

  unfoldable pub greater_ep : Ptr → Ptr → Cmd Ptr
  greater_ep =
      compare_with "wta(1st) to greaterp" "wta(2nd) to greaterp"
        (λ a b. m.double.lt b a || m.double.eq a b)

  unfoldable pub less_ep : Ptr → Ptr → Cmd Ptr
  less_ep =
      compare_with "wta(1st) to lessp" "wta(2nd) to lessp"
        (λ a b. m.double.lt a b || m.double.eq a b)

  unfoldable pub lmax : Ptr → Ptr → Cmd Ptr
  lmax x y =
      let greater : Cmd Ptr = (do
        a ← number_or "wta(1st) to max" x
        b ← number_or "wta(2nd) to max" y
        pure (if m.double.lt b a then x else y)) in
      if y == 0 then pure x else greater

  unfoldable pub lmin : Ptr → Ptr → Cmd Ptr
  lmin x y =
      let less : Cmd Ptr = (do
        a ← number_or "wta(1st) to min" x
        b ← number_or "wta(2nd) to min" y
        pure (if m.double.lt a b then x else y)) in
      if y == 0 then pure x else less

  abbrev pub same_number : Obj → Obj → Bool
  same_number (flonum a) (flonum b) = m.double.eq a b
  same_number _ _ = false

  unfoldable pub eql : Ptr → Ptr → Cmd Ptr
  eql x y s = truth (x == y || same_number (obj s x) (obj s y)) s
