-- ===== src/Equality.antt =====
-- `equal` and `array_equal` of winsiod/sliba.c.
pub mod Alike
pub mod Data
pub mod Hash
pub mod Table
pub mod Again
pub mod Sxhash
pub mod Href
use siod.Prelude.{
  map, String, ℕ, zero, suc, ◌+◌, ◌-◌, ◌*◌, ◌%◌, bit_xor, Bool, true, false, ◌&&◌, not, Option,
  none, some, List, [], ◌∷◌, ◌==◌, ltb, if◌then◌else◌, length, get_or, set,
}
use siod.Prelude.Int.{ℤ, pos, negsuc}
use siod.Store.{
  Ptr, Bytes, Bits, SubrKind, Obj, nil, free_cell, cons, flonum, symbol, subr, closure, string,
  byte_array, double_array, long_array, lisp_array, c_file, user, State, obj, ok, fault,
  out_of_fuel, Cmd, pure, ◌>>=◌, ◌>>◌, view, store,
}
use siod.Machine.{Machine}
use siod.Alloc.Error.{fail, cons_cell}
use siod.Lists.{truth, exhausted, car, cdr, setcdr, on_pair, not_found}
use siod.Number.{flocons, eql}
use siod.Symbols.{same_bytes}
use siod.Arrays.Make.{set_element}

abbrev pub subr_code : SubrKind → ℕ
subr_code SubrKind.subr_0 = 4
subr_code SubrKind.subr_1 = 5
subr_code SubrKind.subr_2 = 6
subr_code SubrKind.subr_3 = 7
subr_code SubrKind.lsubr = 8
subr_code SubrKind.fsubr = 9
subr_code SubrKind.msubr = 10
subr_code SubrKind.subr_4 = 19
subr_code SubrKind.subr_5 = 20
subr_code SubrKind.subr_2n = 21

-- `TYPE`
abbrev pub type_code : Obj → ℕ
type_code nil = 0
type_code (cons a d) = 1
type_code (flonum x) = 2
type_code (symbol name v) = 3
type_code (subr kind name code) = subr_code kind
type_code (closure code env) = 11
type_code (free_cell q) = 12
type_code (string b) = 13
type_code (double_array v) = 14
type_code (long_array v) = 15
type_code (lisp_array v) = 16
type_code (c_file f name) = 17
type_code (byte_array b) = 18
type_code (user k datum) = k

abbrev pub same_longs : List ℤ → List ℤ → Bool
same_longs [] [] = true
same_longs (pos a ∷ xs) (pos b ∷ ys) = a == b && same_longs xs ys
same_longs (negsuc a ∷ xs) (negsuc b ∷ ys) = a == b && same_longs xs ys
same_longs _ _ = false

module _ (m : Machine) where
  abbrev pub same_doubles : List Bits → List Bits → Bool
  same_doubles [] [] = true
  same_doubles (a ∷ xs) (b ∷ ys) = m.double.eq a b && same_doubles xs ys
  same_doubles _ _ = false

  -- The loop of `array_equal` over the elements, with the `equal` that it calls.
  unfoldable pub equal_elements : (Ptr → Ptr → Cmd Ptr) → List Ptr → List Ptr → Cmd Ptr
  equal_elements equal [] ys s = truth true s
  equal_elements equal (x ∷ xs) [] s = fault
  equal_elements equal (x ∷ xs) (y ∷ ys) s =
      (do r ← equal x y; if r == 0 then pure 0 else equal_elements equal xs ys) s

  -- `array_equal` on what the two cells hold, of one type.
  unfoldable pub array_equal : (Ptr → Ptr → Cmd Ptr) → Obj → Obj → Cmd Ptr
  array_equal equal (string a) (string b) = truth (same_bytes a b)
  array_equal equal (byte_array a) (byte_array b) = truth (same_bytes a b)
  array_equal equal (long_array a) (long_array b) = truth (same_longs a b)
  array_equal equal (double_array a) (double_array b) = truth (same_doubles a b)
  array_equal equal (lisp_array a) (lisp_array b) =
      if length a == length b then equal_elements equal a b else pure 0
  array_equal equal _ _ = λ s. fault

  unfoldable pub equal_numbers : Bits → Obj → Cmd Ptr
  equal_numbers x o = elim o [ flonum y ↦ truth (m.double.eq x y) | _ ↦ (λ _. fault) ]

  -- The `switch` of `equal`, at two cells of one type, with the `equal` that it calls.
  unfoldable pub equal_at : (Ptr → Ptr → Cmd Ptr) → Ptr → Ptr → Cmd Ptr
  equal_at equal a b s = elim (obj s a) [
    | cons _ _ ↦
        (do
          x ← car m a
          y ← car m b
          r ← equal x y
          if r == 0 then pure 0 else (do x' ← cdr m a; y' ← cdr m b; equal x' y'))
          s
    | flonum x ↦ equal_numbers x (obj s b) s
    | string u ↦ array_equal equal (string u) (obj s b) s
    | byte_array u ↦ array_equal equal (byte_array u) (obj s b) s
    | double_array u ↦ array_equal equal (double_array u) (obj s b) s
    | long_array u ↦ array_equal equal (long_array u) (obj s b) s
    | lisp_array u ↦ array_equal equal (lisp_array u) (obj s b) s
    | user k datum ↦ elim (m.equal_hook k) [ none ↦ ok 0 s | some hook ↦ hook a b s ]
    | _ ↦ ok 0 s
  ]

  unfoldable pub equal : ℕ → Ptr → Ptr → Cmd Ptr
  equal zero a b s = out_of_fuel
  equal (suc f) a b s =
      if a == b
      then truth true s
      else if type_code (obj s a) == type_code (obj s b)
      then equal_at (equal f) a b s
      else ok 0 s
