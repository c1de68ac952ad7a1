-- ===== src/Printer.antt =====
-- The printer: `lprin1g` and `subr_kind_str` of winsiod/slib.c, `file_prin1` there; `array_prin1`,
-- `pts_puts` and `print_to_string` of winsiod/sliba.c. `puts_fcn` of `struct gen_printio` is an
-- argument.
pub mod Datum
pub mod Refinement
pub mod Into
use siod.Prelude.{
  ℕ, zero, suc, ◌+◌, ◌-◌, ◌/◌, ◌%◌, Bool, true, false, ◌&&◌, ◌||◌, not, Option, none, some, List,
  [], ◌∷◌, ◌++◌, ◌==◌, ltb, leb, if◌then◌else◌, String, codes, length, take, drop, set,
}
use siod.Prelude.Int.{ℤ, pos, negsuc}
use siod.Store.{
  Ptr, Bytes, Bits, SubrKind, Obj, nil, free_cell, cons, flonum, symbol, subr, closure, string,
  byte_array, double_array, long_array, lisp_array, c_file, user, State, obj, ok, fault,
  out_of_fuel, Cmd, pure, ◌>>=◌, ◌>>◌, set_cell, view, store,
}
use siod.Machine.{Machine}
use siod.Alloc.{c_str, digits_of}
use siod.Alloc.Error.{fail}
use siod.Lists.{car, cdr}

-- `subr_kind_str`
abbrev pub subr_kind_str : SubrKind → Bytes
subr_kind_str SubrKind.subr_0 = codes "subr_0"
subr_kind_str SubrKind.subr_1 = codes "subr_1"
subr_kind_str SubrKind.subr_2 = codes "subr_2"
subr_kind_str SubrKind.subr_2n = codes "subr_2n"
subr_kind_str SubrKind.subr_3 = codes "subr_3"
subr_kind_str SubrKind.subr_4 = codes "subr_4"
subr_kind_str SubrKind.subr_5 = codes "subr_5"
subr_kind_str SubrKind.lsubr = codes "lsubr"
subr_kind_str SubrKind.fsubr = codes "fsubr"
subr_kind_str SubrKind.msubr = codes "msubr"

-- `sprintf` of `%ld`
unfoldable pub long_text : ℤ → Bytes
long_text (pos n) = digits_of (suc n) n
long_text (negsuc n) = b'-' ∷ digits_of (suc (suc n)) (suc n)

-- `sprintf` of `%02x` for a byte
abbrev pub hex_char : ℕ → ℕ
hex_char n = if ltb n 10 then b'0' + n else 87 + n

abbrev pub hex_byte : ℕ → Bytes
hex_byte c = hex_char (c / 16 % 16) ∷ hex_char (c % 16) ∷ []

-- The text of a number.
unfoldable pub flonum_text : Machine → Bits → Bytes
flonum_text m x =
    let n = m.double.to_long x in
    if m.double.eq (m.double.of_long n) x then long_text n else m.double.to_text x

-- What is written for a character of a text that has one of `"\\\n\r\t`.
unfoldable pub escape : ℕ → Bytes
escape c =
    if c == 92 || c == 34
    then 92 ∷ c ∷ []
    else if c == 10
    then 92 ∷ b'n' ∷ []
    else if c == 13
    then 92 ∷ b'r' ∷ []
    else if c == 9
    then 92 ∷ b't' ∷ []
    else c ∷ []

-- `strcspn (data, "\"\\\n\r\t") == strlen (data)`
unfoldable pub is_plain : Bytes → Bool
is_plain [] = true
is_plain (c ∷ cs) = not (c == 92 || (c == 34 || (c == 10 || (c == 13 || c == 9)))) && is_plain cs

-- The `memcpy` of `pts_puts` and the NUL after it, in a buffer with one byte more.
unfoldable pub write_over : Bytes → Bytes → Bytes
write_over cs [] = []
write_over [] (x ∷ b) = 0 ∷ b
write_over (c ∷ cs) (x ∷ b) = c ∷ write_over cs b

-- The same at the first NUL.
unfoldable pub write_at_end : Bytes → Bytes → Bytes
write_at_end [] from = []
write_at_end (x ∷ b) from = if x == 0 then write_over from (x ∷ b) else x ∷ write_at_end b from

unfoldable pub pts_puts : Machine → Ptr → Bytes → Cmd (Unit {0})
pts_puts m into from = do
  o ← view into
  elim o [
    | string b ↦ (do
      store into (string (write_at_end b from))
      if leb (length from) (length b - length (c_str b))
          then pure tt
          else fail m "print to string overflow" 0)
    | _ ↦ (λ _. fault)
  ]

module _ (m : Machine) (puts : Bytes → Cmd (Unit {0})) where
  unfoldable pub put : String → Cmd (Unit {0})
  put s = puts (codes s)

  unfoldable pub put_escaped : Bytes → Cmd (Unit {0})
  put_escaped [] = pure tt
  put_escaped (c ∷ cs) = puts (escape c) >> put_escaped cs

  -- The loops of `array_prin1`, with what is put for each element, and for a blank between two.
  unfoldable pub put_row : {A : Type 0} → (A → Cmd (Unit {0})) → List A → Cmd (Unit {0})
  put_row each [] = pure tt
  put_row each (x ∷ []) = each x
  put_row each (x ∷ y ∷ xs) = each x >> (put " " >> put_row each (y ∷ xs))

  unfoldable pub put_hex : Bytes → Cmd (Unit {0})
  put_hex [] = pure tt
  put_hex (c ∷ cs) = puts (hex_byte c) >> put_hex cs

  -- The case of a byte array, of so many bytes.
  unfoldable pub put_byte_array : ℕ → Bytes → Cmd (Unit {0})
  put_byte_array dim b =
      puts (codes "#" ++ (long_text (pos dim) ++ (34 ∷ [])))
      >> (put_hex (take dim b) >> puts (34 ∷ []))

  -- `array_prin1`, with the `lprin1g` that it calls. The case of an array of `long` has no `break`.
  unfoldable pub array_prin1 : (Ptr → Cmd (Unit {0})) → Obj → Cmd (Unit {0})
  array_prin1 prin1 (string b) =
      puts (34 ∷ [])
      >> ((if is_plain (c_str b) then puts (c_str b) else put_escaped (c_str b)) >> puts (34 ∷ []))
  array_prin1 prin1 (double_array v) =
      put "#(" >> (put_row (λ x. puts (m.double.to_text x)) v >> put ")")
  array_prin1 prin1 (long_array v) =
      put "#("
      >> (put_row (λ n. puts (long_text n)) v
          >> (put ")" >> put_byte_array (length v) (m.bytes_of_longs v)))
  array_prin1 prin1 (byte_array b) = put_byte_array (length b) b
  array_prin1 prin1 (lisp_array v) = put "#(" >> (put_row prin1 v >> put ")")
  array_prin1 prin1 _ = pure tt

  unfoldable pub file_prin1 : Option ℕ → Option Bytes → Cmd (Unit {0})
  file_prin1 f name = do
    put "#<FILE "
    puts (codes " " ++ m.pointer_text (elim f [ none ↦ 0 | some n ↦ n ]))
    elim name [ none ↦ pure tt | some b ↦ put " " >> puts b ]
    put ">"

  -- The `default` case of `lprin1g` with no print function: the type code and the address.
  unfoldable pub put_unknown : ℕ → Ptr → Cmd (Unit {0})
  put_unknown typecode p = puts (
      codes "#<UNKNOWN "
      ++ (long_text (pos typecode) ++ (codes " " ++ (m.pointer_text p ++ codes ">"))))

  unfoldable mutual
    pub lprin1g : ℕ → Ptr → Cmd (Unit {0})
    lprin1g zero p s = out_of_fuel
    lprin1g (suc n) p s = elim (obj s p) [
      | nil ↦ put "()" s
      | cons _ _ ↦ (put "(" >> (do a ← car m p; lprin1g n a; d ← cdr m p; prin1_rest n d)) s
      | flonum x ↦ puts (flonum_text m x) s
      | symbol name v ↦ puts name s
      | subr kind name code ↦
          (puts (codes "#<" ++ (subr_kind_str kind ++ codes " ")) >> (puts name >> put ">")) s
      | closure code env ↦ (put "#<CLOSURE " >> (prin1_code n code >> put ">")) s
      | free_cell q ↦ put_unknown 12 p s
      | c_file f name ↦ file_prin1 f name s
      | user typecode datum ↦ elim (m.prin1_hook typecode) [
        | none ↦ put_unknown typecode p s
        | some hook ↦ hook p puts s
      ]
      | other ↦ array_prin1 (lprin1g n) other s
    ]

    -- The loop over the tail of a list, and its end.
    pub prin1_rest : ℕ → Ptr → Cmd (Unit {0})
    prin1_rest zero tmp s = out_of_fuel
    prin1_rest (suc n) tmp s = elim (obj s tmp) [
      | cons _ _ ↦ (put " " >> (do a ← car m tmp; lprin1g n a; d ← cdr m tmp; prin1_rest n d)) s
      | _ ↦ (if tmp == 0 then put ")" s else (put " . " >> (lprin1g n tmp >> put ")")) s)
    ]

    -- The code of a closure.
    pub prin1_code : ℕ → Ptr → Cmd (Unit {0})
    prin1_code zero code s = out_of_fuel
    prin1_code (suc n) code s = elim (obj s code) [
      | cons _ _ ↦ (do a ← car m code; lprin1g n a; put " "; d ← cdr m code; lprin1g n d) s
      | _ ↦ lprin1g n code s
    ]

unfoldable pub print_to_string : Machine → Ptr → Ptr → Ptr → Cmd Ptr
print_to_string m exp str nostart s = elim (obj s str) [
  | string b ↦
      let begin : Bytes = if nostart == 0 then set b 0 0 else b in
      (store str (string begin) >> (lprin1g m (pts_puts m str) m.fuel exp >> pure str)) s
  | _ ↦ fail m "not a string" str s
]
