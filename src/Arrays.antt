-- ===== src/Arrays.antt =====
-- `aref1` and `aset1` of winsiod/sliba.c. A plain `char` has a sign, as on the x86 compilers that
-- the build files are for; a conversion to `char` keeps the lowest eight bits.
pub mod Access
pub mod Make
use siod.Prelude.{
  ℕ, suc, ◌+◌, ◌-◌, ◌%◌, Bool, true, false, List, ltb, if◌then◌else◌, length, get_or, set,
}
use siod.Prelude.Int.{ℤ, pos, negsuc}
use siod.Store.{
  Ptr, Bits, Obj, flonum, string, byte_array, double_array, long_array, lisp_array, State, obj,
  set_cell, ok, Cmd, ◌>>=◌, ◌>>◌, store, pure,
}
use siod.Machine.{Machine}
use siod.Alloc.Error.{fail}
use siod.Number.{flocons}

-- A byte as a plain `char`, and a number as a byte.
abbrev pub signed_char : ℕ → ℤ
signed_char c = if ltb c 128 then pos c else negsuc (255 - c)

abbrev pub to_char : ℤ → ℕ
to_char (pos n) = n % 256
to_char (negsuc n) = 255 - n % 256

module _ (m : Machine) where
  -- The index, checked for its type and its sign.
  unfoldable pub array_index : Ptr → Cmd ℕ → Cmd ℕ → Cmd ℕ
  array_index i not_number negative s = elim (obj s i) [
    | flonum d ↦ elim (m.double.to_long d) [ pos k ↦ ok k s | negsuc k ↦ negative s ]
    | _ ↦ not_number s
  ]

  -- An entry of an array, if it is there.
  unfoldable pub entry : {A : Type 0} → List A → ℕ → A → Ptr → (A → Cmd Ptr) → Cmd Ptr
  entry xs k d i use_it =
      if ltb k (length xs) then use_it (get_or xs k d) else fail m "index too large" i

  -- The `switch` of `aref1`.
  unfoldable pub aref_at : Ptr → Ptr → ℕ → Cmd Ptr
  aref_at a i k s = elim (obj s a) [
    | string b ↦ entry b k 0 i (λ c. flocons m (m.double.of_long (pos c))) s
    | byte_array b ↦ entry b k 0 i (λ c. flocons m (m.double.of_long (signed_char c))) s
    | double_array xs ↦ entry xs k 0 i (flocons m) s
    | long_array xs ↦ entry xs k (pos 0) i (λ n. flocons m (m.double.of_long n)) s
    | lisp_array xs ↦ entry xs k 0 i pure s
    | _ ↦ fail m "invalid argument to aref" a s
  ]

  unfoldable pub aref1 : Ptr → Ptr → Cmd Ptr
  aref1 a i = do
    k ← array_index i (fail m "bad index to aref" i) (fail m "negative index to aref" i)
    aref_at a i k

  -- The number that is stored, or the error of `err2_aset1`.
  unfoldable pub stored_number : Ptr → Cmd Bits
  stored_number v s = elim (obj s v) [
    | flonum d ↦ ok d s
    | _ ↦ fail m "bad value to store in array" v s
  ]

  -- The bound, with the error of `err1_aset1`, and the store.
  unfoldable pub store_at :
      {A : Type 0} → List A → ℕ → A → Ptr → Ptr → Ptr → (List A → Obj) → Cmd Ptr
  store_at xs k x a i v wrap =
      if ltb k (length xs)
      then store a (wrap (set xs k x)) >> pure v
      else fail m "index to aset too large" i

  -- The `switch` of `aset1`.
  unfoldable pub aset_at : Ptr → Ptr → Ptr → ℕ → Cmd Ptr
  aset_at a i v k s = elim (obj s a) [
    | string b ↦
        (do d ← stored_number v; store_at b k (to_char (m.double.to_long d)) a i v string) s
    | byte_array b ↦
        (do d ← stored_number v; store_at b k (to_char (m.double.to_long d)) a i v byte_array) s
    | double_array xs ↦ (do d ← stored_number v; store_at xs k d a i v double_array) s
    | long_array xs ↦
        (do d ← stored_number v; store_at xs k (m.double.to_long d) a i v long_array) s
    | lisp_array xs ↦ store_at xs k v a i v lisp_array s
    | _ ↦ fail m "invalid argument to aset" a s
  ]

  unfoldable pub aset1 : Ptr → Ptr → Ptr → Cmd Ptr
  aset1 a i v = do
    k ← array_index i (fail m "bad index to aset" i) (fail m "negative index to aset" i)
    aset_at a i v k
