-- ===== src/Equality/Sxhash.antt =====
-- `c_sxhash` and `array_sxhash` of winsiod/sliba.c. The modulus of a hash is the length of an array;
-- `HASH_COMBINE` does not overflow.
use siod.Prelude.{
  map, ℕ, zero, suc, ◌+◌, ◌-◌, ◌*◌, ◌%◌, bit_xor, Bool, true, false, ◌&&◌, not, none, some, List,
  [], ◌∷◌, ◌==◌, if◌then◌else◌,
}
use siod.Prelude.Int.{ℤ, pos, negsuc}
use siod.Store.{
  Ptr, Bytes, SubrKind, Obj, nil, free_cell, cons, flonum, symbol, subr, closure, string,
  byte_array, double_array, long_array, lisp_array, c_file, user, obj, ok, fault, out_of_fuel, Cmd,
  pure, ◌>>=◌,
}
use siod.Machine.{Machine}
use siod.Alloc.Error.{fail}
use siod.Lists.{cdr}

-- `HASH_COMBINE`
unfoldable pub hash_combine : ℕ → ℕ → ℕ → ℕ
hash_combine h1 h2 n = bit_xor (h1 * 17 + 1) h2 % n

-- The loop of `HASH_COMBINE` over the bytes of a name or an array.
unfoldable pub hash_bytes : ℕ → ℕ → Bytes → ℕ
hash_bytes n h [] = h
hash_bytes n h (c ∷ cs) = hash_bytes n (hash_combine h c n) cs

-- `(unsigned long) n`
abbrev pub ulong_of : ℕ → ℤ → ℕ
ulong_of max (pos k) = k
ulong_of max (negsuc k) = max - k

module _ (m : Machine) where
  -- The loop of `array_sxhash` over the elements, with the `c_sxhash` that it calls.
  unfoldable pub hash_elements : (Ptr → Cmd ℕ) → ℕ → ℕ → List Ptr → Cmd ℕ
  hash_elements hash n h [] = pure h
  hash_elements hash n h (x ∷ xs) = do k ← hash x; hash_elements hash n (hash_combine h k n) xs

  -- The loops over numbers, already taken modulo `n`.
  unfoldable pub hash_numbers : ℕ → ℕ → List ℕ → ℕ
  hash_numbers n h [] = h
  hash_numbers n h (x ∷ xs) = hash_numbers n (hash_combine h (x % n) n) xs

  -- A hash that was computed with a division by `n` if `used` is set.
  unfoldable pub divided : Bool → ℕ → ℕ → Cmd ℕ
  divided used n h = if used && (n == 0) then (λ _. fault) else pure h

  abbrev pub is_empty : {A : Type 0} → List A → Bool
  is_empty [] = true
  is_empty _ = false

  -- `array_sxhash`, with the `c_sxhash` that it calls.
  unfoldable pub array_sxhash : (Ptr → Cmd ℕ) → ℕ → Obj → Cmd ℕ
  array_sxhash hash n (string b) = divided (not (is_empty b)) n (hash_bytes n 0 b)
  array_sxhash hash n (byte_array b) = divided (not (is_empty b)) n (hash_bytes n 0 b)
  array_sxhash hash n (long_array v) =
      divided (not (is_empty v)) n (hash_numbers n 0 (map (ulong_of m.ulong_max) v))
  array_sxhash hash n (double_array v) =
      divided (not (is_empty v)) n (hash_numbers n 0 (map m.double.to_ulong v))
  array_sxhash hash n (lisp_array v) = do
    h ← hash_elements hash n 0 v
    divided (not (is_empty v)) n h
  array_sxhash hash n _ = do x ← fail m "BUG. Reached impossible case" 0; pure x

  unfoldable mutual
    pub c_sxhash : ℕ → ℕ → Ptr → Cmd ℕ
    c_sxhash zero n p s = out_of_fuel
    c_sxhash (suc f) n p s = elim (obj s p) [
      | nil ↦ ok 0 s
      | cons a d ↦ (do h ← c_sxhash f n a; d' ← cdr m p; hash_tail f n h d') s
      | symbol name v ↦ divided (not (is_empty name)) n (hash_bytes n 0 name) s
      | subr kind name code ↦ elim kind [
        | SubrKind.subr_2n ↦ ok 0 s
        | _ ↦ divided (not (is_empty name)) n (hash_bytes n 0 name) s
      ]
      | flonum x ↦ divided true n (m.double.to_ulong x % n) s
      | closure code env ↦ ok 0 s
      | free_cell q ↦ ok 0 s
      | c_file g name ↦ ok 0 s
      | user k datum ↦ elim (m.sxhash_hook k) [ none ↦ ok 0 s | some hook ↦ hook p n s ]
      | other ↦ array_sxhash (c_sxhash f n) n other s
    ]

    -- The loop over the tail of a list, and its end.
    pub hash_tail : ℕ → ℕ → ℕ → Ptr → Cmd ℕ
    hash_tail zero n h tmp s = out_of_fuel
    hash_tail (suc f) n h tmp s = elim (obj s tmp) [
      | cons a d ↦
          (do
            k ← c_sxhash f n a
            h' ← divided true n (hash_combine h k n)
            d' ← cdr m tmp
            hash_tail f n h' d')
            s
      | _ ↦ (do k ← c_sxhash f n tmp; divided true n (hash_combine h k n)) s
    ]
