-- ===== src/Symbols.antt =====
-- The symbols of winsiod/slib.c: `symcons`, `gen_intern` with the hash of its buckets, `rintern`,
-- `intern`, `symbolp` and `err_ubv`. A name is a C string, of bytes that are not 0.
pub mod Intern
pub mod Once
pub mod Table
use siod.Prelude.{
  ℕ, zero, suc, ◌+◌, ◌*◌, ◌%◌, bit_xor, Bool, true, false, ◌&&◌, Option, none, some, List, [], ◌∷◌,
  ◌==◌, ltb, if◌then◌else◌, length, get_or, set,
}
use siod.Store.{
  Ptr, Bytes, Obj, cons, symbol, State, obj, Cmd, ok, fault, pure, ◌>>=◌, ◌>>◌, view, get,
  get_symbol, modify, is_symbol,
}
use siod.Machine.{Machine}
use siod.Alloc.Error.{fail, alloc, cons_cell, get_c_string}
use siod.Lists.{truth, exhausted}

-- `strcmp (a, b) == 0`
abbrev pub same_bytes : Bytes → Bytes → Bool
same_bytes [] [] = true
same_bytes (a ∷ as') (b ∷ bs) = a == b && same_bytes as' bs
same_bytes _ _ = false

-- The loop that mixes the bytes of a name.
abbrev pub hash_from : ℕ → ℕ → Bytes → ℕ
hash_from n h [] = h
hash_from n h (c ∷ cs) = hash_from n (bit_xor (h * 17) c % n) cs

-- The list that a name is looked up in: a bucket of the `obarray`, or `oblistvar`.
abbrev pub bucket_in : Bytes → List Ptr → Ptr → Ptr
bucket_in name obarray oblistvar =
    if ltb 1 (length obarray)
    then get_or obarray (hash_from (length obarray) 0 name) 0
    else oblistvar

abbrev pub bucket_of : Bytes → State → Ptr
bucket_of name s = bucket_in name s.obarray s.oblistvar

-- The loop over the symbols of a bucket.
unfoldable pub find_symbol : ℕ → Bytes → Ptr → Cmd (Option Ptr)
find_symbol zero name l s = exhausted s
find_symbol (suc f) name l s = elim (obj s l) [
  | cons a d ↦ elim (obj s a) [
    | symbol pname v ↦ if same_bytes name pname then ok (some a) s else find_symbol f name d s
    | _ ↦ fault
  ]
  | _ ↦ (if l == 0 then ok none s else fault)
]

-- `obarray[hash] = b`
abbrev pub enter_bucket : Bytes → Ptr → State → State
enter_bucket name b s = record s { obarray = set s.obarray (hash_from (length s.obarray) 0 name) b }

module _ (m : Machine) where
  unfoldable pub symcons : Bytes → Ptr → Cmd Ptr
  symcons pname vcell = alloc m (symbol pname vcell)

  unfoldable pub make_symbol : Bytes → Ptr → Cmd Ptr
  make_symbol name sl = do
    unbound ← get_symbol (λ y. y.unbound_marker)
    sym ← symcons name unbound
    hashed ← get (λ s. ltb 1 (length s.obarray))
    (if hashed then (do b ← cons_cell m sym sl; modify (enter_bucket name b)) else pure tt)
    old ← get (λ s. s.oblistvar)
    all ← cons_cell m sym old
    modify (λ s. record s { oblistvar = all })
    pure sym

  unfoldable pub gen_intern : Bytes → Cmd Ptr
  gen_intern name = do
    sl ← get (bucket_of name)
    r ← find_symbol m.fuel name sl
    elim r [ some sym ↦ pure sym | none ↦ make_symbol name sl ]

  unfoldable pub intern : Ptr → Cmd Ptr
  intern x = do name ← get_c_string m x; gen_intern name

  unfoldable pub symbolp : Ptr → Cmd Ptr
  symbolp x s = truth (is_symbol (obj s x)) s

  unfoldable pub err_ubv : Ptr → Cmd Ptr
  err_ubv v = fail m "unbound variable" v
