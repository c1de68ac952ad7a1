-- ===== src/Arrays/Make.antt =====
-- `arcons` of winsiod/sliba.c where it clears what it allocates.
use siod.Prelude.{ℕ, ◌==◌, if◌then◌else◌, replicate, set}
use siod.Prelude.Int.{pos}
use siod.Store.{
  Ptr, cons, string, byte_array, double_array, long_array, lisp_array, Cmd, ◌>>=◌, fault, view,
  store,
}
use siod.Machine.{Machine}
use siod.Alloc.Error.{alloc, fail}

-- The type codes 13 to 18. Any other is an error. The case of a string goes on into that
-- of a byte array, whose `malloc` leaves no room for the NUL at the end.
unfoldable pub arcons : Machine → ℕ → ℕ → Cmd Ptr
arcons m typecode n =
    if typecode == 14
    then alloc m (double_array (replicate n (m.double.of_long (pos 0))))
    else if typecode == 15
    then alloc m (long_array (replicate n (pos 0)))
    else if typecode == 13
    then alloc m (string (replicate n 0))
    else if typecode == 18
    then alloc m (byte_array (replicate n 0))
    else if typecode == 16
    then alloc m (lisp_array (replicate n 0))
    else (do a ← alloc m (cons 0 0); fail m "BUG. Reached impossible case" 0)

-- `a->storage_as.lisp_array.data[j] = v`
unfoldable pub set_element : Ptr → ℕ → Ptr → Cmd (Unit {0})
set_element a j v = do
  o ← view a
  elim o [ lisp_array xs ↦ store a (lisp_array (set xs j v)) | _ ↦ (λ _. fault) ]
