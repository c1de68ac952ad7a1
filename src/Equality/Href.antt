-- ===== src/Equality/Href.antt =====
-- Hash tables and association lists: `href_index`, `href`, `hset`, `assoc` and `assv` of
-- winsiod/sliba.c.
use siod.Prelude.{String, ℕ, zero, suc, List, ◌==◌, ltb, if◌then◌else◌, length, get_or}
use siod.Store.{Ptr, lisp_array, obj, ok, Cmd, pure, ◌>>=◌, ◌>>◌}
use siod.Machine.{Machine}
use siod.Alloc.Error.{fail, cons_cell}
use siod.Lists.{exhausted, cdr, setcdr, on_pair, not_found}
use siod.Number.{eql}
use siod.Arrays.Make.{set_element}
use siod.Equality.{equal}
use siod.Equality.Sxhash.{c_sxhash}

module _ (m : Machine) where
  -- The array that a hash table is.
  unfoldable pub table_of : Ptr → Cmd (List Ptr)
  table_of table s = elim (obj s table) [
    | lisp_array v ↦ ok v s
    | _ ↦ fail m "not a hash table" table s
  ]

  unfoldable pub href_index : Ptr → Ptr → Cmd ℕ
  href_index table key = do
    v ← table_of table
    index ← c_sxhash m m.fuel (length v) key
    if ltb index (length v) then pure index else fail m "sxhash inconsistency" table

  -- The end of a search that takes any value of `equal` or `eql` but `NIL`. The search of `assoc`
  -- tests the value of `equal` as a C truth value, which is the same.
  unfoldable pub assoc_loop : (Ptr → Ptr → Cmd Ptr) → String → ℕ → Ptr → Ptr → Ptr → Cmd Ptr
  assoc_loop test message zero x alist l = exhausted
  assoc_loop test message (suc f) x alist l =
      let next = λ (d : Ptr). assoc_loop test message f x alist d in
      on_pair m l
        (λ tmp d.
          on_pair m tmp (λ k v. do r ← test k x; if r == 0 then next d else pure tmp) (next d))
        (not_found m message l alist)

  unfoldable pub assoc : Ptr → Ptr → Cmd Ptr
  assoc x alist = assoc_loop (equal m m.fuel) "improper list to assoc" m.fuel x alist alist

  unfoldable pub assv : Ptr → Ptr → Cmd Ptr
  assv x alist = assoc_loop (eql m) "improper list to assv" m.fuel x alist alist

  unfoldable pub href : Ptr → Ptr → Cmd Ptr
  href table key = do
    index ← href_index table key
    v ← table_of table
    cell ← assoc key (get_or v index 0)
    cdr m cell

  -- The entry that is made for a key that the bucket does not have.
  unfoldable pub new_entry : Ptr → ℕ → Ptr → Ptr → Ptr → Cmd Ptr
  new_entry table index l key value = do
    cell ← cons_cell m key value
    bucket ← cons_cell m cell l
    set_element table index bucket
    pure value

  unfoldable pub hset : Ptr → Ptr → Ptr → Cmd Ptr
  hset table key value = do
    index ← href_index table key
    v ← table_of table
    let l = get_or v index 0
    cell ← assoc key l
    if cell == 0 then new_entry table index l key value else setcdr m cell value
