-- ===== src/Equality/Table.antt =====
-- On `assoc`, `hset` and `href` of winsiod/sliba.c.
use siod.Prelude.{
  ℕ, zero, suc, ◌≤◌, ◌<◌, ◌≡◌, refl, sym, ◌∙◌, ap, Bool, true, false, List, [], ◌∷◌, ◌==◌,
  if◌then◌else◌, arith, length, get_or, set, Bool-cases, inl, inr,
}
use siod.Store.{
  Ptr, Obj, cons, flonum, symbol, string, lisp_array, State, obj, Run, ok, set_cell, Cmd,
}
use siod.Store.View.{obj_set_self, obj_set_other, lisp_array-ne_nil}
use siod.Machine.{Machine}
use siod.Lists.{not_found}
use siod.Alloc.Error.{cons_cell}
use siod.Lists.Shape.{cdr-cons, on_pair-cons, on_pair-nil, cons_cell-Fresh, keep_pair}
use siod.Alloc.Fresh.{Ready, Extends-trans}
use siod.Gc.Sweep.{is_free_cell}
use siod.Symbols.Intern.{get_or-set, length-set}
use siod.Arrays.Make.{set_element}
use siod.Printer.Datum.{Datum, empty, number, name, text, pair, Shows, size}
use siod.Printer.Refinement.{size_pos}
use siod.Reader.Leaf.{Any}
use siod.Reader.Readable.{Shows-Extends}
use siod.Equality.{equal}
use siod.Equality.Href.{assoc_loop, assoc, href_index, table_of, href, new_entry, hset}
use siod.Equality.Alike.{same}
use siod.Equality.Data.{Ordered, equal-same}
use siod.Equality.Hash.{hash_of, hash_of-lt, c_sxhash-hash_of, href_index_run}
use siod.Equality.Again.{same_refl}

-- An entry: its pair, the data of its key.
abbrev pub Entries : Type 0
Entries = List (Ptr × Datum)

-- An association list with these entries, whose keys are data that `equal` can compare.
abbrev pub IsAlist : Machine → State → Ptr → Entries → Type 0
IsAlist m s l [] = l ≡ 0
IsAlist m s l ((c, t) ∷ es) =
    (d : Ptr) × (k : Ptr) × (v : Ptr) × (obj s l ≡ cons c d)
    × (obj s c ≡ cons k v)
    × Shows Any s k t
    × Ordered m t
    × (size t ≤ m.fuel)
    × IsAlist m s d es

-- The first entry with the same key, or `NIL`.
abbrev pub entry_of : Machine → Datum → Entries → Ptr
entry_of m u [] = 0
entry_of m u ((c, t) ∷ es) = if same m t u then c else entry_of m u es

module _ (m : Machine) (s : State) (x : Ptr) (u : Datum) (known : (s.symbols.sym_t == 0) ≡ false)
    (shows : Shows Any s x u) where
  abbrev Loop : ℕ → Ptr → Ptr → Cmd Ptr
  Loop f alist l = assoc_loop m (equal m m.fuel) "improper list to assoc" f x alist l

  assoc_step :
      (f : ℕ) (alist l c d k v : Ptr) (t : Datum)
      → obj s l ≡ cons c d
      → obj s c ≡ cons k v
      → Shows Any s k t
      → Ordered m t
      → size t ≤ m.fuel
      → Loop (suc f) alist l s ≡ (if same m t u then ok c s else Loop f alist d s)
  unfolding assoc_loop
  assoc_step f alist l c d k v t e g h o le =
      on_pair-cons m s l e _ _
      ∙ on_pair-cons m s c g _ _
      ∙ rw (equal-same m m.fuel k x t u s known le o h shows)
          (elim (Bool-cases (same m t u)) [ inl a ↦ rw (a, known) | inr a ↦ rw a ])

  assoc_loop-entry :
      (f : ℕ) (alist l : Ptr) (es : Entries)
      → IsAlist m s l es
      → length es < f
      → Loop f alist l s ≡ ok (entry_of m u es) s
  unfolding assoc_loop not_found
  assoc_loop-entry zero alist l es h lt = absurd (omega arith)
  assoc_loop-entry (suc f) alist l [] h lt =
      on_pair-nil m s l _ _ h ∙ (let z : (l == 0) ≡ true = ground arith in rw z)
  assoc_loop-entry (suc f) alist l ((c, t) ∷ es) (d, k, v, e, g, i, o, le, h) lt =
      assoc_step f alist l c d k v t e g i o le ∙ (elim (Bool-cases (same m t u)) [
        | inl a ↦ rw a
        | inr a ↦ rw a (assoc_loop-entry f alist d es h (omega arith))
      ])

-- With more rounds than entries, where `t` is not `NIL` and the keys are data, `assoc` returns the
-- first entry whose key is the same data, `NIL` if there is none, and changes nothing.
pub assoc-entry :
    (m : Machine) (x l : Ptr) (u : Datum) (es : Entries) (s : State)
    → (s.symbols.sym_t == 0) ≡ false
    → Shows Any s x u
    → IsAlist m s l es
    → length es < m.fuel
    → assoc m x l s ≡ ok (entry_of m u es) s
unfolding assoc
assoc-entry m x l u es s known shows h lt = assoc_loop-entry m s x u known shows m.fuel l l es h lt

-- The first pair of a list is found where its key is the same data.
assoc-first :
    (m : Machine) (x l c d k v : Ptr) (t : Datum) (s : State)
    → (s.symbols.sym_t == 0) ≡ false
    → Shows Any s x t
    → obj s l ≡ cons c d
    → obj s c ≡ cons k v
    → Shows Any s k t
    → Ordered m t
    → size t ≤ m.fuel
    → assoc m x l s ≡ ok c s
unfolding assoc
assoc-first m x l c d k v t s known shows e g h o le = go m.fuel (omega (arith, size_pos t))
  where
    go : (f : ℕ) → 0 < f → assoc_loop m (equal m m.fuel) "improper list to assoc" f x l l s ≡ ok c s
    go zero lt = absurd (omega arith)
    go (suc f) lt = assoc_step m s x t known shows f l l c d k v t e g h o le ∙ rw (same_refl m t o)

-- What holds no array is kept by a write of an array to a cell that holds one.
abbrev is_lisp_array : Obj → Bool
is_lisp_array (lisp_array v) = true
is_lisp_array _ = false

module _ (s : State) (table : Ptr) {v : List Ptr} (at : obj s table ≡ lisp_array v)
    (w : List Ptr) where
  other_than_table :
      (a : Ptr) (o : Obj)
      → is_lisp_array o ≡ false
      → obj s a ≡ o
      → obj (set_cell table (lisp_array w) s) a ≡ o
  other_than_table a o no_array e = elim (Bool-cases (a == table)) [
    | inl same_cell ↦
        let here : a ≡ table = ground arith in
        let clash = ap is_lisp_array (sym e ∙ ap (obj s) here ∙ at) in absurd (ground arith)
    | inr other ↦ obj_set_other s table a (lisp_array w) other ∙ e
  ]

  Shows-table :
      (p : Ptr) (t : Datum) → Shows Any s p t → Shows Any (set_cell table (lisp_array w) s) p t
  Shows-table p empty h = h
  Shows-table p (number x) (k, e) = (tt, other_than_table p (flonum x) refl e)
  Shows-table p (name q b) (i, k, (y, e)) = (i, tt, (y, other_than_table p (symbol b y) refl e))
  Shows-table p (text b) (k, e) = (tt, other_than_table p (string b) refl e)
  Shows-table p (pair a d) (k, (x, y, e, g, h)) =
      (tt, (x, y, other_than_table p (cons x y) refl e, Shows-table x a g, Shows-table y d h))

set_element_run :
    (a j x : Ptr) (s : State) {v : List Ptr}
    → obj s a ≡ lisp_array v
    → set_element a j x s ≡ ok tt (set_cell a (lisp_array (set v j x)) s)
unfolding set_element
set_element_run a j x s e = rw e

module _ (m : Machine) (table : Ptr) (s : State) {v : List Ptr}
    (e : obj s table ≡ lisp_array v) where
  table_of_run : table_of m table s ≡ ok v s
  unfolding table_of
  table_of_run = rw (e, table_of)

  hset_new_run :
      (p value k : Ptr) (r : Run Ptr)
      → href_index m table p s ≡ ok k s
      → assoc m p (get_or v k 0) s ≡ ok 0 s
      → new_entry m table k (get_or v k 0) p value s ≡ r
      → hset m table p value s ≡ r
  unfolding hset
  hset_new_run p value k r at out made = rw (at, table_of_run, out) made

  href_run :
      (q k c a d : Ptr)
      → href_index m table q s ≡ ok k s
      → assoc m q (get_or v k 0) s ≡ ok c s
      → obj s c ≡ cons a d
      → href m table q s ≡ ok d s
  unfolding href
  href_run q k c a d at found g = rw (at, table_of_run, found) (cdr-cons m s c g)

new_entry_run :
    (m : Machine) (table k l p value a b : Ptr) (s t1 t2 : State) {v : List Ptr}
    → cons_cell m p value s ≡ ok a t1
    → cons_cell m a l t1 ≡ ok b t2
    → obj t2 table ≡ lisp_array v
    → new_entry m table k l p value s ≡ ok value (set_cell table (lisp_array (set v k b)) t2)
unfolding new_entry
new_entry_run m table k l p value a b s t1 t2 c1 c2 e = rw (c1, c2, set_element_run table k b t2 e)

-- A value that is put into a table under a new key is found: where the table is not empty, the bucket
-- of the key has entries with keys that are data, none the same as the key, fewer than the rounds, `t`
-- is not `NIL` and two cells are free, `hset` returns the value and changes no cell in use but the
-- table, and then `href` with any key that is this data returns the value.
pub href-hset :
    (m : Machine) (table p q value : Ptr) (t : Datum) (es : Entries) (s : State) (v : List Ptr)
    {a b : Ptr} {xs : List Ptr}
    → (s.symbols.sym_t == 0) ≡ false
    → obj s table ≡ lisp_array v
    → 0 < length v
    → size t ≤ m.fuel
    → Ordered m t
    → Shows Any s p t
    → Shows Any s q t
    → IsAlist m s (get_or v (hash_of m (length v) t) 0) es
    → length es < m.fuel
    → entry_of m t es ≡ 0
    → Ready s (a ∷ b ∷ xs)
    → (w : State) × (hset m table p value s ≡ ok value w)
      × (href m table q w ≡ ok value w)
      × ((c : Ptr) → is_free_cell (obj s c) ≡ false → (c == table) ≡ false → obj w c ≡ obj s c)
href-hset m table p q value t es s v {a} {b} known at pos le o h k alist lt out ready =
    let n = length v in
    let i = hash_of m n t in
    let inside = hash_of-lt m n pos t in
    let l = get_or v i 0 in
    let (t1, c1, f1) = cons_cell-Fresh m p value s ready in
    let (t2, c2, f2) = cons_cell-Fresh m a l t1 f1.ready in
    let kept = Extends-trans s t1 t2 f1.extends f2.extends in
    let at2 : obj t2 table ≡ lisp_array v = kept table (ap is_free_cell at) ∙ at in
    let vs = set v i b in
    let w = set_cell table (lisp_array vs) t2 in
    let n' = length-set v i b in
    let at_w : obj w table ≡ lisp_array vs =
      obj_set_self t2 table (lisp_array vs) (lisp_array-ne_nil t2 table at2) in
    let pair_w : obj w a ≡ cons p value =
      other_than_table t2 table at2 vs a (cons p value) refl
        (keep_pair t1 t2 a f2.extends f1.holds) in
    let bucket_w : obj w b ≡ cons a l =
      other_than_table t2 table at2 vs b (cons a l) refl f2.holds in
    let moved = λ (x : Ptr) (y : Shows Any s x t).
      Shows-table t2 table at2 vs x t (Shows-Extends s t2 x t kept y) in
    let known_w : (w.symbols.sym_t == 0) ≡ false =
      ap (λ y. y.sym_t == 0) (f2.same_symbols ∙ f1.same_symbols) ∙ known in
    let pos_w : 0 < length vs = omega (arith, n') in
    let put =
      hset_new_run m table s at p value i (ok value w)
        (href_index_run m table p s i at (c_sxhash-hash_of m n pos s m.fuel t p le h) inside)
        (assoc-entry m p l t es s known h alist lt ∙ ap (λ z. ok z s) out)
        (new_entry_run m table i l p value a b s t1 t2 c1 c2 at2) in
    (
      w,
      put,
      href_run m table w at_w q i a p value
          (href_index_run m table q w i at_w
            (c_sxhash-hash_of m (length vs) pos_w w m.fuel t q le (moved q k)
              ∙ ap (λ z. ok (hash_of m z t) w) n')
            (omega (arith, n', inside)))
          (rw (get_or-set v i b 0 inside) (
            assoc-first m q b a l p value t w known_w (moved q k) bucket_w pair_w (moved p h) o le))
          pair_w,
      λ c used other. obj_set_other t2 table c (lisp_array vs) other ∙ kept c used,
    )
