-- ===== src/Arrays/Access.antt =====
-- On `aref1` and `aset1` of winsiod/sliba.c at lisp arrays.
use siod.Prelude.{
  ℕ, zero, suc, ◌≤◌, ◌<◌, ◌≡◌, ◌≢◌, refl, sym, ◌∙◌, ap, true, false, List, [], ◌∷◌, ◌==◌, ltb,
  arith, length, get_or, set, Bool-cases, inl, inr, codes,
}
use siod.Prelude.Int.{pos}
use siod.Store.{Ptr, Bits, Obj, Frame, flonum, lisp_array, State, obj, set_cell, ok, Cmd}
use siod.Store.View.{obj_set_self, obj_set_other}
use siod.Machine.{Machine}
use siod.Alloc.Error.{fail}
use siod.Alloc.Reports.{Catching, Reports, fail-Reports}
use siod.Arrays.{array_index, entry, aref_at, aref1, store_at, aset_at, aset1}

-- The pointer names a number that is this index.
pub record IsIndex (m : Machine) (s : State) (i k : ℕ) : Type 0 where
  pub bits : Bits
  pub number : obj s i ≡ flonum bits
  pub whole : m.double.to_long bits ≡ pos k

array_index-IsIndex :
    (m : Machine) (i k : ℕ) (not_number negative : Cmd ℕ) (s : State)
    → IsIndex m s i k
    → array_index m i not_number negative s ≡ ok k s
unfolding array_index
array_index-IsIndex m i k not_number negative s x = rw (x.number, x.whole, array_index)

aref_at_run :
    (m : Machine) (a i k : ℕ) (s : State) (xs : List Ptr)
    → obj s a ≡ lisp_array xs
    → aref_at m a i k s ≡ entry m xs k 0 i ok s
unfolding aref_at
aref_at_run m a i k s xs e = rw (e, aref_at)

aset_at_run :
    (m : Machine) (a i k v : ℕ) (s : State) (xs : List Ptr)
    → obj s a ≡ lisp_array xs
    → aset_at m a i v k s ≡ store_at m xs k v a i v lisp_array s
unfolding aset_at
aset_at_run m a i k v s xs e = rw (e, aset_at)

aref1_run :
    (m : Machine) (a i k : ℕ) (s : State) (xs : List Ptr)
    → obj s a ≡ lisp_array xs
    → IsIndex m s i k
    → aref1 m a i s ≡ entry m xs k 0 i ok s
unfolding aref1
aref1_run m a i k s xs e x =
    rw
      (array_index-IsIndex m i k (fail m "bad index to aref" i) (fail m "negative index to aref" i)
        s x)
      (aref_at_run m a i k s xs e)

aset1_run :
    (m : Machine) (a i k v : ℕ) (s : State) (xs : List Ptr)
    → obj s a ≡ lisp_array xs
    → IsIndex m s i k
    → aset1 m a i v s ≡ store_at m xs k v a i v lisp_array s
unfolding aset1
aset1_run m a i k v s xs e x =
    rw
      (array_index-IsIndex m i k (fail m "bad index to aset" i) (fail m "negative index to aset" i)
        s x)
      (aset_at_run m a i k v s xs e)

entry_inside :
    (m : Machine) (xs : List Ptr) (k i : ℕ) (s : State)
    → k < length xs
    → entry m xs k 0 i ok s ≡ ok (get_or xs k 0) s
unfolding entry
entry_inside m xs k i s lt = let e : ltb k (length xs) ≡ true = ground arith in rw e

store_inside :
    (m : Machine) (xs : List Ptr) (k v a i : ℕ) (s : State)
    → k < length xs
    → store_at m xs k v a i v lisp_array s ≡ ok v (set_cell a (lisp_array (set xs k v)) s)
unfolding store_at
store_inside m xs k v a i s lt = let e : ltb k (length xs) ≡ true = ground arith in rw e

get_or-set_same : (xs : List Ptr) (k v : ℕ) → k < length xs → get_or (set xs k v) k 0 ≡ v
get_or-set_same [] k v lt = elim lt [ ]
get_or-set_same (x ∷ xs) zero v lt = refl
get_or-set_same (x ∷ xs) (suc k) v lt = get_or-set_same xs k v (omega arith)

get_or-set_other : (xs : List Ptr) (k j v : ℕ) → k ≢ j → get_or (set xs k v) j 0 ≡ get_or xs j 0
get_or-set_other [] k j v ne = refl
get_or-set_other (x ∷ xs) zero zero v ne = absurd (ne refl)
get_or-set_other (x ∷ xs) zero (suc j) v ne = refl
get_or-set_other (x ∷ xs) (suc k) zero v ne = refl
get_or-set_other (x ∷ xs) (suc k) (suc j) v ne = get_or-set_other xs k j v (λ e. ne (ap suc e))

length-set_at : (xs : List Ptr) (k v : ℕ) → length (set xs k v) ≡ length xs
length-set_at [] k v = refl
length-set_at (x ∷ xs) zero v = refl
length-set_at (x ∷ xs) (suc k) v = ap suc (length-set_at xs k v)

array-ne_nil : (s : State) (a : Ptr) {xs : List Ptr} → obj s a ≡ lisp_array xs → (a == 0) ≡ false
unfolding obj
array-ne_nil s a e = ground arith

-- A number is no array, so its cell is not the one that a store changes.
IsIndex-stays :
    (m : Machine) (s : State) (a i k : Ptr) (o : Obj) {xs : List Ptr}
    → obj s a ≡ lisp_array xs
    → IsIndex m s i k
    → IsIndex m (set_cell a o s) i k
IsIndex-stays m s a i k o e x = elim (Bool-cases (i == a)) [
  | inl same ↦
      let at : i ≡ a = ground arith in
      let n : obj s a ≡ flonum x.bits = ap (obj s) (sym at) ∙ x.number in
      absurd (let d = sym n ∙ e in cc)
  | inr other ↦ record {
    bits = x.bits;
    number = obj_set_other s a i o other ∙ x.number;
    whole = x.whole;
  }
]

-- What a store into a lisp array at an index below its length does.
pub record Stored (m : Machine) (a : Ptr) (xs : List Ptr) (k v : ℕ) (s t : State) : Type 0 where
  pub same : (i : Ptr) → IsIndex m s i k → aref1 m a i t ≡ ok v t
  pub other :
      (i j : Ptr) → IsIndex m s i j → k ≢ j → j < length xs → aref1 m a i t ≡ ok (get_or xs j 0) t
  pub outside : (p : Ptr) → (p == a) ≡ false → obj t p ≡ obj s p

-- Where the index is a number below the length of a lisp array, `aset1` returns the value; `aref1`
-- then gives it at this index, and at every other index what was there; no other cell is changed.
pub aset1-Stored :
    (m : Machine) (a i k v : Ptr) (s : State) (xs : List Ptr)
    → obj s a ≡ lisp_array xs
    → IsIndex m s i k
    → k < length xs
    → (t : State) × (aset1 m a i v s ≡ ok v t) × Stored m a xs k v s t
aset1-Stored m a i k v s xs e x lt =
    let ys = set xs k v in
    let t = set_cell a (lisp_array ys) s in
    let here : obj t a ≡ lisp_array ys = obj_set_self s a (lisp_array ys) (array-ne_nil s a e) in
    let n = length-set_at xs k v in
    (
      t,
      aset1_run m a i k v s xs e x ∙ store_inside m xs k v a i s lt,
      record {
        same = λ i' y.
            aref1_run m a i' k t ys here (IsIndex-stays m s a i' k (lisp_array ys) e y)
            ∙ entry_inside m ys k i' t (omega (arith, n))
            ∙ ap (λ r. ok r t) (get_or-set_same xs k v lt);
        other = λ i' j y ne below.
            aref1_run m a i' j t ys here (IsIndex-stays m s a i' j (lisp_array ys) e y)
            ∙ entry_inside m ys j i' t (omega (arith, n))
            ∙ ap (λ r. ok r t) (get_or-set_other xs k j v ne);
        outside = λ p out. obj_set_other s a p (lisp_array ys) out;
      },
    )

entry_outside :
    (m : Machine) (xs : List Ptr) (k i : ℕ) (s : State) (outer : List Frame)
    → length xs ≤ k
    → Catching s outer
    → Reports s (length outer) (codes "index too large") i (entry m xs k 0 i ok s)
unfolding entry
entry_outside m xs k i s outer le c =
    let e : ltb k (length xs) ≡ false = ground arith in
    rw e (fail-Reports m "index too large" i s outer c)

store_outside :
    (m : Machine) (xs : List Ptr) (k v a i : ℕ) (s : State) (outer : List Frame)
    → length xs ≤ k
    → Catching s outer
    → Reports s
        (length outer)
        (codes "index to aset too large")
        i
        (store_at m xs k v a i v lisp_array s)
unfolding store_at
store_outside m xs k v a i s outer le c =
    let e : ltb k (length xs) ≡ false = ground arith in
    rw e (fail-Reports m "index to aset too large" i s outer c)

-- Where the index is a number that is not below the length of a lisp array, and a frame would catch
-- an error, `aref1` and `aset1` report that the index is too large: they jump to this frame, which
-- returns a pair of the message and the index, and `errobj` is bound to the index; every other cell
-- in use is as it was, so the array is not written.
pub access-Reports :
    (m : Machine) (a i k v : Ptr) (s : State) (xs : List Ptr) (outer : List Frame)
    → obj s a ≡ lisp_array xs
    → IsIndex m s i k
    → length xs ≤ k
    → Catching s outer
    → Reports s (length outer) (codes "index too large") i (aref1 m a i s)
      × Reports s (length outer) (codes "index to aset too large") i (aset1 m a i v s)
access-Reports m a i k v s xs outer e x le c = (
  rw (aref1_run m a i k s xs e x) (entry_outside m xs k i s outer le c),
  rw (aset1_run m a i k v s xs e x) (store_outside m xs k v a i s outer le c),
)
