-- ===== src/Store/View.antt =====
-- What an accessor sees after a write, and at `NIL`.
use siod.Prelude.{List, ◌≡◌, refl, false, ◌==◌, if◌then◌else◌, arith}
use siod.Store.{
  Ptr, Bytes, Bits, Obj, nil, cons, symbol, flonum, string, lisp_array, State, obj, set_cell,
}

pub obj-zero : (s : State) → obj s 0 ≡ nil
unfolding obj
obj-zero s = refl

-- A cell that holds a pair, or a symbol, is not `NIL`.
pub ne_nil : (s : State) (p : Ptr) {a d : Ptr} → obj s p ≡ cons a d → (p == 0) ≡ false
unfolding obj
ne_nil s p e = ground arith

pub symbol-ne_nil :
    (s : State) (p : Ptr) {name : Bytes} {v : Ptr} → obj s p ≡ symbol name v → (p == 0) ≡ false
unfolding obj
symbol-ne_nil s p e = ground arith

pub not_pair : (s : State) (p : Ptr) {a d : Ptr} → p ≡ 0 → ¬ (obj s p ≡ cons a d)
unfolding obj
not_pair s p z e = ground arith

pub obj_set_self : (s : State) (p : Ptr) (o : Obj) → (p == 0) ≡ false → obj (set_cell p o s) p ≡ o
unfolding obj
obj_set_self s p o ne = ground arith

pub obj_set_other :
    (s : State) (p q : Ptr) (o : Obj) → (q == p) ≡ false → obj (set_cell p o s) q ≡ obj s q
unfolding obj
obj_set_other s p q o ne = ground arith

-- What is seen depends on the cells alone.
pub same_obj : (s t : State) (a : Ptr) → s.cells ≡ t.cells → obj s a ≡ obj t a
unfolding obj
same_obj s t a e = λ i. if a == 0 then nil else e i a

pub flonum-ne_nil : (s : State) (p : Ptr) {x : Bits} → obj s p ≡ flonum x → (p == 0) ≡ false
unfolding obj
flonum-ne_nil s p e = ground arith

pub string-ne_nil : (s : State) (p : Ptr) {b : Bytes} → obj s p ≡ string b → (p == 0) ≡ false
unfolding obj
string-ne_nil s p e = ground arith

pub lisp_array-ne_nil :
    (s : State) (p : Ptr) {v : List Ptr} → obj s p ≡ lisp_array v → (p == 0) ≡ false
unfolding obj
lisp_array-ne_nil s p e = ground arith
