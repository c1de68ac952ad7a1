-- ===== src/Lists/Build.antt =====
-- The functions that build a list from lists: `reverse` and `copy_list`.
use siod.Prelude.{
  drop-cons, ℕ, zero, suc, ◌≤◌, ◌<◌, ◌≡◌, refl, ◌∙◌, List, [], ◌∷◌, arith, length, drop, subst,
}
use mathlib.Core.List.{reverse_aux}
use mathlib.Core.List
use siod.Store.{Ptr, cons, State, obj, Run, ok}
use siod.Store.View.{ne_nil}
use siod.Machine.{Machine}
use siod.Alloc.Error.{cons_cell}
use siod.Alloc.Fresh.{Ready, Extends, Extends-refl, Extends-trans}
use siod.Lists.{reverse_loop, reverse, copy_list_rec, copy_list}
use siod.Lists.Shape.{IsList, IsList-Extends, keep_pair, car-cons, cdr-cons, cons_cell-Fresh}

-- A run returns a list of these elements, takes its cells from the free list, of which it leaves
-- `free`, and changes no cell in use.
pub record Builds (s : State) (run : Run Ptr) (vs : List Ptr) (free : List Ptr) : Type 0 where
  pub end : State
  pub result : Ptr
  pub returns : run ≡ ok result end
  pub shape : IsList end result vs
  pub extends : Extends s end
  pub ready : Ready end free

reverse_step :
    (m : Machine) (f : ℕ) (s t : State) (p n q : Ptr) {v d : Ptr}
    → obj s p ≡ cons v d
    → obj t p ≡ cons v d
    → cons_cell m v n s ≡ ok q t
    → reverse_loop m (suc f) p n s ≡ reverse_loop m f d q t
unfolding reverse_loop
reverse_step m f s t p n q e e' c = rw (ne_nil s p e, car-cons m s p e, c, cdr-cons m t p e')

reverse_loop-Builds :
    (m : Machine) (f : ℕ) (s : State) (p n : Ptr) (vs ws free : List Ptr)
    → IsList s p vs
    → IsList s n ws
    → Ready s free
    → length vs < f
    → length vs ≤ length free
    → Builds s (reverse_loop m f p n s) (reverse_aux vs ws) (drop (length vs) free)
unfolding reverse_loop
reverse_loop-Builds m zero s p n vs ws free l k r lt le = absurd (omega arith)
reverse_loop-Builds m (suc f) s p n [] ws free l k r lt le = record {
  end = s;
  result = n;
  returns = rw l;
  shape = k;
  extends = Extends-refl s;
  ready = r;
}
reverse_loop-Builds m (suc f) s p n (v ∷ vs) ws [] l k r lt le = absurd (omega arith)
reverse_loop-Builds m (suc f) s p n (v ∷ vs) ws (q ∷ free) (d, e, l) k r lt le =
    let (t, c, fr) = cons_cell-Fresh m v n s r in
    let b =
      reverse_loop-Builds m f t d q vs (v ∷ ws) free (IsList-Extends s t d vs fr.extends l)
        (n, fr.holds, IsList-Extends s t n ws fr.extends k) fr.ready (omega arith) (omega arith) in
    record {
      end = b.end;
      result = b.result;
      returns = reverse_step m f s t p n q e (keep_pair s t p fr.extends e) c ∙ b.returns;
      shape = b.shape;
      extends = Extends-trans s t b.end fr.extends b.extends;
      ready = b.ready;
    }

-- For a proper list, given fuel above its length and as many free cells, `reverse` builds the
-- reversed list from cells of the free list, and changes no cell in use.
pub reverse-Builds :
    (m : Machine) (s : State) (l : Ptr) (vs free : List Ptr)
    → IsList s l vs
    → Ready s free
    → length vs < m.fuel
    → length vs ≤ length free
    → Builds s (reverse m l s) (List.reverse vs) (drop (length vs) free)
unfolding reverse
reverse-Builds m s l vs free is r lt le =
    reverse_loop-Builds m m.fuel s l 0 vs [] free is refl r lt le

-- One more pair in front of what was built.
cons-Builds :
    (m : Machine) (s : State) (a p : Ptr) (t : State) (vs : List Ptr) (n : ℕ) (free : List Ptr)
    → IsList t p vs
    → Extends s t
    → Ready t (drop n free)
    → n < length free
    → Builds s (cons_cell m a p t) (a ∷ vs) (drop (suc n) free)
cons-Builds m s a p t vs n free is ext r lt =
    let (q, e) = drop-cons n free lt in
    let r' : Ready t (q ∷ drop (suc n) free) = subst (Ready t) e r in
    let (u, c, fr) = cons_cell-Fresh m a p t r' in
    record {
      end = u;
      result = q;
      returns = c;
      shape = (p, fr.holds, IsList-Extends t u p vs fr.extends is);
      extends = Extends-trans s t u ext fr.extends;
      ready = fr.ready;
    }

copy_step :
    (m : Machine) (f : ℕ) (s t : State) (p q : Ptr) {v d : Ptr}
    → obj s p ≡ cons v d
    → obj t p ≡ cons v d
    → copy_list_rec m f d s ≡ ok q t
    → copy_list_rec m (suc f) p s ≡ cons_cell m v q t
unfolding copy_list_rec
copy_step m f s t p q e e' c = rw (ne_nil s p e, cdr-cons m s p e, c, car-cons m t p e')

copy_list_rec-Builds :
    (m : Machine) (f : ℕ) (s : State) (p : Ptr) (vs free : List Ptr)
    → IsList s p vs
    → Ready s free
    → length vs < f
    → length vs ≤ length free
    → Builds s (copy_list_rec m f p s) vs (drop (length vs) free)
unfolding copy_list_rec
copy_list_rec-Builds m zero s p vs free l r lt le = absurd (omega arith)
copy_list_rec-Builds m (suc f) s p [] free l r lt le = record {
  end = s;
  result = 0;
  returns = rw l;
  shape = refl;
  extends = Extends-refl s;
  ready = r;
}
copy_list_rec-Builds m (suc f) s p (v ∷ vs) free (d, e, l) r lt le =
    let b = copy_list_rec-Builds m f s d vs free l r (omega arith) (omega arith) in
    let c =
      cons-Builds m s v b.result b.end vs (length vs) free b.shape b.extends b.ready
        (omega arith) in
    record {
      end = c.end;
      result = c.result;
      returns =
          copy_step m f s b.end p b.result e (keep_pair s b.end p b.extends e) b.returns
          ∙ c.returns;
      shape = c.shape;
      extends = c.extends;
      ready = c.ready;
    }

-- For a proper list, given fuel above its length and as many free cells, `copy_list` builds a list
-- of the same elements from cells of the free list, and changes no cell in use.
pub copy_list-Builds :
    (m : Machine) (s : State) (l : Ptr) (vs free : List Ptr)
    → IsList s l vs
    → Ready s free
    → length vs < m.fuel
    → length vs ≤ length free
    → Builds s (copy_list m l s) vs (drop (length vs) free)
unfolding copy_list
copy_list-Builds m s l vs free is r lt le = copy_list_rec-Builds m m.fuel s l vs free is r lt le
