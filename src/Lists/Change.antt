-- ===== src/Lists/Change.antt =====
-- On `nreverse` of winsiod/slib.c.
use siod.Prelude.{
  ℕ, zero, suc, ◌<◌, ◌≡◌, refl, sym, ◌∙◌, ap, false, List, [], ◌∷◌, ◌==◌, arith, length, subst,
  Bool-cases, inl, inr,
}
use mathlib.Core.List.{reverse_aux}
use mathlib.Core.List
use siod.Store.{Ptr, cons, State, obj, set_cell, Run, ok}
use siod.Store.View.{ne_nil, obj_set_self, obj_set_other}
use siod.Machine.{Machine}
use siod.Gc.Reach.{Has, head, tail}
use siod.Lists.{nreverse_loop, nreverse}
use siod.Lists.Shape.{on_pair-cons, on_pair-nil}
use siod.Lists.Cells.{Cells, addresses, ListAt, ListAt-frame, ListAt-distinct}

-- A run returns a list in these cells, and writes to no cell but those of `mine`.
pub record Relinks (s : State) (run : Run Ptr) (mine cs : Cells) : Type 0 where
  pub end : State
  pub result : Ptr
  pub returns : run ≡ ok result end
  pub shape : ListAt end result cs
  pub others : (a : Ptr) → ¬ (Has a (addresses mine)) → obj end a ≡ obj s a

pub ne_of_out : {a b : Ptr} {cs : List Ptr} → ¬ (Has a cs) → Has b cs → (b == a) ≡ false
ne_of_out {a} {b} {cs} out h = elim (Bool-cases (b == a)) [
  | inl same ↦ let at : b ≡ a = ground arith in absurd (out (subst (λ x. Has x cs) at h))
  | inr other ↦ other
]

ne_of_not_head : {a b : Ptr} {xs : List Ptr} → ¬ (Has b (a ∷ xs)) → (b == a) ≡ false
ne_of_not_head {a} {b} out = elim (Bool-cases (b == a)) [
  | inl same ↦ absurd (out (head (ground arith)))
  | inr other ↦ other
]

-- The cell that moves over keeps the two lists apart.
still :
    (a v : Ptr) (cs ds : Cells)
    → ¬ (Has a (addresses cs))
    → ((b : Ptr) → Has b (a ∷ addresses cs) → ¬ (Has b (addresses ds)))
    → (b : Ptr) → Has b (addresses cs)
    → ¬ (Has b (a ∷ addresses ds))
still a v cs ds out apart b h (head same) = out (subst (λ x. Has x (addresses cs)) (sym same) h)
still a v cs ds out apart b h (tail k) = apart b (tail h) k

nreverse_loop-Relinks :
    (m : Machine) (f : ℕ) (p n : Ptr) (s : State) (cs ds : Cells)
    → ListAt s p cs
    → ListAt s n ds
    → ((a : Ptr) → Has a (addresses cs) → ¬ (Has a (addresses ds)))
    → length cs < f
    → Relinks s (nreverse_loop m f p n s) cs (reverse_aux cs ds)
unfolding nreverse_loop
nreverse_loop-Relinks m zero p n s cs ds l k apart lt = absurd (omega arith)
nreverse_loop-Relinks m (suc f) p n s [] ds l k apart lt = record {
  end = s;
  result = n;
  returns = on_pair-nil m s p _ _ l;
  shape = k;
  others = λ a out. refl;
}
nreverse_loop-Relinks m (suc f) p n s ((a, v) ∷ cs) ds (e, (d, g, l)) k apart lt =
    let here : obj s p ≡ cons v d = rw e g in
    let out = ListAt-distinct s a a v cs (refl, (d, g, l)) in
    let t = set_cell p (cons v n) s in
    let at : obj t a ≡ cons v n =
      ap (obj t) (sym e) ∙ obj_set_self s p (cons v n) (ne_nil s p here) in
    let keep = λ (b : Ptr) (ne : (b == a) ≡ false).
      obj_set_other s p b (cons v n) (subst (λ x. (b == x) ≡ false) (sym e) ne) in
    let l' = ListAt-frame s t d cs l (λ b h. keep b (ne_of_out out h)) in
    let k' = ListAt-frame s t n ds k (λ b h. keep b (ne_of_out (apart a (head refl)) h)) in
    let r =
      nreverse_loop-Relinks m f d p t cs ((a, v) ∷ ds) l' (e, (n, at, k'))
        (still a v cs ds out apart) (omega arith) in
    record {
      end = r.end;
      result = r.result;
      returns = on_pair-cons m s p here _ _ ∙ r.returns;
      shape = r.shape;
      others = λ b o. r.others b (λ h. o (tail h)) ∙ keep b (ne_of_not_head o);
    }

-- For a proper list and fuel above its length, `nreverse` returns the list of the same cells in
-- reverse order, each with its element, and writes to no other cell.
pub nreverse-Relinks :
    (m : Machine) (p : Ptr) (s : State) (cs : Cells)
    → ListAt s p cs
    → length cs < m.fuel
    → Relinks s (nreverse m p s) cs (List.reverse cs)
unfolding nreverse
nreverse-Relinks m p s cs l lt =
    nreverse_loop-Relinks m m.fuel p 0 s cs [] l refl (λ a h k. elim k [ ]) lt
