-- ===== src/Lists/Join.antt =====
-- On `last` and `nconc` of winsiod/sliba.c.
use siod.Prelude.{
  ℕ, zero, suc, ◌<◌, ◌≡◌, refl, sym, ◌∙◌, ap, false, [], ◌∷◌, ◌++◌, ◌==◌, arith, length,
}
use siod.Store.{Ptr, cons, State, obj, set_cell, ok}
use siod.Store.View.{ne_nil, obj_set_self, obj_set_other}
use siod.Machine.{Machine}
use siod.Gc.Reach.{Has, head, tail}
use siod.Lists.{last_loop, last, nconc}
use siod.Lists.Shape.{on_pair-cons, on_pair-nil, setcdr-cons}
use siod.Lists.Cells.{Cells, addresses, ListAt, ListAt-frame, ListAt-distinct}
use siod.Lists.Change.{Relinks, ne_of_out}

-- The last cell of a list, after `a`.
abbrev pub last_cell : Ptr → Cells → Ptr
last_cell a [] = a
last_cell a ((b, v) ∷ cs) = last_cell b cs

last_loop-last_cell :
    (m : Machine) (f : ℕ) (v1 v2 : Ptr) (s : State) (cs : Cells)
    → ListAt s v2 cs
    → length cs < f
    → last_loop m f v1 v2 s ≡ ok (last_cell v1 cs) s
unfolding last_loop
last_loop-last_cell m zero v1 v2 s cs l lt = absurd (omega arith)
last_loop-last_cell m (suc f) v1 v2 s [] l lt = on_pair-nil m s v2 _ _ l
last_loop-last_cell m (suc f) v1 v2 s ((a, v) ∷ cs) (e, (d, g, l)) lt =
    let here : obj s v2 ≡ cons v d = ap (obj s) e ∙ g in
    on_pair-cons m s v2 here _ _
    ∙ last_loop-last_cell m f v2 d s cs l (omega arith)
    ∙ ap (λ p. ok (last_cell p cs) s) e

last-last_cell :
    (m : Machine) (p a v : Ptr) (s : State) (cs : Cells)
    → ListAt s p ((a, v) ∷ cs)
    → length cs < m.fuel
    → last m p s ≡ ok (last_cell a cs) s
unfolding last
last-last_cell m p a v s cs (e, (d, g, l)) lt =
    let here : obj s p ≡ cons v d = ap (obj s) e ∙ g in
    on_pair-cons m s p here _ _
    ∙ last_loop-last_cell m m.fuel p d s cs l lt
    ∙ ap (λ q. ok (last_cell q cs) s) e

last_cell-Has : (a v : Ptr) (cs : Cells) → Has (last_cell a cs) (addresses ((a, v) ∷ cs))
last_cell-Has a v [] = head refl
last_cell-Has a v ((b, w) ∷ cs) = tail (last_cell-Has b w cs)

last_cell-pair :
    (s : State) (p a v : Ptr) (cs : Cells)
    → ListAt s p ((a, v) ∷ cs)
    → (w : Ptr) × (obj s (last_cell a cs) ≡ cons w 0)
last_cell-pair s p a v [] (e, (d, g, l)) = (v, g ∙ ap (cons v) l)
last_cell-pair s p a v ((b, w) ∷ cs) (e, (d, g, l)) = last_cell-pair s d b w cs l

-- With the end turned to `b`, the list goes on there.
joined :
    (s : State) (p a v w b : Ptr) (cs ds : Cells)
    → ListAt s p ((a, v) ∷ cs)
    → obj s (last_cell a cs) ≡ cons w 0
    → ListAt (set_cell (last_cell a cs) (cons w b) s) b ds
    → ListAt (set_cell (last_cell a cs) (cons w b) s) p (((a, v) ∷ cs) ++ ds)
joined s p a v w b [] ds (e, (d, g, l)) h k =
    let same : v ≡ w = cc in
    (e, (b, obj_set_self s a (cons w b) (ne_nil s a h) ∙ ap (λ x. cons x b) (sym same), k))
joined s p a v w b ((c, u) ∷ cs) ds (e, (d, g, l)) h k =
    let out = ListAt-distinct s p a v ((c, u) ∷ cs) (e, (d, g, l)) in
    let other = ne_of_out out (last_cell-Has c u cs) in
    (
      e,
      (
        d,
        obj_set_other s (last_cell c cs) a (cons w b) (ground arith) ∙ g,
        joined s d c u w b cs ds l h k,
      ),
    )

nconc_run :
    (m : Machine) (p q b w : Ptr) (s : State)
    → (p == 0) ≡ false
    → last m p s ≡ ok q s
    → obj s q ≡ cons w 0
    → nconc m p b s ≡ ok p (set_cell q (cons w b) s)
unfolding nconc
nconc_run m p q b w s ne e g = rw (ne, e, setcdr-cons m s q g b)

-- For two proper lists without a common pair, the first not empty and the fuel above its length,
-- `nconc` returns the list of the cells of the first and then those of the second, and writes to no
-- other cell than those of the first.
pub nconc-Relinks :
    (m : Machine) (p b a v : Ptr) (s : State) (cs ds : Cells)
    → ListAt s p ((a, v) ∷ cs)
    → ListAt s b ds
    → ((x : Ptr) → Has x (a ∷ addresses cs) → ¬ (Has x (addresses ds)))
    → length cs < m.fuel
    → Relinks s (nconc m p b s) ((a, v) ∷ cs) (((a, v) ∷ cs) ++ ds)
nconc-Relinks m p b a v s cs ds l k apart lt =
    let q = last_cell a cs in
    let (w, g) = last_cell-pair s p a v cs l in
    let t = set_cell q (cons w b) s in
    let (e, (d, h, _)) = l in
    let here : obj s p ≡ cons v d = ap (obj s) e ∙ h in
    let k' =
      ListAt-frame s t b ds k
        (λ x h. obj_set_other s q x (cons w b) (ne_of_out (apart q (last_cell-Has a v cs)) h)) in
    record {
      end = t;
      result = p;
      returns = nconc_run m p q b w s (ne_nil s p here) (last-last_cell m p a v s cs l lt) g;
      shape = joined s p a v w b cs ds l g k';
      others = λ x out. obj_set_other s q x (cons w b) (apart_of x out);
    }
  where
    apart_of : (x : Ptr) → ¬ (Has x (a ∷ addresses cs)) → (x == last_cell a cs) ≡ false
    apart_of x out =
        let e : (last_cell a cs == x) ≡ false = ne_of_out out (last_cell-Has a v cs) in ground arith
