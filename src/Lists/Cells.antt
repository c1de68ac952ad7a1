-- ===== src/Lists/Cells.antt =====
-- A list in the heap with the cells that hold it.
use siod.Prelude.{suc, ◌≤◌, ◌≡◌, refl, sym, ◌∙◌, ap, List, [], ◌∷◌, arith, length, subst}
use siod.Store.{Ptr, cons, State, obj}
use siod.Store.View.{not_pair}
use siod.Gc.Reach.{Has, head, tail}
use siod.Lists.Shape.{IsList}

-- Address and element of each pair, in order.
abbrev pub Cells : Type 0
Cells = List (Ptr × Ptr)

abbrev pub addresses : Cells → List Ptr
addresses [] = []
addresses ((a, v) ∷ cs) = a ∷ addresses cs

abbrev pub elements : Cells → List Ptr
elements [] = []
elements ((a, v) ∷ cs) = v ∷ elements cs

abbrev pub ListAt : State → Ptr → Cells → Type 0
ListAt s p [] = p ≡ 0
ListAt s p ((a, v) ∷ cs) = (p ≡ a) × ((d : Ptr) × (obj s a ≡ cons v d) × ListAt s d cs)

pub ListAt-IsList : (s : State) (p : Ptr) (cs : Cells) → ListAt s p cs → IsList s p (elements cs)
ListAt-IsList s p [] l = l
ListAt-IsList s p ((a, v) ∷ cs) (e, (d, g, l)) = (d, rw e g, ListAt-IsList s d cs l)

pub ListAt-frame :
    (s t : State) (p : Ptr) (cs : Cells)
    → ListAt s p cs
    → ((a : Ptr) → Has a (addresses cs) → obj t a ≡ obj s a)
    → ListAt t p cs
ListAt-frame s t p [] l same = l
ListAt-frame s t p ((a, v) ∷ cs) (e, (d, g, l)) same =
    (e, (d, same a (head refl) ∙ g, ListAt-frame s t d cs l (λ b h. same b (tail h))))

ListAt-length :
    (s : State) (p : Ptr) (cs ds : Cells) → ListAt s p cs → ListAt s p ds → length cs ≡ length ds
ListAt-length s p [] [] l k = refl
ListAt-length s p [] ((b, w) ∷ ds) l (e, (d, g, k)) = absurd (not_pair s b (sym e ∙ l) g)
ListAt-length s p ((a, v) ∷ cs) [] (e, (d, g, l)) k = absurd (not_pair s a (sym e ∙ k) g)
ListAt-length s p ((a, v) ∷ cs) ((b, w) ∷ ds) (e, (d, g, l)) (e', (d', g', k)) =
    let same : a ≡ b = sym e ∙ e' in
    let at : obj s a ≡ cons w d' = ap (obj s) same ∙ g' in
    let rest : d' ≡ d = cc in ap suc (ListAt-length s d cs ds l (subst (λ q. ListAt s q ds) rest k))

ListAt-from :
    (s : State) (p a : Ptr) (cs : Cells)
    → ListAt s p cs
    → Has a (addresses cs)
    → (ds : Cells) × ListAt s a ds × (length ds ≤ length cs)
ListAt-from s p a [] l h = elim h [ ]
ListAt-from s p a ((b, v) ∷ cs) (e, (d, g, l)) (head same) =
    ((b, v) ∷ cs, (sym same, (d, g, l)), omega arith)
ListAt-from s p a ((b, v) ∷ cs) (e, (d, g, l)) (tail h) =
    let (ds, k, le) = ListAt-from s d a cs l h in (ds, k, omega arith)

-- A list that ends meets no cell twice.
pub ListAt-distinct :
    (s : State) (p a v : Ptr) (cs : Cells) → ListAt s p ((a, v) ∷ cs) → ¬ (Has a (addresses cs))
ListAt-distinct s p a v cs (e, (d, g, l)) h =
    let (ds, k, le) = ListAt-from s d a cs l h in
    absurd (omega (arith, ListAt-length s a ((a, v) ∷ cs) ds (refl, (d, g, l)) k))
