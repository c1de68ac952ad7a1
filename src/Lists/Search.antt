-- ===== src/Lists/Search.antt =====
-- The functions that search a list and change nothing: `memq`, `assq` and `nlength`.
use siod.Prelude.{
  ℕ, zero, suc, ◌+◌, ◌<◌, ◌≡◌, refl, ◌∙◌, ap, Bool, true, false, List, [], ◌∷◌, ◌==◌, if◌then◌else◌,
  arith, length, Bool-cases, inl, inr, String,
}
use siod.Store.{Ptr, Obj, cons, State, obj, ok, Cmd}
use siod.Store.View.{obj-zero}
use siod.Machine.{Machine}
use siod.Alloc.Jump.{NoReturn, fail-NoReturn}
use siod.Lists.{on_pair, not_found, memq_loop, memq, assq_loop, assq, nlength_loop, nlength}
use siod.Lists.Shape.{IsList, on_pair-cons, on_pair-nil}

-- The part of a list from the first occurrence of an element on.
abbrev pub tail_at : Ptr → List Ptr → List Ptr
tail_at x [] = []
tail_at x (v ∷ vs) = if x == v then v ∷ vs else tail_at x vs

not_found-nil :
    (m : Machine) (message : String) (l whole : Ptr) (s : State)
    → l ≡ 0
    → not_found m message l whole s ≡ ok 0 s
unfolding not_found
not_found-nil m message l whole s e = rw e

-- A list that ends in something else than `NIL` is an error.
not_found-NoReturn :
    (m : Machine) (message : String) (l whole : Ptr) (s : State)
    → (l == 0) ≡ false
    → NoReturn (not_found m message l whole s)
unfolding not_found
not_found-NoReturn m message l whole s e = rw e (fail-NoReturn Ptr m message whole s)

memq_loop-tail_at :
    (m : Machine) (f : ℕ) (x il l : Ptr) (s : State) (vs : List Ptr)
    → IsList s l vs
    → length vs < f
    → (r : Ptr) × (memq_loop m f x il l s ≡ ok r s) × IsList s r (tail_at x vs)
unfolding memq_loop
memq_loop-tail_at m zero x il l s vs is lt = absurd (omega arith)
memq_loop-tail_at m (suc f) x il l s [] is lt =
    (0, on_pair-nil m s l _ _ is ∙ not_found-nil m _ l il s is, refl)
memq_loop-tail_at m (suc f) x il l s (v ∷ vs) (d, e, is) lt = elim (Bool-cases (x == v)) [
  | inl same ↦ (l, on_pair-cons m s l e _ _ ∙ rw same refl, rw same (d, e, is))
  | inr other ↦
      let (r, g, t) = memq_loop-tail_at m f x il d s vs is (omega arith) in
      (r, on_pair-cons m s l e _ _ ∙ rw other g, rw other t)
]

-- For a proper list and fuel above its length, `memq` returns a list that goes from the first
-- occurrence of the element on, the empty one if there is none, and changes nothing.
pub memq-tail_at :
    (m : Machine) (x l : Ptr) (s : State) (vs : List Ptr)
    → IsList s l vs
    → length vs < m.fuel
    → (r : Ptr) × (memq m x l s ≡ ok r s) × IsList s r (tail_at x vs)
unfolding memq
memq-tail_at m x l s vs is lt = memq_loop-tail_at m m.fuel x l l s vs is lt

-- The first pair of a list that has this key; elements that are no pairs are passed over.
abbrev pub has_key : Obj → Ptr → Bool
has_key (cons k v) x = k == x
has_key _ x = false

pub first_with_key : State → Ptr → List Ptr → Ptr
first_with_key s x [] = 0
first_with_key s x (v ∷ vs) = if has_key (obj s v) x then v else first_with_key s x vs

ok_if :
    (b : Bool) (p q : Ptr) (s : State) → (if b then ok p s else ok q s) ≡ ok (if b then p else q) s
ok_if true p q s = refl
ok_if false p q s = refl

on_pair-has_key :
    (m : Machine) (x tmp : Ptr) (next : Cmd Ptr) (s : State)
    → on_pair m tmp (λ k v. if k == x then ok tmp else next) next s
      ≡ (if has_key (obj s tmp) x then ok tmp s else next s)
unfolding on_pair
on_pair-has_key m x tmp next s = ground arith

assq_loop-first :
    (m : Machine) (f : ℕ) (x al l : Ptr) (s : State) (vs : List Ptr)
    → IsList s l vs
    → length vs < f
    → assq_loop m f x al l s ≡ ok (first_with_key s x vs) s
unfolding assq_loop first_with_key
assq_loop-first m zero x al l s vs is lt = absurd (omega arith)
assq_loop-first m (suc f) x al l s [] is lt = on_pair-nil m s l _ _ is ∙ not_found-nil m _ l al s is
assq_loop-first m (suc f) x al l s (v ∷ vs) (d, e, is) lt =
    on_pair-cons m s l e _ _
    ∙ on_pair-has_key m x v (assq_loop m f x al d) s
    ∙ ap (λ r. if has_key (obj s v) x then ok v s else r)
        (assq_loop-first m f x al d s vs is (omega arith))
    ∙ ok_if (has_key (obj s v) x) v (first_with_key s x vs) s

-- For a proper list and fuel above its length, `assq` returns the first element that is a pair with
-- the key, `NIL` if there is none, and changes nothing.
pub assq-first :
    (m : Machine) (x l : Ptr) (s : State) (vs : List Ptr)
    → IsList s l vs
    → length vs < m.fuel
    → assq m x l s ≡ ok (first_with_key s x vs) s
unfolding assq
assq-first m x l s vs is lt = assq_loop-first m m.fuel x l l s vs is lt

nlength_loop-length :
    (m : Machine) (f : ℕ) (whole l n : ℕ) (s : State) (vs : List Ptr)
    → IsList s l vs
    → length vs < f
    → nlength_loop m f whole l n s ≡ ok (n + length vs) s
unfolding nlength_loop
nlength_loop-length m zero whole l n s vs is lt = absurd (omega arith)
nlength_loop-length m (suc f) whole l n s [] is lt =
    on_pair-nil m s l _ _ is ∙ rw is (ap (λ k. ok k s) (omega arith))
nlength_loop-length m (suc f) whole l n s (v ∷ vs) (d, e, is) lt =
    on_pair-cons m s l e _ _
    ∙ nlength_loop-length m f whole d (n + 1) s vs is (omega arith)
    ∙ ap (λ k. ok k s) (omega arith)

-- For a proper list and fuel above its length, `nlength` returns the number of its elements, and
-- changes nothing.
pub nlength-length :
    (m : Machine) (l : Ptr) (s : State) (vs : List Ptr)
    → IsList s l vs
    → length vs < m.fuel
    → nlength m l s ≡ ok (length vs) s
unfolding nlength
nlength-length m l s [] is lt = rw (is, obj-zero s, nlength)
nlength-length m l s (v ∷ vs) (d, e, is) lt =
    rw (e, nlength)
      (nlength_loop-length m m.fuel l l 0 s (v ∷ vs) (d, e, is) lt ∙ ap (λ k. ok k s) (omega arith))
