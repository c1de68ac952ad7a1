-- ===== src/Gc/Reach.antt =====
-- Reachability in the heap, and the number of cells without a mark.
use siod.Prelude.{
  ℕ, zero, suc, ◌+◌, ◌≤◌, ◌<◌, ◌≡◌, true, false, List, ◌∷◌, arith, ◌==◌, if◌then◌else◌, Bool-cases,
  inl, inr,
}
use siod.Store.{Ptr, State, obj, update}
use siod.Gc.{Marks, children}

pub data Has {ℓ} {A : Type ℓ} (x : A) : List A → Type ℓ where
  head : {y : A} {ys : List A} → y ≡ x → Has x (y ∷ ys)
  tail : {y : A} {ys : List A} → Has x ys → Has x (y ∷ ys)

-- `q` holds the pointer `c`, which is not `NIL`.
pub record Edge (s : State) (q c : Ptr) : Type 0 where
  pub child : Has c (children (obj s q))
  pub ne_nil : (c == 0) ≡ false

-- A path of pointers leads from one of the roots to the cell.
pub data Reach (s : State) (roots : List Ptr) : Ptr → Type 0 where
  start : {q : Ptr} → Has q roots → (q == 0) ≡ false → Reach s roots q
  step : {q c : Ptr} → Reach s roots q → Edge s q c → Reach s roots c

pub Reach-mono :
    {s : State} {ps qs : List Ptr} {c : Ptr}
    → ((x : Ptr) → Has x ps → Has x qs)
    → Reach s ps c
    → Reach s qs c
Reach-mono sub (start h n) = start (sub _ h) n
Reach-mono sub (step r e) = step (Reach-mono sub r) e

-- What the pointers of a reachable cell reach is reachable.
pub Reach-children :
    {s : State} {ps : List Ptr} {p c : Ptr}
    → Reach s ps p
    → Reach s (children (obj s p)) c
    → Reach s ps c
Reach-children r (start h n) = step r (record { child = h; ne_nil = n })
Reach-children r (step q e) = step (Reach-children r q) e

-- The cells below `n` that carry no mark.
unfoldable pub unmarked : ℕ → Marks → ℕ
unmarked zero m = 0
unmarked (suc n) m = (if m n then 0 else 1) + unmarked n m

pub unmarked_mono :
    (n : ℕ) (m k : Marks) → ((q : Ptr) → m q ≡ true → k q ≡ true) → unmarked n k ≤ unmarked n m
unfolding unmarked
unmarked_mono zero m k h = omega arith
unmarked_mono (suc n) m k h = ground (arith, h n, unmarked_mono n m k h)

update-grows : (m : Marks) (p q : Ptr) → m q ≡ true → update m p true q ≡ true
update-grows m p q h = ground arith

pub unmarked-update :
    (n : ℕ) (m : Marks) (p : Ptr)
    → p < n
    → m p ≡ false
    → unmarked n (update m p true) < unmarked n m
unfolding unmarked
unmarked-update zero m p lt h = elim lt [ ]
unmarked-update (suc n) m p lt h = elim (Bool-cases (n == p)) [
  | inl e ↦ ground (arith, unmarked_mono n m (update m p true) (update-grows m p))
  | inr e ↦ ground (arith, unmarked-update n m p)
]
