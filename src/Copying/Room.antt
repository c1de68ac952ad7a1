-- ===== src/Copying/Room.antt =====
-- On the copying collector of winsiod/slib.c: what holds of the two spaces while cells are moved.
use siod.Prelude.{
  List, ℕ, zero, suc, ◌+◌, ◌≤◌, ◌<◌, ◌≡◌, refl, sym, subst, Bool, true, false, ◌&&◌, ◌||◌, ◌==◌,
  ltb, leb, if◌then◌else◌, arith, Bool-cases, inl, inr,
}
use siod.Store.{Ptr, Obj, cons, closure, State, Run, ok, Cmd, update, and_then}
use siod.Machine.{Machine}
use siod.Gc.{children}
use siod.Gc.Reach.{Has, unmarked}
use siod.Copying.{list_symbols, first_word, set_first_word}

-- `NIL` or a cell of a space.
abbrev pub within : ℕ → ℕ → Ptr → Bool
within lo hi c = c == 0 || (leb lo c && ltb c hi)

-- The protected locations.
abbrev pub Globals : Type 0
Globals = Ptr × List Ptr × List Ptr × List Ptr × List Ptr

abbrev pub globals : State → Globals
globals s = (s.oblistvar, list_symbols s, s.obarray, s.inums, s.protected)

abbrev pub AllWithin : ℕ → ℕ → List Ptr → Type 0
AllWithin lo hi xs = (c : Ptr) → Has c xs → within lo hi c ≡ true

abbrev pub Inside : ℕ → ℕ → Obj → Type 0
Inside lo hi o = (c : Ptr) → Has c (children o) → within lo hi c ≡ true

unmarked_le :
    (n : ℕ) (m k : Ptr → Bool)
    → ((q : ℕ) → q < n → m q ≡ true → k q ≡ true)
    → unmarked n k ≤ unmarked n m
unfolding unmarked
unmarked_le zero m k h = omega arith
unmarked_le (suc n) m k h =
    ground (arith, h n (omega arith), unmarked_le n m k (λ q lt. h q (omega (arith, lt))))

unmarked_less :
    (n : ℕ) (m k : Ptr → Bool) (p : ℕ)
    → p < n
    → m p ≡ false
    → k p ≡ true
    → ((q : ℕ) → q < n → m q ≡ true → k q ≡ true)
    → unmarked n k < unmarked n m
unfolding unmarked
unmarked_less zero m k p lt e g h = elim lt [ ]
unmarked_less (suc n) m k p lt e g h = elim (Bool-cases (n == p)) [
  | inl same ↦ ground (arith, unmarked_le n m k (λ q l. h q (omega (arith, l))))
  | inr other ↦ ground (
    arith,
    h n (omega arith),
    unmarked_less n m k p (ground arith) e g (λ q l. h q (omega (arith, l))),
  )
]

pub unmarked_most : (n : ℕ) (m : Ptr → Bool) → unmarked n m ≤ n
unfolding unmarked
unmarked_most zero m = omega arith
unmarked_most (suc n) m = ground (arith, unmarked_most n m)

-- A run that returns, with a property of the value and the state.
abbrev pub Returns : {A : Type 0} → (A → State → Type 0) → Run A → Type 0
Returns P (ok a t) = P a t
Returns P _ = ⊥

pub Returns-and_then :
    {A B : Type 0} (P : A → State → Type 0) (Q : B → State → Type 0) (r : Run A) (k : A → Cmd B)
    → Returns P r
    → ((a : A) (t : State) → P a t → Returns Q (k a t))
    → Returns Q (and_then r k)
Returns-and_then P Q (ok a t) k p h = h a t p
Returns-and_then P Q _ k p h = elim p [ ]

-- The old space has `k` cells from `lo` on, and the new one `size` cells from `new` on; and what
-- is known of the protected locations.
pub record Spaces : Type 1 where
  pub fixed : Globals → Type 0
  pub lo : ℕ
  pub k : ℕ
  pub new : ℕ
  pub size : ℕ
  pub old_first : 0 < lo
  pub new_first : 0 < new
  pub enough : k ≤ size
  pub apart : (leb (lo + k) new || leb (new + size) lo) ≡ true

-- The state while cells are moved. The cells of the new space below `scanned` point into it,
-- those from `todo` on still into the old one. There is room for the old cells without a mark.
pub record Room (v : Spaces) (scanned todo : ℕ) (s : State) : Type 0 where
  pub same : v.fixed (globals s)
  pub ends : s.heap_end ≡ v.new + v.size
  pub room : s.heap + unmarked v.k (λ q. s.marks (v.lo + q)) ≤ v.new + v.k
  pub bottom : v.new ≤ s.heap
  pub here :
      (q : ℕ) → q < v.k → s.marks (v.lo + q) ≡ false → Inside v.lo (v.lo + v.k) (s.cells (v.lo + q))
  pub moved :
      (q : ℕ)
      → q < v.k
      → s.marks (v.lo + q) ≡ true
      → within v.new s.heap (first_word (s.cells (v.lo + q))) ≡ true
  pub done : (y : Ptr) → v.new ≤ y → y < scanned → Inside v.new s.heap (s.cells y)
  pub waits : (y : Ptr) → todo ≤ y → y < s.heap → Inside v.lo (v.lo + v.k) (s.cells y)

first_word-set_first_word : (nw : Ptr) (o : Obj) → first_word (set_first_word nw o) ≡ nw
unfolding first_word set_first_word
first_word-set_first_word nw (cons a d) = refl
first_word-set_first_word nw (closure env code) = refl
first_word-set_first_word nw _ = refl

module _ (m : Machine) (v : Spaces) (a b : ℕ) (low : v.new ≤ b) (order : a ≤ b) where
  -- The state after a cell is moved.
  abbrev pub moved_state : Ptr → State → State
  moved_state x s = record s {
    heap = s.heap + 1;
    cells = update (update s.cells s.heap (s.cells x)) x (set_first_word s.heap (s.cells x));
    marks = update (update s.marks s.heap (s.marks x)) x true;
  }

  apart_ne : (q : ℕ) (y : Ptr) → q < v.k → v.new ≤ y → y < v.new + v.size → (v.lo + q == y) ≡ false
  apart_ne q y lt le up = let apart = v.apart in ground arith

  -- Where an old cell has no mark, the new space has a place.
  pub heap_in :
      (p : ℕ) (s : State)
      → Room v a b s
      → p < v.k
      → s.marks (v.lo + p) ≡ false
      → s.heap < v.new + v.k
  heap_in p s r lt e =
      let some_left =
        unmarked_less v.k (λ q. s.marks (v.lo + q)) (λ _. true) p lt e refl (λ _ _ _. refl) in
      let room = r.room in omega (arith, some_left, room)

  moved_marks :
      (x y : Ptr) (s : State)
      → (y == s.heap) ≡ false
      → (moved_state x s).marks y ≡ (if y == x then true else s.marks y)
  moved_marks x y s ne = rw ne refl

  moved_cells :
      (x y : Ptr) (s : State)
      → (y == s.heap) ≡ false
      → (y == x) ≡ false
      → (moved_state x s).cells y ≡ s.cells y
  moved_cells x y s ne other = rw (ne, other) refl

  old_ne :
      (p : ℕ) (s : State)
      → Room v a b s
      → p < v.k
      → s.marks (v.lo + p) ≡ false
      → (q : ℕ) → q < v.k
      → (v.lo + q == s.heap) ≡ false
  old_ne p s r lt e q l =
      let bottom = r.bottom in
      let enough = v.enough in
      let up = heap_in p s r lt e in apart_ne q s.heap l bottom (omega (arith, up, enough))

  move_less :
      (p : ℕ) (s : State)
      → Room v a b s
      → p < v.k
      → s.marks (v.lo + p) ≡ false
      → unmarked v.k (λ q. (moved_state (v.lo + p) s).marks (v.lo + q))
        < unmarked v.k (λ q. s.marks (v.lo + q))
  move_less p s r lt e =
      unmarked_less v.k (λ q. s.marks (v.lo + q)) (λ q. (moved_state (v.lo + p) s).marks (v.lo + q))
        p lt e (ground arith)
        (λ q l marked. let ne = old_ne p s r lt e q l in ground (arith, ne, marked))

  pub within_more : (hi c : ℕ) → within v.new hi c ≡ true → within v.new (hi + 1) c ≡ true
  within_more hi c h = ground arith

  new_ne : (p : ℕ) (y : Ptr) → p < v.k → v.new ≤ y → y < v.new + v.size → (y == v.lo + p) ≡ false
  new_ne p y lt le up = let ne = apart_ne p y lt le up in ground (arith, ne)

  moved_at :
      (p : ℕ) (s : State) (q : ℕ)
      → Room v a b s
      → (v.lo + q == s.heap) ≡ false
      → q < v.k
      → (moved_state (v.lo + p) s).marks (v.lo + q) ≡ true
      → within v.new (s.heap + 1) (first_word ((moved_state (v.lo + p) s).cells (v.lo + q))) ≡ true
  moved_at p s q r ne l n = elim (Bool-cases (v.lo + q == v.lo + p)) [
    | inl same ↦
        rw (same, first_word-set_first_word s.heap (s.cells (v.lo + p)))
          (let bottom = r.bottom in ground arith)
    | inr other ↦ rw (moved_cells (v.lo + p) (v.lo + q) s ne other) (
        within_more s.heap (first_word (s.cells (v.lo + q)))
          (r.moved q l (ground (arith, n, ne, other))))
  ]

  waits_at :
      (p : ℕ) (s : State) (y : Ptr)
      → Room v a b s
      → p < v.k
      → s.marks (v.lo + p) ≡ false
      → b ≤ y
      → y < s.heap + 1
      → Inside v.lo (v.lo + v.k) ((moved_state (v.lo + p) s).cells y)
  waits_at p s y r lt e le l =
      let up = heap_in p s r lt e in
      let enough = v.enough in
      let ne = new_ne p y lt (omega (arith, low, le)) (omega (arith, up, enough, l)) in
      elim (Bool-cases (y == s.heap)) [
        | inl top ↦ rw (ne, top) (r.here p lt e)
        | inr below ↦ rw (ne, below) (r.waits y le (ground arith))
      ]

  pub move-Room :
      (p : ℕ) (s : State)
      → Room v a b s
      → p < v.k
      → s.marks (v.lo + p) ≡ false
      → b ≤ s.heap
      → Room v a b (moved_state (v.lo + p) s)
  move-Room p s r lt e ahead =
      let x = v.lo + p in
      let up = heap_in p s r lt e in
      let less = move_less p s r lt e in
      let room' = r.room in
      let bottom' = r.bottom in
      let enough = v.enough in
      record {
        same = r.same;
        ends = r.ends;
        room = omega (arith, less, room');
        bottom = omega (arith, bottom');
        here = λ q l n.
            let ne = old_ne p s r lt e q l in
            let other : (v.lo + q == x) ≡ false = ground (arith, n, ne) in
            let n' : s.marks (v.lo + q) ≡ false = ground (arith, n, ne, other) in
            subst (Inside v.lo (v.lo + v.k)) (sym (moved_cells x (v.lo + q) s ne other))
              (r.here q l n');
        moved = λ q l n. moved_at p s q r (old_ne p s r lt e q l) l n;
        done = λ y le l.
            let ne = new_ne p y lt le (omega (arith, l, order, ahead, up, enough)) in
            let below : (y == s.heap) ≡ false = ground (arith, l, order, ahead) in
            subst (Inside v.new (s.heap + 1)) (sym (moved_cells x y s below ne))
              (λ c h. within_more s.heap c (r.done y le l c h));
        waits = λ y le l. waits_at p s y r lt e le l;
      }
