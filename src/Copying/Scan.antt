-- ===== src/Copying/Scan.antt =====
-- On the scan of a cell by `scan_newspace` of winsiod/slib.c.
use siod.Prelude.{
  ℕ, ◌+◌, ◌≤◌, ◌<◌, ◌≡◌, refl, sym, subst, true, false, [], ◌∷◌, ◌==◌, arith, Bool-cases, inl, inr,
}
use siod.Store.{
  Ptr, Obj, cons, closure, symbol, lisp_array, State, and_then, ◌>>=◌, ◌>>◌, set_cell, store,
}
use siod.Machine.{Machine}
use siod.Gc.{children}
use siod.Gc.Reach.{Has, head, tail}
use siod.Copying.{gc_relocate, relocate_each, scan_obj}
use siod.Copying.Room.{within, Inside, Spaces, Room, Returns, Returns-and_then}
use siod.Copying.Moves.{within_most, Got, gc_relocate-Got, relocate_each-Got}

-- The cell is scanned, and the new space has not shrunk.
abbrev pub Closed : Spaces → Ptr → ℕ → State → Type 0
Closed v ptr n t = Room v (ptr + 1) (ptr + 1) t × (n ≤ t.heap)

module _ (m : Machine) (v : Spaces) (ptr : Ptr) (low : v.new ≤ ptr) where
  below : v.new ≤ ptr + 1
  below = omega (arith, low)

  order : ptr ≤ ptr + 1
  order = omega arith

  ptr_ne : (q : ℕ) → q < v.k → ptr < v.new + v.size → (v.lo + q == ptr) ≡ false
  ptr_ne q lt up = let apart = v.apart in ground arith

  ptr_in : (s : State) → Room v ptr (ptr + 1) s → ptr < s.heap → ptr < v.new + v.size
  ptr_in s r lt = let room = r.room in let enough = v.enough in omega (arith, room, enough, lt)

  set_at :
      (o : Obj) (s : State) (y : Ptr) → (y == ptr) ≡ false → (set_cell ptr o s).cells y ≡ s.cells y
  set_at o s y ne = rw ne refl

  -- The cell that is scanned may be written.
  store-Room :
      (o : Obj) (s : State)
      → Room v ptr (ptr + 1) s
      → ptr < s.heap
      → Room v ptr (ptr + 1) (set_cell ptr o s)
  store-Room o s r lt =
      let up = ptr_in s r lt in
      record {
        same = r.same;
        ends = r.ends;
        room = r.room;
        bottom = r.bottom;
        here = λ q l n.
            subst (Inside v.lo (v.lo + v.k)) (sym (set_at o s (v.lo + q) (ptr_ne q l up)))
              (r.here q l n);
        moved = λ q l n. rw (ptr_ne q l up) (r.moved q l n);
        done = λ y le l.
            subst (Inside v.new s.heap) (sym (set_at o s y (ground (arith, l)))) (r.done y le l);
        waits = λ y le l.
            subst (Inside v.lo (v.lo + v.k)) (sym (set_at o s y (ground (arith, le))))
              (r.waits y le l);
      }

  close-Room :
      (o : Obj) (s : State)
      → Room v ptr (ptr + 1) s
      → ptr < s.heap
      → Inside v.new s.heap o
      → Room v (ptr + 1) (ptr + 1) (set_cell ptr o s)
  close-Room o s r lt h =
      let r' = store-Room o s r lt in
      record {
        same = r'.same;
        ends = r'.ends;
        room = r'.room;
        bottom = r'.bottom;
        here = r'.here;
        moved = r'.moved;
        done = λ y le l. elim (Bool-cases (y == ptr)) [
          | inl same ↦ rw same h
          | inr other ↦ r'.done y le (ground arith)
        ];
        waits = r'.waits;
      }

  Inside_one :
      (hi a : ℕ) → within v.new hi a ≡ true → (c : Ptr) → Has c (a ∷ []) → within v.new hi c ≡ true
  Inside_one hi a h c (head e) = subst (λ x. within v.new hi x ≡ true) e h
  Inside_one hi a h c (tail n) = elim n [ ]

  Inside_two :
      (hi a d : ℕ)
      → within v.new hi a ≡ true
      → within v.new hi d ≡ true
      → (c : Ptr) → Has c (a ∷ d ∷ [])
      → within v.new hi c ≡ true
  Inside_two hi a d h k c (head e) = subst (λ x. within v.new hi x ≡ true) e h
  Inside_two hi a d h k c (tail (head e)) = subst (λ x. within v.new hi x ≡ true) e k
  Inside_two hi a d h k c (tail (tail n)) = elim n [ ]

  scan_one :
      (x : Ptr) (s : State) (n : ℕ) (make : Ptr → Obj)
      → Room v ptr (ptr + 1) s
      → n ≤ s.heap
      → ptr < s.heap
      → within v.lo (v.lo + v.k) x ≡ true
      → ((y : Ptr) (hi : ℕ) → s.heap ≤ hi → within v.new hi y ≡ true → Inside v.new hi (make y))
      → Returns (λ _ t. Closed v ptr n t) (and_then (gc_relocate m x s) (λ y. store ptr (make y)))
  scan_one x s n make r at lt old h =
      Returns-and_then (λ y t. Got m v ptr (ptr + 1) below order s (y ∷ []) t)
        (λ _ t. Closed v ptr n t) (gc_relocate m x s) _
        (gc_relocate-Got m v ptr (ptr + 1) below order x s r (omega (arith, lt)) old)
        (λ y t g.
          let up = g.grown in
          (
            close-Room (make y) t g.room (omega (arith, up, lt))
                (h y t.heap up (g.inside y (head refl))),
            omega (arith, up, at),
          ))

  scan_two :
      (x y : Ptr) (s : State) (make : Ptr → Ptr → Obj)
      → Room v ptr (ptr + 1) s
      → ptr < s.heap
      → within v.lo (v.lo + v.k) x ≡ true
      → within v.lo (v.lo + v.k) y ≡ true
      → ((x' y' : Ptr) (hi : ℕ)
          → within v.new hi x' ≡ true
          → within v.new hi y' ≡ true
          → Inside v.new hi (make x' y'))
      → Returns
          (λ _ t. Closed v ptr s.heap t)
          (and_then
            (gc_relocate m x s)
            (λ x'. store ptr (make x' y) >> (gc_relocate m y >>= (λ y'. store ptr (make x' y')))))
  scan_two x y s make r lt old old' h =
      Returns-and_then (λ y t. Got m v ptr (ptr + 1) below order s (y ∷ []) t)
        (λ _ t. Closed v ptr s.heap t) (gc_relocate m x s) _
        (gc_relocate-Got m v ptr (ptr + 1) below order x s r (omega (arith, lt)) old)
        (λ x' t g.
          let up = g.grown in
          let lt' : ptr < t.heap = omega (arith, up, lt) in
          let t' = set_cell ptr (make x' y) t in
          scan_one y t' s.heap (make x') (store-Room (make x' y) t g.room lt') up lt' old'
            (λ y' hi le k.
              h x' y' hi (within_most v.new t.heap hi x' le (g.inside x' (head refl))) k))

  -- A cell without pointers is as it should be.
  leaf-Closed :
      (o : Obj) (s : State)
      → Room v ptr (ptr + 1) s
      → s.cells ptr ≡ o
      → children o ≡ []
      → Closed v ptr s.heap s
  leaf-Closed o s r e none_in = (
    record {
      same = r.same;
      ends = r.ends;
      room = r.room;
      bottom = r.bottom;
      here = r.here;
      moved = r.moved;
      done = λ y le l. elim (Bool-cases (y == ptr)) [
        | inl same ↦
            let at : y ≡ ptr = ground arith in
            subst (λ z. Inside v.new s.heap (s.cells z)) (sym at)
              (rw (e, none_in) (λ c k. elim k [ ]))
        | inr other ↦ r.done y le (ground arith)
      ];
      waits = r.waits;
    },
    omega arith,
  )

  pub scan_obj-Closed :
      (o : Obj) (s : State)
      → Room v ptr (ptr + 1) s
      → ptr < s.heap
      → s.cells ptr ≡ o
      → Inside v.lo (v.lo + v.k) o
      → Returns (λ _ t. Closed v ptr s.heap t) (scan_obj m ptr o s)
  unfolding scan_obj
  scan_obj-Closed (cons a d) s r lt e h =
      scan_two a d s cons r lt (h a (head refl)) (h d (tail (head refl)))
        (λ x y hi i j. Inside_two hi x y i j)
  scan_obj-Closed (closure env code) s r lt e h =
      scan_two env code s closure r lt (h env (tail (head refl))) (h code (head refl))
        (λ x y hi i j. Inside_two hi y x j i)
  scan_obj-Closed (symbol name x) s r lt e h =
      scan_one x s s.heap (symbol name) r (omega arith) lt (h x (head refl))
        (λ y hi le i. Inside_one hi y i)
  scan_obj-Closed (lisp_array xs) s r lt e h =
      Returns-and_then (λ ys t. Got m v ptr (ptr + 1) below order s ys t)
        (λ _ t. Closed v ptr s.heap t) (relocate_each m xs s) _
        (relocate_each-Got m v ptr (ptr + 1) below order xs s r (omega (arith, lt)) h)
        (λ ys t g.
          let up = g.grown in
          (close-Room (lisp_array ys) t g.room (omega (arith, up, lt)) g.inside, up))
  scan_obj-Closed o s r lt e h = leaf-Closed o s r e refl
