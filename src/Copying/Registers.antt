-- ===== src/Copying/Registers.antt =====
-- On `scan_registers` of winsiod/slib.c, which moves what the protected locations hold.
use siod.Prelude.{
  ℕ, zero, suc, ◌+◌, ◌≤◌, ◌≡◌, refl, ◌∙◌, sym, ap, subst, true, List, [], ◌∷◌, arith, get_or, map,
}
use siod.Store.{Ptr, Symbols, State, Cmd, and_then}
use siod.Machine.{Machine}
use siod.Gc.Reach.{head, tail}
use siod.Copying.{symbols_of, list_symbols, gc_relocate, relocate_each, scan_registers}
use siod.Copying.Room.{Globals, globals, AllWithin, within, Spaces, Room, Returns, Returns-and_then}
use siod.Copying.Moves.{within_most, Got, gc_relocate-Got, relocate_each-Got}

-- The protected locations point into a space.
pub record Registers (lo hi : ℕ) (s : State) : Type 0 where
  pub oblist : within lo hi s.oblistvar ≡ true
  pub names : AllWithin lo hi (list_symbols s)
  pub buckets : AllWithin lo hi s.obarray
  pub numbers : AllWithin lo hi s.inums
  pub others : AllWithin lo hi s.protected

more :
    (new : ℕ) (xs ys : List Ptr) (hi hi' : ℕ)
    → ys ≡ xs
    → hi ≤ hi'
    → AllWithin new hi xs
    → AllWithin new hi' ys
more new xs ys hi hi' e le h =
    subst (AllWithin new hi') (sym e) (λ c k. within_most new hi hi' c le (h c k))

-- The locations stay as they are, and the space grows.
pub Registers-grown :
    (new : ℕ) (s t : State)
    → globals t ≡ globals s
    → s.heap ≤ t.heap
    → Registers new s.heap s
    → Registers new t.heap t
Registers-grown new s t e le r = record {
  oblist =
      subst (λ z. within new t.heap z ≡ true) (sym (ap (λ z. z.0) e))
        (within_most new s.heap t.heap s.oblistvar le r.oblist);
  names = more new (list_symbols s) (list_symbols t) s.heap t.heap (ap (λ z. z.1) e) le r.names;
  buckets = more new s.obarray t.obarray s.heap t.heap (ap (λ z. z.2) e) le r.buckets;
  numbers = more new s.inums t.inums s.heap t.heap (ap (λ z. z.3) e) le r.numbers;
  others = more new s.protected t.protected s.heap t.heap (ap (λ z. z.4) e) le r.others;
}

module _ (m : Machine) (v : Spaces) (any : (g : Globals) → v.fixed g) where
  abbrev pub Started : State → Type 0
  Started t = Room v v.new v.new t

  -- A write to a global leaves the spaces as they are.
  written :
      (s : State) (o : Ptr) (y : Symbols) (b i p : List Ptr)
      → Started s
      → Started (record s { oblistvar = o; symbols = y; obarray = b; inums = i; protected = p })
  written s o y b i p r = record {
    same = any _;
    ends = r.ends;
    room = r.room;
    bottom = r.bottom;
    here = r.here;
    moved = r.moved;
    done = r.done;
    waits = r.waits;
  }

  abbrev Moved : State → List Ptr → State → Type 0
  Moved s ys t = Got m v v.new v.new (omega arith) (omega arith) s ys t

  -- All protected locations point into the new space.
  abbrev pub Ready : State → Type 0
  Ready t = Started t × Registers v.new t.heap t

  row :
      (xs xs' : List Ptr) (s : State) (k : List Ptr → Cmd (Unit {0}))
      → Started s
      → xs ≡ xs'
      → AllWithin v.lo (v.lo + v.k) xs'
      → ((ys : List Ptr) (t : State) → Moved s ys t → Returns (λ _ u. Ready u) (k ys t))
      → Returns (λ _ u. Ready u) (and_then (relocate_each m xs s) k)
  row xs xs' s k r e h next =
      Returns-and_then (λ ys t. Moved s ys t) (λ _ u. Ready u) (relocate_each m xs s) k
        (relocate_each-Got m v v.new v.new (omega arith) (omega arith) xs s r r.bottom
          (subst (AllWithin v.lo (v.lo + v.k)) (sym e) h))
        next

  get_or-within :
      (xs : List Ptr) (i hi : ℕ) → AllWithin v.new hi xs → within v.new hi (get_or xs i 0) ≡ true
  get_or-within [] i hi h = refl
  get_or-within (x ∷ xs) zero hi h = h x (head refl)
  get_or-within (x ∷ xs) (suc i) hi h = get_or-within xs i hi (λ c k. h c (tail k))

  symbols-within :
      (xs is : List ℕ) (hi : ℕ)
      → AllWithin v.new hi xs
      → AllWithin v.new hi (map (λ i. get_or xs i 0) is)
  symbols-within xs [] hi h c k = elim k [ ]
  symbols-within xs (i ∷ is) hi h c (head e) =
      subst (λ z. within v.new hi z ≡ true) e (get_or-within xs i hi h)
  symbols-within xs (i ∷ is) hi h c (tail k) = symbols-within xs is hi h c k

  -- What the rows have given, in the state after the last one.
  gather :
      (a : Ptr) (b c d l : List Ptr) (t u w x y : State)
      → within v.new t.heap a ≡ true
      → Moved (record t { oblistvar = a }) b u
      → Moved (record u { symbols = symbols_of b }) c w
      → Moved (record w { obarray = c }) d x
      → Moved (record x { inums = d }) l y
      → Registers v.new y.heap (record y { protected = l })
  unfolding symbols_of
  gather a b c d l t u w x y h p q f last = record {
    oblist =
        subst (λ z. within v.new y.heap z ≡ true)
          (sym (
            ap (λ z. z.0) last.same
            ∙ (ap (λ z. z.0) f.same ∙ (ap (λ z. z.0) q.same ∙ ap (λ z. z.0) p.same))))
          (within_most v.new t.heap y.heap a
            (let l1 = p.grown in
              let l2 = q.grown in
              let l3 = f.grown in let l4 = last.grown in omega (arith, l1, l2, l3, l4))
            h);
    names =
        more v.new (list_symbols (record u { symbols = symbols_of b })) (list_symbols y) u.heap
          y.heap (ap (λ z. z.1) last.same ∙ (ap (λ z. z.1) f.same ∙ ap (λ z. z.1) q.same))
          (let l2 = q.grown in let l3 = f.grown in let l4 = last.grown in omega (arith, l2, l3, l4))
          (symbols-within b (0 ∷ 1 ∷ 2 ∷ 3 ∷ 4 ∷ 5 ∷ 6 ∷ 7 ∷ 8 ∷ 9 ∷ 10 ∷ []) u.heap p.inside);
    buckets =
        more v.new c y.obarray w.heap y.heap (ap (λ z. z.2) last.same ∙ ap (λ z. z.2) f.same)
          (let l3 = f.grown in let l4 = last.grown in omega (arith, l3, l4)) q.inside;
    numbers = more v.new d y.inums x.heap y.heap (ap (λ z. z.3) last.same) last.grown f.inside;
    others = last.inside;
  }

  pub scan_registers-Ready :
      (s : State)
      → Started s
      → Registers v.lo (v.lo + v.k) s
      → Returns (λ _ t. Ready t) (scan_registers m s)
  unfolding scan_registers
  scan_registers-Ready s r regs =
      Returns-and_then (λ y t. Moved s (y ∷ []) t) (λ _ u. Ready u) (gc_relocate m s.oblistvar s) _
        (gc_relocate-Got m v v.new v.new (omega arith) (omega arith) s.oblistvar s r r.bottom
          regs.oblist)
        (λ a t g.
          let t' = record t { oblistvar = a } in
          row (list_symbols t') (list_symbols s) t' _
            (written t a t.symbols t.obarray t.inums t.protected g.room) (ap (λ w. w.1) g.same)
            regs.names
            (λ b u p.
              let u' = record u { symbols = symbols_of b } in
              let from_u : u.obarray ≡ s.obarray = ap (λ w. w.2) p.same ∙ ap (λ w. w.2) g.same in
              row u'.obarray s.obarray u' _
                (written u u.oblistvar (symbols_of b) u.obarray u.inums u.protected p.room) from_u
                regs.buckets
                (λ c w q.
                  let w' = record w { obarray = c } in
                  let from_w : w.inums ≡ s.inums =
                    ap (λ z. z.3) q.same ∙ (ap (λ z. z.3) p.same ∙ ap (λ z. z.3) g.same) in
                  row w'.inums s.inums w' _
                    (written w w.oblistvar w.symbols c w.inums w.protected q.room) from_w
                    regs.numbers
                    (λ d x f.
                      let x' = record x { inums = d } in
                      let from_x : x.protected ≡ s.protected =
                        ap (λ z. z.4) f.same
                        ∙ (ap (λ z. z.4) q.same ∙ (ap (λ z. z.4) p.same ∙ ap (λ z. z.4) g.same)) in
                      row x'.protected s.protected x' _
                        (written x x.oblistvar x.symbols x.obarray d x.protected f.room) from_x
                        regs.others
                        (λ l y last. (
                          written y y.oblistvar y.symbols y.obarray y.inums l last.room,
                          gather a b c d l t u w x y (g.inside a (head refl)) p q f last,
                        ))))))
