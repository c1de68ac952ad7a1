-- ===== src/Printer/Into.antt =====
-- On `pts_puts` and `print_to_string` of winsiod/sliba.c.
use siod.Prelude.{
  ℕ, suc, ◌+◌, ◌-◌, ◌≤◌, ◌≡◌, refl, sym, ◌∙◌, ap, true, false, List, [], ◌∷◌, ◌++◌, ◌==◌, leb,
  if◌then◌else◌, arith, subst, length, length-append, set, All, Bool-cases, inl, inr,
}
use mathlib.Core.Path.{fun_ext}
use mathlib.Core.List.{append_assoc, append-nil}
use siod.Store.{
  Ptr, Bytes, Obj, string, State, obj, Run, ok, caught, toplevel, exited, fault, out_of_fuel,
  set_cell, and_then, update,
}
use siod.Store.View.{obj_set_self, obj_set_other, string-ne_nil}
use siod.Machine.{Machine}
use siod.Alloc.{c_str}
use siod.Alloc.Error.{fail, err}
use siod.Printer.{write_over, write_at_end, pts_puts, lprin1g, print_to_string}
use siod.Printer.Datum.{Datum, empty, number, name, text, pair, Shows, Shows-Same, size, chunks}
use siod.Printer.Refinement.{emit, Keeps, lprin1g-chunks}

-- A byte of a C string.
abbrev pub IsChar : ℕ → Type 0
IsChar c = (c == 0) ≡ false

abbrev pub join : List Bytes → Bytes
join [] = []
join (c ∷ cs) = c ++ join cs

abbrev pub Apart : Ptr → Ptr → Type 0
Apart into a = (a == into) ≡ false

All-split : (xs ys : Bytes) → All IsChar (xs ++ ys) → All IsChar xs × All IsChar ys
All-split [] ys h = (tt, h)
All-split (x ∷ xs) ys (k, h) = let (a, b) = All-split xs ys h in ((k, a), b)

c_str-write_over :
    (cs b : Bytes)
    → All IsChar cs
    → length cs ≤ length b
    → (c_str (write_over cs b) ≡ cs) × (length (write_over cs b) ≡ length b)
unfolding c_str write_over
c_str-write_over [] [] h le = (refl, refl)
c_str-write_over [] (x ∷ b) h le = (refl, refl)
c_str-write_over (c ∷ cs) [] h le = absurd (omega arith)
c_str-write_over (c ∷ cs) (x ∷ b) (k, h) le =
    let (e, l) = c_str-write_over cs b h (omega arith) in (rw k (ap (λ w. c ∷ w) e), ap suc l)

c_str-write_at_end :
    (b from : Bytes)
    → All IsChar from
    → length (c_str b) + length from ≤ length b
    → (c_str (write_at_end b from) ≡ c_str b ++ from) × (length (write_at_end b from) ≡ length b)
unfolding c_str write_at_end write_over
c_str-write_at_end [] [] h le = (refl, refl)
c_str-write_at_end [] (c ∷ cs) h le = absurd (omega arith)
c_str-write_at_end (x ∷ b) from h le = elim (Bool-cases (x == 0)) [
  | inl e ↦
      let small : length from ≤ length (x ∷ b) = ground arith in
      rw e (c_str-write_over from (x ∷ b) h small)
  | inr e ↦
      let fits : length (c_str b) + length from ≤ length b = ground arith in
      let (same, l) = c_str-write_at_end b from h fits in rw (e, e) (ap (λ w. x ∷ w) same, ap suc l)
]

module _ (m : Machine) (into : Ptr) where
  -- The bytes of a string cell.
  abbrev bytes_of : Obj → Bytes
  bytes_of (string b) = b
  bytes_of _ = []

  fail-no_ok :
      (s u : State) → ¬ (◌≡◌ {A = Run (Unit {0})} (fail m "print to string overflow" 0 s) (ok tt u))
  unfolding fail
  fail-no_ok s u = go (err m "print to string overflow" 0 s)
    where
      go : (r : Run Ptr) → ¬ (◌≡◌ {A = Run (Unit {0})} (and_then r (λ _ _. fault)) (ok tt u))
      go (ok x t) h = absurd (ground arith)
      go (caught n t) h = absurd (ground arith)
      go (toplevel n t) h = absurd (ground arith)
      go (exited t) h = absurd (ground arith)
      go fault h = absurd (ground arith)
      go out_of_fuel h = absurd (ground arith)

  -- What a put leaves, if it returns.
  pts_puts_ok :
      (from : Bytes) (s u : State)
      → pts_puts m into from s ≡ ok tt u
      → u ≡ set_cell into (string (write_at_end (bytes_of (obj s into)) from)) s
  unfolding pts_puts
  pts_puts_ok from s u e =
      ground
        (arith, fail-no_ok (set_cell into (string (write_at_end (bytes_of (obj s into)) from)) s) u)

  pub pts_puts-Keeps : Keeps (pts_puts m into) (Apart into)
  pts_puts-Keeps b s u e a apart =
      ap (λ t. obj t a) (pts_puts_ok b s u e) ∙ obj_set_other s into a (string _) apart

  pts_puts_run :
      (b from : Bytes) (s : State)
      → obj s into ≡ string b
      → length (c_str b) + length from ≤ length b
      → pts_puts m into from s ≡ ok tt (set_cell into (string (write_at_end b from)) s)
  unfolding pts_puts
  pts_puts_run b from s e le =
      let fits : leb (length from) (length b - length (c_str b)) ≡ true = ground arith in
      rw (e, fits, pts_puts)

  set_cell_twice : (a b : Obj) (s : State) → set_cell into b (set_cell into a s) ≡ set_cell into b s
  set_cell_twice a b s = ap (λ f. record s { cells = f }) (fun_ext (λ q. again q))
    where
      again : (q : Ptr) → update (update s.cells into a) into b q ≡ update s.cells into b q
      again q = ground arith

  -- Texts that fit are put behind what the string holds.
  pts_emit :
      (c : Bytes) (cs : List Bytes) (b : Bytes) (s : State)
      → obj s into ≡ string b
      → All IsChar (join (c ∷ cs))
      → length (c_str b) + length (join (c ∷ cs)) ≤ length b
      → (w : Bytes) × (emit (pts_puts m into) (c ∷ cs) s ≡ ok tt (set_cell into (string w) s))
        × (c_str w ≡ c_str b ++ join (c ∷ cs))
        × (length w ≡ length b)
  pts_emit c [] b s e h le =
      let whole = append-nil c in
      let room = ap length whole in
      let (hc, hs) = All-split c [] h in
      let (said, same) = c_str-write_at_end b c hc (omega (arith, room)) in
      (
        write_at_end b c,
        rw (pts_puts_run b c s e (omega (arith, room))),
        said ∙ ap (λ x. c_str b ++ x) (sym whole),
        same,
      )
  pts_emit c (d ∷ cs) b s e h le =
      let (hc, hs) = All-split c (join (d ∷ cs)) h in
      let room = length-append c (join (d ∷ cs)) in
      let (put, same) = c_str-write_at_end b c hc (omega (arith, room)) in
      let b' = write_at_end b c in
      let t = set_cell into (string b') s in
      let left = ap length put ∙ length-append (c_str b) c in
      let (w, run, said, l) =
        pts_emit d cs b' t (obj_set_self s into (string b') (string-ne_nil s into e)) hs
          (omega (arith, left, room, same)) in
      (
        w,
        rw (pts_puts_run b c s e (omega (arith, room)))
            (run ∙ ap (ok tt) (set_cell_twice (string b') (string w) s)),
        said ∙ ap (λ x. x ++ join (d ∷ cs)) put ∙ append_assoc (c_str b) c (join (d ∷ cs)),
        l ∙ same,
      )

chunks-cons : (m : Machine) (t : Datum) → (c : Bytes) × (cs : List Bytes) × (chunks m t ≡ c ∷ cs)
unfolding chunks
chunks-cons m empty = (_, _, refl)
chunks-cons m (number x) = (_, _, refl)
chunks-cons m (name q b) = (_, _, refl)
chunks-cons m (text b) = (_, _, refl)
chunks-cons m (pair a d) = (_, _, refl)

-- What the string holds before the printing starts.
abbrev begun : Ptr → Bytes → Bytes
begun nostart b = if nostart == 0 then set b 0 0 else b

begun_lem :
    (nostart : Ptr) (b : Bytes)
    → (c_str (begun nostart b) ≡ (if nostart == 0 then [] else c_str b))
      × (length (begun nostart b) ≡ length b)
unfolding c_str
begun_lem nostart [] = ground arith
begun_lem nostart (x ∷ b) = ground arith

module _ (m : Machine) (p str nostart : Ptr) (b : Bytes) (s : State) where
  print_to_string_run :
      (u : State)
      → obj s str ≡ string b
      → lprin1g m (pts_puts m str) m.fuel p (set_cell str (string (begun nostart b)) s) ≡ ok tt u
      → print_to_string m p str nostart s ≡ ok str u
  unfolding print_to_string
  print_to_string_run u e run = rw (e, print_to_string) (rw run refl)

  -- `print_to_string` into a string with room for the text, without NUL, of data of numbers, symbols,
  -- texts and pairs that does not hold the string itself, with enough rounds: it returns the string,
  -- which then has the text, behind what it held if that is to be kept, and keeps its length; nothing
  -- else is changed.
  pub print_to_string-join :
      (t : Datum)
      → obj s str ≡ string b
      → Shows (Apart str) s p t
      → size t ≤ m.fuel
      → All IsChar (join (chunks m t))
      → length (if nostart == 0 then [] else c_str b) + length (join (chunks m t)) ≤ length b
      → (w : Bytes) × (print_to_string m p str nostart s ≡ ok str (set_cell str (string w) s))
        × (c_str w ≡ (if nostart == 0 then [] else c_str b) ++ join (chunks m t))
        × (length w ≡ length b)
  print_to_string-join t e shows fuel h le =
      let (c, cs, at) = chunks-cons m t in
      let (start, same) = begun_lem nostart b in
      let b0 = begun nostart b in
      let s0 = set_cell str (string b0) s in
      let kept : Shows (Apart str) s0 p t =
        Shows-Same (Apart str) s s0 p t (λ a x. obj_set_other s str a (string b0) x) shows in
      let room : length (c_str b0) + length (join (c ∷ cs)) ≤ length b0 =
        omega (arith, ap length start, ap (λ x. length (join x)) at, same) in
      let (w, run, said, l) =
        pts_emit m str c cs b0 s0 (obj_set_self s str (string b0) (string-ne_nil s str e))
          (subst (λ x. All IsChar (join x)) at h) room in
      let printed =
        lprin1g-chunks m (pts_puts m str) (Apart str) m.fuel t p s0 (pts_puts-Keeps m str) fuel kept
        ∙ ap (λ x. emit (pts_puts m str) x s0) at
        ∙ run
        ∙ ap (ok tt) (set_cell_twice m str (string b0) (string w) s) in
      (
        w,
        print_to_string_run (set_cell str (string w) s) e printed,
        said ∙ ap (λ x. c_str b0 ++ join x) (sym at) ∙ ap (λ x. x ++ join (chunks m t)) start,
        l ∙ same,
      )
