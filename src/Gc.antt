-- ===== src/Gc.antt =====
-- The mark phase of the collector of winsiod/slib.c (`gc_mark`) and `array_gc_mark` of
-- winsiod/sliba.c. The C recursion is bounded by fuel.
pub mod Reach
pub mod Marking
pub mod Sweep
pub mod Sweeping
pub mod Collect
pub mod Safety
use siod.Prelude.{ℕ, zero, suc, Bool, true, Option, none, some, List, [], ◌∷◌, ◌==◌, if◌then◌else◌}
use siod.Store.{Ptr, Obj, cons, symbol, closure, lisp_array, State, obj, update}

abbrev pub Marks : Type 0
Marks = Ptr → Bool

-- A row of pointers is marked in order. `array_gc_mark` does so with the entries of a lisp array.
unfoldable pub mark_each : (Ptr → Marks → Option Marks) → List Ptr → Marks → Option Marks
mark_each mark [] m = some m
mark_each mark (p ∷ ps) m = elim (mark p m) [ none ↦ none | some n ↦ mark_each mark ps n ]

-- The pointers that `gc_mark` follows from an object, in its order.
abbrev pub children : Obj → List Ptr
children (cons a d) = a ∷ d ∷ []
children (symbol name v) = v ∷ []
children (closure env code) = code ∷ env ∷ []
children (lisp_array xs) = xs
children _ = []

-- `none` means that the fuel, a bound on the depth of the C calls, was met. The rest of the state
-- is read only.
unfoldable pub gc_mark : State → ℕ → Ptr → Marks → Option Marks
unfolding mark_each
gc_mark s zero p m = none
gc_mark s (suc f) p m =
    let rest = mark_each (gc_mark s f) (children (obj s p)) (update m p true) in
    if p == 0 then some m else if m p then some m else rest
