-- ===== src/Examples/Calls.antt =====
-- A closure is called and an `or` is evaluated, on the small heap.
use siod.Prelude.{◌≡◌, refl, [], ◌∷◌, ◌==◌, if◌then◌else◌, arith}
use siod.Store.{cons, State, obj, ok}
use siod.Machine.{Machine}
use siod.Alloc.Fresh.{Extends-refl}
use siod.Lists.Shape.{IsList}
use siod.Eval.Forms.{leval_or}
use siod.Eval.Calls.{NilRow, leval_or-first}
use siod.Examples.{machine, memory}

-- The code of a closure is at 15: its formals are the list at 3, of 1 and 2, its body is 6. The
-- variable 1 has the value 10, and 2 has 11.
abbrev coded : State
coded = record memory { cells = λ p. if p == 15 then cons 3 6 else memory.cells p }

abbrev variables : Machine
variables = record machine { eval = λ x env. if x == 1 then ok 10 else ok 11 }

-- The form 1 is `NIL`, all else stands for itself: `(or 1 2 6)` is 2.
abbrev choosing : Machine
choosing = record machine { eval = λ x env. if x == 1 then ok 0 else ok x }

abbrev disjunction : State
disjunction = record memory {
  cells = λ p. if p == 16 then cons 0 3 else if p == 4 then cons 2 5 else memory.cells p;
}

or_form : obj disjunction 16 ≡ cons 0 3
unfolding obj
or_form = refl

or_args : IsList disjunction 3 (1 ∷ 2 ∷ 6 ∷ [])
unfolding obj
or_args = (4, refl, (5, refl, (0, refl, refl)))

or_row : NilRow choosing 0 disjunction (1 ∷ []) disjunction
or_row = (disjunction, refl, Extends-refl disjunction, refl)

leval_or-first_example : leval_or choosing 16 0 disjunction ≡ ok (0, 2, 0) disjunction
leval_or-first_example =
    leval_or-first choosing 16 0 3 0 2 6 2 (1 ∷ []) [] disjunction disjunction disjunction or_form
      or_args or_row refl refl (omega arith)
