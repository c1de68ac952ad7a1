-- ===== src/Examples/Exits.antt =====
-- A `catch` whose body throws or fails, on the small heap.
use siod.Prelude.{◌≡◌, refl, inl, some, [], ◌∷◌, ◌==◌, if◌then◌else◌, codes}
use siod.Store.{cons, symbol, State, obj, ok}
use siod.Machine.{Machine}
use siod.Alloc.Error.{
  find_frame, set_retval, err_bytes, err_with, leave, print_error, err_parts, set_vcell, signal,
  frame_value, jump_to,
}
use siod.Alloc.{newcell, take_free}
use siod.Alloc.Fresh.{Ready}
use siod.Alloc.Jump.{Signalled}
use siod.Lists.{car, cdr}
use siod.Eval.Control.{leval_catch_1, leval_row, leval_catch, lthrow}
use siod.Eval.Catch.{inside, catch_body, leval_catch-lthrow, leval_catch-err_bytes}
use siod.Examples.{machine, memory}
use siod.Examples.Memory.{memory-Ready}

-- The form 2 throws 9 to the tag 1.
abbrev throwing : Machine
throwing = record machine { eval = λ x env. if x == 2 then lthrow machine 1 9 else ok x }

three_is_pair : obj memory 3 ≡ cons 1 4
unfolding obj
three_is_pair = refl

throwing_body : catch_body throwing 3 0 (inside memory 1) ≡ lthrow throwing 1 9 (inside memory 1)
unfolding obj car cdr leval_catch_1 leval_row lthrow find_frame set_retval
throwing_body = refl

leval_catch-lthrow_example : leval_catch throwing 3 0 memory ≡ ok 9 memory
leval_catch-lthrow_example =
    leval_catch-lthrow throwing 3 0 1 4 1 1 9 memory memory (inside memory 1) [] three_is_pair refl
      throwing_body refl tt (inl refl)

-- The form 2 fails.
abbrev failing : Machine
failing = record machine {
  eval = λ x env. if x == 2 then err_bytes machine (some (codes "no")) 3 else ok x;
}

failing_body :
    catch_body failing 3 0 (inside memory 1)
    ≡ err_bytes failing (some (codes "no")) 3 (inside memory 1)
unfolding obj car cdr leval_catch_1 leval_row err_bytes err_with leave print_error err_parts
    set_vcell signal find_frame frame_value jump_to newcell take_free
failing_body = refl

errobj_inside : obj (inside memory 1) 1 ≡ symbol (codes "errobj") 0
unfolding obj
errobj_inside = refl

inside-Ready : Ready (inside memory 1) (7 ∷ 8 ∷ 9 ∷ 14 ∷ [])
inside-Ready = record { sweeping = refl; chain = memory-Ready.chain }

leval_catch-err_bytes_example :
    (u : State) × ((r : Signalled (inside memory 1) u 2 (codes "no") 3) × (leval_catch failing 3 0
          memory
        ≡ ok r.value (record u { catch_frames = memory.catch_frames })))
leval_catch-err_bytes_example =
    leval_catch-err_bytes failing 3 0 1 4 1 (codes "no") 3 memory memory (inside memory 1) []
      three_is_pair refl failing_body refl tt (inl refl) refl refl errobj_inside inside-Ready
