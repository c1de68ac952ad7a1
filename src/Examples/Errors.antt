-- ===== src/Examples/Errors.antt =====
-- An error is caught, and a lookup, on the small heap.
use siod.Prelude.{inl, inr, ◌≡◌, refl, some, [], ◌∷◌, arith, codes}
use siod.Store.{symbol, State, obj, ok, caught}
use siod.Alloc.Error.{err_bytes, err_parts}
use siod.Alloc.Jump.{Signalled}
use siod.Alloc.Catch.{err_bytes-Signalled}
use siod.Alloc.Leaves.{Leaves, err_bytes-Leaves}
use siod.Alloc.Reports.{Catching}
use siod.Eval.Env.{envlookup}
use siod.Eval.Lookup.{Scope, IsEnv, envlookup-binding}
use siod.Examples.{machine, memory}
use siod.Examples.Memory.{memory-Ready}

pub errobj_is_symbol : obj memory 1 ≡ symbol (codes "errobj") 0
unfolding obj
errobj_is_symbol = refl

err_bytes-Leaves_example :
    Leaves memory (some (codes "no")) 3 0 (err_bytes machine (some (codes "no")) 3 memory)
unfolding err_parts
err_bytes-Leaves_example =
    err_bytes-Leaves machine (some (codes "no")) 3 7 8 (9 ∷ 14 ∷ []) memory (inl refl)
      errobj_is_symbol (inr memory-Ready)

-- The outer frame of the small heap catches the errors.
pub memory-Catching : Catching memory []
memory-Catching = record {
  inner = record { tag = 3; retval = 0 } ∷ [];
  frame = record { tag = 1; retval = 0 };
  split = refl;
  passes = ((ground arith, ground arith), tt);
  handles = inl refl;
  jumps = refl;
  outside = refl;
  name = codes "errobj";
  old = 0;
  bound = errobj_is_symbol;
  free_1 = 7;
  free_2 = 8;
  others = 9 ∷ 14 ∷ [];
  ready = memory-Ready;
}

err_bytes-Signalled_example :
    (t : State) × (err_bytes machine (some (codes "no")) 3 memory ≡ caught 0 t)
    × ((r : Signalled memory t 0 (codes "no") 3) × (t.catch_frames
          ≡ record { tag = 3; retval = 0 } ∷ record { tag = 1; retval = r.value } ∷ []))
err_bytes-Signalled_example =
    err_bytes-Signalled machine (codes "no") 3 memory (record { tag = 3; retval = 0 } ∷ []) []
      (record { tag = 1; retval = 0 }) refl ((ground arith, ground arith), tt) (inl refl) refl refl
      errobj_is_symbol memory-Ready

abbrev pub scope : Scope
scope = ((1 ∷ 2 ∷ [], (3, 1) ∷ (4, 2) ∷ []) ∷ [])

pub memory-IsEnv : IsEnv memory 12 scope
unfolding obj
memory-IsEnv = (
  13,
  0,
  refl,
  record {
    formals = 3;
    actuals = 3;
    pair = refl;
    names = (4, refl, (0, refl, refl));
    values = (refl, (4, refl, (refl, (0, refl, refl))));
    enough = omega arith;
  },
  refl,
)

envlookup-binding_example : envlookup machine 2 12 memory ≡ ok 4 memory
envlookup-binding_example =
    envlookup-binding machine memory 2 12 scope memory-IsEnv (omega arith, tt) (omega arith)
