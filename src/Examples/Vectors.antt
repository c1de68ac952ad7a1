-- ===== src/Examples/Vectors.antt =====
-- A lisp array of two entries, put beside the cells of the small heap.
use siod.Prelude.{◌≡◌, refl, [], ◌∷◌, ◌==◌, if◌then◌else◌, arith, inl, codes}
use siod.Store.{lisp_array, flonum, State, obj, ok}
use siod.Alloc.Reports.{Catching, Reports}
use siod.Arrays.{aref1, aset1}
use siod.Arrays.Access.{IsIndex, Stored, aset1-Stored, access-Reports}
use siod.Examples.{machine, memory}
use siod.Examples.Memory.{memory-Ready}

abbrev vector : State
vector = record memory {
  cells = λ p.
      if p == 15 then lisp_array (1 ∷ 2 ∷ []) else if p == 16 then flonum 1 else memory.cells p;
}

vector_holds : obj vector 15 ≡ lisp_array (1 ∷ 2 ∷ [])
unfolding obj
vector_holds = refl

one-IsIndex : IsIndex machine vector 16 1
unfolding obj
one-IsIndex = record { bits = 1; number = refl; whole = refl }

five-IsIndex : IsIndex machine vector 10 5
unfolding obj
five-IsIndex = record { bits = 5; number = refl; whole = refl }

aset1-Stored_example :
    (t : State) × (aset1 machine 15 16 3 vector ≡ ok 3 t)
    × Stored machine 15 (1 ∷ 2 ∷ []) 1 3 vector t
aset1-Stored_example =
    aset1-Stored machine 15 16 1 3 vector (1 ∷ 2 ∷ []) vector_holds one-IsIndex (omega arith)

vector-Catching : Catching vector []
unfolding obj
vector-Catching = record {
  inner = record { tag = 3; retval = 0 } ∷ [];
  frame = record { tag = 1; retval = 0 };
  split = refl;
  passes = ((ground arith, ground arith), tt);
  handles = inl refl;
  jumps = refl;
  outside = refl;
  name = codes "errobj";
  old = 0;
  bound = refl;
  free_1 = 7;
  free_2 = 8;
  others = 9 ∷ 14 ∷ [];
  ready = record { sweeping = refl; chain = memory-Ready.chain };
}

access-Reports_example :
    Reports vector 0 (codes "index too large") 10 (aref1 machine 15 10 vector)
    × Reports vector 0 (codes "index to aset too large") 10 (aset1 machine 15 10 3 vector)
access-Reports_example =
    access-Reports machine 15 10 5 3 vector (1 ∷ 2 ∷ []) [] vector_holds five-IsIndex (omega arith)
      vector-Catching
