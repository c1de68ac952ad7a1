-- ===== src/Examples/Data.antt =====
-- The lists and numbers of the small heap.
use siod.Prelude.{zero, suc, ◌≡◌, refl, [], ◌∷◌, arith, ◌==◌, if◌then◌else◌}
use siod.Store.{Ptr, flonum, State, obj, ok}
use siod.Lists.{reverse, nreverse, nconc, assq}
use siod.Lists.Shape.{IsList}
use siod.Lists.Build.{Builds, reverse-Builds}
use siod.Lists.Search.{first_with_key, assq-first}
use siod.Lists.Cells.{ListAt}
use siod.Gc.Reach.{Has, head, tail}
use siod.Lists.Join.{nconc-Relinks}
use siod.Lists.Change.{Relinks, nreverse-Relinks}
use siod.Number.{flocons}
use siod.Number.Small.{CacheIsValid, Number, flocons-Number}
use siod.Examples.{machine, memory}
use siod.Alloc.Fresh.{Ready}
use siod.Examples.Memory.{memory-Ready}

pub three-IsList : IsList memory 3 (1 ∷ 2 ∷ [])
unfolding obj
three-IsList = (4, refl, (0, refl, refl))

five-IsList : IsList memory 5 (6 ∷ [])
unfolding obj
five-IsList = (0, refl, refl)

pub three-ListAt : ListAt memory 3 ((3, 1) ∷ (4, 2) ∷ [])
unfolding obj
three-ListAt = (refl, (4, refl, (refl, (0, refl, refl))))

reverse-Builds_example : Builds memory (reverse machine 3 memory) (2 ∷ 1 ∷ []) (9 ∷ 14 ∷ [])
reverse-Builds_example =
    reverse-Builds machine memory 3 (1 ∷ 2 ∷ []) (7 ∷ 8 ∷ 9 ∷ 14 ∷ []) three-IsList memory-Ready
      (omega arith) (omega arith)

nreverse-Relinks_example :
    Relinks memory (nreverse machine 3 memory) ((3, 1) ∷ (4, 2) ∷ []) ((4, 2) ∷ (3, 1) ∷ [])
nreverse-Relinks_example =
    nreverse-Relinks machine 3 memory ((3, 1) ∷ (4, 2) ∷ []) three-ListAt (omega arith)

five-ListAt : ListAt memory 5 ((5, 6) ∷ [])
unfolding obj
five-ListAt = (refl, (0, refl, refl))

three_five_apart : (x : Ptr) → Has x (3 ∷ 4 ∷ []) → ¬ (Has x (5 ∷ []))
three_five_apart x (head e) (head d) = absurd (omega arith)
three_five_apart x (head e) (tail k) = elim k [ ]
three_five_apart x (tail (head e)) (head d) = absurd (omega arith)
three_five_apart x (tail (head e)) (tail k) = elim k [ ]
three_five_apart x (tail (tail h)) k = elim h [ ]

nconc-Relinks_example :
    Relinks memory (nconc machine 3 5 memory) ((3, 1) ∷ (4, 2) ∷ []) ((3, 1) ∷ (4, 2) ∷ (5, 6) ∷ [])
nconc-Relinks_example =
    nconc-Relinks machine 3 5 3 1 memory ((4, 2) ∷ []) ((5, 6) ∷ []) three-ListAt five-ListAt
      three_five_apart (omega arith)

assq-first_example : assq machine 1 5 memory ≡ ok (first_with_key memory 1 (6 ∷ [])) memory
assq-first_example = assq-first machine 1 5 memory (6 ∷ []) five-IsList (omega arith)

-- With the numbers 0 to 5 in the cache, of which 5 is looked at.
abbrev cached : State
cached = record memory {
  inums = 15 ∷ 10 ∷ [];
  cells = λ p. if p == 15 then flonum 0 else if p == 10 then flonum 1 else memory.cells p;
}

cached-CacheIsValid : CacheIsValid machine cached
unfolding obj
cached-CacheIsValid zero lt = refl
cached-CacheIsValid (suc zero) lt = refl
cached-CacheIsValid (suc (suc k)) lt = absurd (omega arith)

cached-Ready : Ready cached (7 ∷ 8 ∷ 9 ∷ 14 ∷ [])
cached-Ready = record {
  sweeping = refl;
  chain = (
    refl,
    refl,
    (8, refl, (refl, refl, (9, refl, (refl, refl, (14, refl, (refl, refl, (0, refl, refl))))))),
  );
}

cached_six : obj cached 11 ≡ flonum 6
unfolding obj
cached_six = refl

flocons-Number_example : Number machine cached (flocons machine 1 cached) 1 7
flocons-Number_example =
    flocons-Number machine 1 cached 7 (8 ∷ 9 ∷ 14 ∷ []) cached-CacheIsValid cached-Ready
