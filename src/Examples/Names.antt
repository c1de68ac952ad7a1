-- ===== src/Examples/Names.antt =====
-- An environment is extended and assigned to, and a name is interned, on the small heap.
use siod.Prelude.{ℕ, zero, suc, ◌<◌, ◌≤◌, length, get_or, ◌≡◌, refl, [], ◌∷◌, arith, codes}
use siod.Store.{Ptr, State, obj, ok}
use siod.Alloc.Fresh.{Ready, Extends}
use siod.Eval.Env.{extend_env, setvar}
use siod.Eval.Extend.{Extended, extend_env-Extended}
use siod.Eval.Assign.{Assigned, target, setvar-Assigned}
use siod.Symbols.{gen_intern}
use siod.Symbols.Intern.{Names, Bucket}
use siod.Symbols.Table.{SymbolTable, Placed, gen_intern-SymbolTable}
use siod.Symbols.Once.{Interned, gen_intern-Interned}
use siod.Examples.{machine, memory}
use siod.Examples.Memory.{memory-Ready}
use siod.Examples.Errors.{scope, memory-IsEnv, errobj_is_symbol}
use siod.Examples.Data.{three-IsList, three-ListAt}

extend_env-Extended_example :
    (t : State) × (extend_env machine 3 3 12 memory ≡ ok 8 t)
    × Extended memory t 8 ((1 ∷ 2 ∷ [], (3, 1) ∷ (4, 2) ∷ []) ∷ scope) (9 ∷ 14 ∷ [])
extend_env-Extended_example =
    extend_env-Extended machine 3 3 12 memory (1 ∷ 2 ∷ []) ((3, 1) ∷ (4, 2) ∷ []) scope three-IsList
      three-ListAt (omega arith) memory-IsEnv memory-Ready

setvar-Assigned_example :
    (t : State) × (setvar machine 1 10 12 memory ≡ ok 10 t) × Assigned memory t (target 1 scope) 10
setvar-Assigned_example =
    setvar-Assigned machine memory 1 10 12 scope errobj_is_symbol memory-IsEnv (omega arith, tt)
      (omega arith)

-- Two buckets, both with the two symbols.
abbrev hashed : State
hashed = record memory { obarray = 3 ∷ 3 ∷ [] }

hashed-Bucket : Bucket hashed 3 ((1, codes "errobj") ∷ (2, codes "t") ∷ [])
unfolding obj
hashed-Bucket = (4, 0, refl, refl, (0, 2, refl, refl, refl))

hashed-Ready : Ready hashed (7 ∷ 8 ∷ 9 ∷ 14 ∷ [])
hashed-Ready = record { sweeping = refl; chain = memory-Ready.chain }

gen_intern-Interned_example :
    Interned machine (codes "car") hashed (gen_intern machine (codes "car") hashed)
gen_intern-Interned_example =
    gen_intern-Interned machine (codes "car") hashed ((1, codes "errobj") ∷ (2, codes "t") ∷ [])
      hashed-Bucket (omega arith) hashed-Ready

-- Two buckets without symbols.
abbrev bare : State
bare = record memory { obarray = 0 ∷ 0 ∷ [] }

bare-Ready : Ready bare (7 ∷ 8 ∷ 9 ∷ 14 ∷ [])
bare-Ready = record { sweeping = refl; chain = memory-Ready.chain }

bare-SymbolTable : SymbolTable bare 0
bare-SymbolTable = record { hashed = refl; bucket = at }
  where
    at :
        (i : ℕ)
        → i < 2
        → (ns : Names) × Bucket bare (get_or (0 ∷ 0 ∷ []) i 0) ns × Placed 2 i ns × (length ns ≤ 0)
    at zero lt = ([], refl, tt, omega arith)
    at (suc zero) lt = ([], refl, tt, omega arith)
    at (suc (suc i)) lt = absurd (omega arith)

gen_intern-SymbolTable_example :
    (a : Ptr) × (t : State) × (gen_intern machine (codes "car") bare ≡ ok a t)
    × SymbolTable t 1
    × Extends bare t
gen_intern-SymbolTable_example =
    gen_intern-SymbolTable machine (codes "car") bare 0 bare-SymbolTable (omega arith) bare-Ready
