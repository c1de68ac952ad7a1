-- ===== src/Examples/Spaces.antt =====
-- A copying collection of a heap of two spaces of four cells: a list, and a symbol that is not
-- reached.
use siod.Prelude.{
  ℕ, zero, suc, ◌+◌, ◌<◌, ◌≡◌, refl, Bool, true, ◌&&◌, List, [], ◌∷◌, arith, subst, inl, get_or,
  codes,
}
use siod.Store.{Ptr, nil, free_cell, cons, symbol, State}
use siod.Gc.Reach.{head, tail}
use siod.Copying.{list_symbols, gc_stop_and_copy, get_newspace}
use siod.Copying.Room.{within, Inside, Returns, AllWithin}
use siod.Copying.Ends.{Ended, gc_stop_and_copy-Ended}
use siod.Copying.Copied.{Orderly, Compact, gc_stop_and_copy-Compact}
use siod.Examples.{machine, names, memory}

abbrev row_within : ℕ → ℕ → List Ptr → Bool
row_within lo hi [] = true
row_within lo hi (x ∷ xs) = within lo hi x && row_within lo hi xs

row_within-AllWithin : (lo hi : ℕ) (xs : List Ptr) → row_within lo hi xs ≡ true → AllWithin lo hi xs
row_within-AllWithin lo hi [] h c k = elim k [ ]
row_within-AllWithin lo hi (x ∷ xs) h c (head e) =
    subst (λ z. within lo hi z ≡ true) e (ground arith)
row_within-AllWithin lo hi (x ∷ xs) h c (tail k) = row_within-AllWithin lo hi xs (ground arith) c k

abbrev two_spaces : State
two_spaces = record memory {
  cells = λ p.
      get_or (nil ∷ cons 3 2 ∷ cons 3 0 ∷ symbol (codes "t") 3 ∷ symbol (codes "u") 1 ∷ []) p
        (free_cell 0);
  heaps = true ∷ true ∷ [];
  heap_size = 4;
  heap = 5;
  heap_end = 5;
  freelist = 0;
  gc_kind_copying = true;
  oblistvar = 1;
  symbols = record names { sym_t = 3; sym_errobj = 3; sym_catchall = 0; sym_eval_history_ptr = 0 };
  protected = 2 ∷ [];
}

two_spaces-Inside : (q : ℕ) → q < 4 → Inside 1 5 (two_spaces.cells (1 + q))
two_spaces-Inside zero lt = row_within-AllWithin 1 5 (3 ∷ 2 ∷ []) refl
two_spaces-Inside (suc zero) lt = row_within-AllWithin 1 5 (3 ∷ 0 ∷ []) refl
two_spaces-Inside (suc (suc zero)) lt = row_within-AllWithin 1 5 (3 ∷ []) refl
two_spaces-Inside (suc (suc (suc zero))) lt = row_within-AllWithin 1 5 (1 ∷ []) refl
two_spaces-Inside (suc (suc (suc (suc q)))) lt = (let no : ⊥ = omega (arith, lt) in elim no [ ])

two_spaces-Orderly : Orderly two_spaces 1 4 5
two_spaces-Orderly = record {
  spaces = inl (refl, refl);
  end = refl;
  heap = refl;
  enough = omega arith;
  clear = λ q lt. refl;
  cells = two_spaces-Inside;
  registers = record {
    oblist = refl;
    names = row_within-AllWithin 1 5 (list_symbols two_spaces) refl;
    buckets = row_within-AllWithin 1 5 [] refl;
    numbers = row_within-AllWithin 1 5 [] refl;
    others = row_within-AllWithin 1 5 (2 ∷ []) refl;
  };
}

gc_stop_and_copy-Compact_example :
    Returns (λ _ t. Compact two_spaces 4 5 t) (gc_stop_and_copy machine two_spaces)
gc_stop_and_copy-Compact_example =
    gc_stop_and_copy-Compact machine two_spaces 1 4 5 two_spaces-Orderly

gc_stop_and_copy-Ended_example : Ended 5 4 (gc_stop_and_copy machine two_spaces)
unfolding get_newspace
gc_stop_and_copy-Ended_example = gc_stop_and_copy-Ended machine refl two_spaces
