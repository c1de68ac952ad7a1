-- ===== src/Examples/Tables.antt =====
-- `equal` and the hash tables of winsiod/sliba.c on the heap of the reader, with an empty table of
-- two buckets.
use siod.Prelude.{
  ℕ, zero, suc, ◌<◌, ◌≡◌, refl, false, [], ◌∷◌, ◌==◌, get_or, arith, replicate, if◌then◌else◌,
}
use siod.Store.{Ptr, lisp_array, cons, free_cell, State, obj, ok}
use siod.Gc.Sweep.{is_free_cell}
use siod.Alloc.Fresh.{Ready}
use siod.Printer.{print_to_string}
use siod.Reader.{read_from_string}
use siod.Printer.Datum.{Shows}
use siod.Reader.Leaf.{Any}
use siod.Equality.{equal}
use siod.Equality.Href.{assoc, href_index, href, hset}
use siod.Equality.Data.{Ordered, equal-same}
use siod.Equality.Hash.{hash_of, hash_of-lt, href_index-same}
use siod.Equality.Table.{IsAlist, assoc-entry, href-hset}
use siod.Equality.Again.{equal-read_from_string}
use siod.Examples.{machine}
use siod.Examples.Reading.{
  reading, listed, cells_read, listed-Shows, listed-Readable, room, reading-Fit, listed-all,
}

listed-Ordered : Ordered machine listed
listed-Ordered = (tt, (refl, tt))

equal-same_example : equal machine 8 7 7 reading ≡ ok 2 reading
equal-same_example =
    equal-same machine 8 7 7 listed listed reading refl (omega arith) listed-Ordered listed-all
      listed-all

equal-read_from_string_example :
    (u : State) × (q : Ptr) × (v : State) × (print_to_string machine 7 9 0 reading ≡ ok 9 u)
    × (read_from_string machine 9 u ≡ ok q v)
    × (equal machine 20 7 q v ≡ ok v.symbols.sym_t v)
unfolding obj
equal-read_from_string_example =
    equal-read_from_string machine listed 7 9 (replicate 20 0) reading 1 refl refl listed-Shows
      listed-Readable (omega arith) room reading-Fit

-- A table at 15 and an association list at 16, with the list of the reader as a key.
abbrev tabled : State
tabled = record reading {
  cells = λ p.
      if p == 15
      then lisp_array (0 ∷ 0 ∷ [])
      else if p == 16
      then cons 17 0
      else if p == 17
      then cons 7 5
      else get_or cells_read p (free_cell 0);
}

tabled-Shows : Shows Any tabled 7 listed
unfolding obj
tabled-Shows = (tt, (2, 8, refl, (refl, tt, (0, refl)), (tt, (5, 6, refl, (tt, refl), (tt, refl)))))

tabled-Ready : Ready tabled (10 ∷ 11 ∷ 12 ∷ 13 ∷ 14 ∷ [])
unfolding obj
tabled-Ready = record {
  sweeping = refl;
  chain = (
    refl,
    refl,
    (
      11,
      refl,
      (
        refl,
        refl,
        (
          12,
          refl,
          (refl, refl, (13, refl, (refl, refl, (14, refl, (refl, refl, (0, refl, refl)))))),
        ),
      ),
    ),
  );
}

href_index-same_example :
    (k : ℕ) × (href_index machine 15 7 tabled ≡ ok k tabled)
    × (href_index machine 15 7 tabled ≡ ok k tabled)
    × (k < 2)
unfolding obj
href_index-same_example =
    href_index-same machine 15 7 7 listed listed tabled (0 ∷ 0 ∷ []) refl (omega arith)
      (λ x y e. ground arith) (omega arith) (omega arith) tabled-Shows tabled-Shows refl

tabled-IsAlist : IsAlist machine tabled 16 ((17, listed) ∷ [])
unfolding obj
tabled-IsAlist = (0, 7, 5, refl, refl, tabled-Shows, listed-Ordered, omega arith, refl)

assoc-entry_example : assoc machine 7 16 tabled ≡ ok 17 tabled
assoc-entry_example =
    assoc-entry machine 7 16 listed ((17, listed) ∷ []) tabled refl tabled-Shows tabled-IsAlist
      (omega arith)

empty_bucket : (k : ℕ) → k < 2 → IsAlist machine tabled (get_or (0 ∷ 0 ∷ []) k 0) []
empty_bucket zero lt = refl
empty_bucket (suc zero) lt = refl
empty_bucket (suc (suc k)) lt = absurd (omega arith)

href-hset_example :
    (w : State) × (hset machine 15 7 5 tabled ≡ ok 5 w)
    × (href machine 15 7 w ≡ ok 5 w)
    × ((c : Ptr) → is_free_cell (obj tabled c) ≡ false → (c == 15) ≡ false → obj w c ≡ obj tabled c)
unfolding obj
href-hset_example =
    href-hset machine 15 7 7 5 listed [] tabled (0 ∷ 0 ∷ []) refl refl (omega arith) (omega arith)
      listed-Ordered tabled-Shows tabled-Shows
      (empty_bucket (hash_of machine 2 listed) (hash_of-lt machine 2 (omega arith) listed))
      (omega arith) refl tabled-Ready
