-- ===== src/Examples.antt =====
-- A small heap and machine: a list, an association list, an environment, numbers and four free
-- cells. The children run the theorems on it.
mod Memory
mod Errors
mod Exits
mod Names
mod Full
mod Calls
mod Vectors
mod Data
mod Bytes
pub mod Reading
mod Tables
mod Texts
mod Spaces
use siod.Prelude.{
  ℕ, ◌+◌, ◌-◌, ◌*◌, ◌/◌, ◌<◌, ◌≡◌, Bool, true, false, ◌&&◌, none, List, [], ◌∷◌, ◌==◌, ltb, get_or,
  codes, arith, if◌then◌else◌,
}
use siod.Prelude.Int.{ℤ, pos, negsuc}
use siod.Store.{Ptr, Obj, nil, free_cell, cons, flonum, symbol, Frame, Symbols, State, ok}
use siod.Machine.{Double, Machine}
use siod.Gc.Reach.{Has, head, tail}

-- The value of decimal digits.
abbrev value_from : ℕ → List ℕ → ℕ
value_from n [] = n
value_from n (c ∷ cs) = value_from (n * 10 + (c - 48)) cs

abbrev decimal_value : List ℕ → ℕ
decimal_value = value_from 0

-- Natural numbers in place of doubles.
abbrev pub whole_numbers : Double
whole_numbers = record {
  add = λ a b. a + b;
  sub = λ a b. a - b;
  mul = λ a b. a * b;
  div = λ a b. a / b;
  neg = λ a. 0;
  sqrt = λ a. a;
  lt = ltb;
  eq = λ a b. a == b;
  of_long = λ n. elim n [ pos k ↦ k | negsuc k ↦ 0 ];
  to_long = pos;
  to_ulong = λ x. x;
  of_text = decimal_value;
  to_text = λ x. [];
}

abbrev pub machine : Machine
machine = record {
  fuel = 20;
  fatal_exit_hook = none;
  double = whole_numbers;
  saved_registers = λ s. 3 ∷ [];
  stack_words = λ s. 12 ∷ 40 ∷ [];
  gc_stats_line = λ n. [];
  ulong_max = 4294967295;
  bytes_of_longs = λ ns. [];
  pointer_text = λ p. [];
  prin1_hook = λ n. none;
  equal_hook = λ n. none;
  sxhash_hook = λ n. none;
  eval = λ x env. ok x;
  call = λ f args. ok 0;
  call_m = λ f x env. ok (0, x, env);
}

-- The list at 3 holds 1 and 2; that at 5 the pair of 1 and 2; the frame of the environment at 12
-- binds 1 and 2 to themselves.
abbrev pub table : List Obj
table =
    nil
    ∷ symbol (codes "errobj") 0
    ∷ symbol (codes "t") 2
    ∷ cons 1 4
    ∷ cons 2 0
    ∷ cons 6 0
    ∷ cons 1 2
    ∷ free_cell 8
    ∷ free_cell 9
    ∷ free_cell 14
    ∷ flonum 5
    ∷ flonum 6
    ∷ cons 13 0
    ∷ cons 3 3
    ∷ free_cell 0
    ∷ []

abbrev pub names : Symbols
names = record {
  unbound_marker = 0;
  eof_val = 0;
  sym_t = 2;
  sym_errobj = 1;
  sym_catchall = 2;
  sym_progn = 0;
  sym_lambda = 0;
  sym_quote = 0;
  sym_dot = 0;
  sym_after_gc = 0;
  sym_eval_history_ptr = 2;
}

abbrev pub two_frames : List Frame
two_frames = record { tag = 3; retval = 0 } ∷ record { tag = 1; retval = 0 } ∷ []

abbrev pub memory : State
memory = record {
  cells = λ p. get_or table p (free_cell 0);
  marks = λ p. false;
  heaps = true ∷ [];
  heap_size = 14;
  heap = 15;
  heap_end = 15;
  freelist = 7;
  gc_kind_copying = false;
  gc_status_flag = true;
  gc_cells_allocated = 0;
  gc_cells_collected = 0;
  obarray = [];
  oblistvar = 0;
  inums = [];
  symbols = names;
  protected = 5 ∷ [];
  catch_frames = two_frames;
  errjmp_ok = true;
  inside_err = false;
  siod_verbose_level = 4;
  out = [];
}

-- All pointers of a row below a bound.
abbrev pub all_below : ℕ → List ℕ → Bool
all_below n [] = true
all_below n (x ∷ xs) = ltb x n && all_below n xs

pub Has-below : (n : ℕ) (xs : List ℕ) (a : ℕ) → all_below n xs ≡ true → Has a xs → a < n
Has-below n [] a h k = elim k [ ]
Has-below n (x ∷ xs) a h (head e) = ground arith
Has-below n (x ∷ xs) a h (tail k) = Has-below n xs a (ground arith) k
