-- ===== src/Machine.antt =====
-- What the C code uses of the outside: the arithmetic of `double`, the words of the C stack, the
-- functions behind a subr, and the evaluator as the collector calls it back.
use siod.Prelude.{ℕ, Bool, List, Option}
use siod.Prelude.Int.{ℤ}
use siod.Store.{Ptr, Bytes, Bits, State, Cmd}

-- `double`, with the conversions from and to `long`, `unsigned long` and text.
pub record Double : Type 0 where
  pub add : Bits → Bits → Bits
  pub sub : Bits → Bits → Bits
  pub mul : Bits → Bits → Bits
  pub div : Bits → Bits → Bits
  pub neg : Bits → Bits
  pub sqrt : Bits → Bits
  pub lt : Bits → Bits → Bool
  pub eq : Bits → Bits → Bool
  pub of_long : ℤ → Bits
  pub to_long : Bits → ℤ
  pub to_ulong : Bits → ℕ
  -- `atof`, and `sprintf` of `%g`.
  pub of_text : Bytes → Bits
  pub to_text : Bits → Bytes

pub record Machine : Type 0 where
  -- The bound on the rounds of each loop and on the depth of each recursion.
  pub fuel : ℕ
  pub double : Double
  -- What `set_fatal_exit_hook` has set, if anything.
  pub fatal_exit_hook : Option (Cmd (Unit {0}))
  -- The words that a conservative scan meets: the saved registers and the stack.
  pub saved_registers : State → List Ptr
  pub stack_words : State → List Ptr
  -- The line of `gc_ms_stats_end`, which holds a time.
  pub gc_stats_line : ℕ → Bytes
  -- `ULONG_MAX`, the bytes of a row of `long` in memory, and `sprintf` of `%p`.
  pub ulong_max : ℕ
  pub bytes_of_longs : List ℤ → Bytes
  pub pointer_text : ℕ → Bytes
  -- The print functions that `set_print_hooks` has set for the types of extensions.
  pub prin1_hook : ℕ → Option (Ptr → (Bytes → Cmd (Unit {0})) → Cmd (Unit {0}))
  -- The functions that `set_user_type_hooks` has set to compare and to hash.
  pub equal_hook : ℕ → Option (Ptr → Ptr → Cmd Ptr)
  pub sxhash_hook : ℕ → Option (Ptr → ℕ → Cmd ℕ)
  -- `leval (x, env)`.
  pub eval : Ptr → Ptr → Cmd Ptr
  -- A call through the function pointer of a subr, and through that of an msubr, which returns
  -- its value with the new form and environment.
  pub call : ℕ → List Ptr → Cmd Ptr
  pub call_m : ℕ → Ptr → Ptr → Cmd (Ptr × Ptr × Ptr)
