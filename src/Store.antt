-- ===== src/Store.antt =====
-- winsiod/siod.h and the globals of winsiod/slib.c: cells, their types, the global state, and
-- the runs of C code over it. An address is the number of a cell; `NIL` is 0.
pub mod View
use siod.Prelude.{ℕ, Bool, true, false, Option, List, ◌==◌, if◌then◌else◌}
use siod.Prelude.Int.{ℤ}

abbrev pub Ptr : Type 0
Ptr = ℕ

-- `char *` data, a list of bytes.
abbrev pub Bytes : Type 0
Bytes = List ℕ

-- The bit pattern of a C `double`.
abbrev pub Bits : Type 0
Bits = ℕ

pub data SubrKind : Type 0 where
  subr_0 subr_1 subr_2 subr_3 subr_4 subr_5 subr_2n lsubr fsubr msubr : SubrKind

-- `struct obj` without its mark: the type code with the union's member. `nil` is what `TYPE` sees
-- at `NIL`, and is held by no cell.
pub data Obj : Type 0 where
  nil : Obj
  free_cell : Ptr → Obj
  cons : Ptr → Ptr → Obj
  flonum : Bits → Obj
  symbol : Bytes → Ptr → Obj
  subr : SubrKind → Bytes → ℕ → Obj
  closure : Ptr → Ptr → Obj
  string : Bytes → Obj
  byte_array : Bytes → Obj
  double_array : List Bits → Obj
  long_array : List ℤ → Obj
  lisp_array : List Ptr → Obj
  c_file : Option ℕ → Option Bytes → Obj
  user : ℕ → ℕ → Obj

-- The symbols and markers that `init_storage_1` makes and protects.
pub record Symbols : Type 0 where
  pub unbound_marker : Ptr
  pub eof_val : Ptr
  pub sym_t : Ptr
  pub sym_errobj : Ptr
  pub sym_catchall : Ptr
  pub sym_progn : Ptr
  pub sym_lambda : Ptr
  pub sym_quote : Ptr
  pub sym_dot : Ptr
  pub sym_after_gc : Ptr
  pub sym_eval_history_ptr : Ptr

-- `struct catch_frame`, less the jump buffer.
pub record Frame : Type 0 where
  pub tag : Ptr
  pub retval : Ptr

pub record State : Type 0 where
  pub cells : Ptr → Obj
  pub marks : Ptr → Bool
  pub heaps : List Bool
  pub heap_size : ℕ
  pub heap : Ptr
  pub heap_end : Ptr
  pub freelist : Ptr
  pub gc_kind_copying : Bool
  pub gc_status_flag : Bool
  pub gc_cells_allocated : ℕ
  pub gc_cells_collected : ℕ
  pub obarray : List Ptr
  pub oblistvar : Ptr
  pub inums : List Ptr
  pub symbols : Symbols
  pub protected : List Ptr
  pub catch_frames : List Frame
  pub errjmp_ok : Bool
  pub inside_err : Bool
  pub siod_verbose_level : ℕ
  pub out : List Bytes

-- What `TYPE` and the accessors see at a pointer.
unfoldable pub obj : State → Ptr → Obj
obj s p = if p == 0 then nil else s.cells p

abbrev pub update {ℓ} : {A : Type ℓ} → (Ptr → A) → Ptr → A → Ptr → A
update f p v q = if q == p then v else f q

abbrev pub set_cell : Ptr → Obj → State → State
set_cell p o s = record s { cells = update s.cells p o }

-- How a call of C code ends: it returns, jumps to the catch frame that has so many frames outside
-- it, jumps to `errjmp` with a value, or exits. `fault` is a read that C leaves undefined;
-- `out_of_fuel` means that the bound on the rounds of a loop was met.
pub data Run (A : Type 0) : Type 0 where
  ok : A → State → Run A
  caught : ℕ → State → Run A
  toplevel : ℕ → State → Run A
  exited : State → Run A
  fault : Run A
  out_of_fuel : Run A

abbrev pub Cmd : Type 0 → Type 0
Cmd A = State → Run A

abbrev pub pure : {A : Type 0} → A → Cmd A
pure = ok

module _ {A B : Type 0} where
  abbrev pub and_then : Run A → (A → Cmd B) → Run B
  and_then (ok a s) k = k a s
  and_then (caught n s) k = caught n s
  and_then (toplevel n s) k = toplevel n s
  and_then (exited s) k = exited s
  and_then fault k = fault
  and_then out_of_fuel k = out_of_fuel

  infixl 5 ◌>>=◌ ◌>>◌
  abbrev pub ◌>>=◌ : Cmd A → (A → Cmd B) → Cmd B
  c >>= k = λ s. and_then (c s) k

  abbrev pub ◌>>◌ : Cmd A → Cmd B → Cmd B
  c >> d = c >>= λ _. d

-- The macros, as commands.
abbrev pub view : Ptr → Cmd Obj
view p s = ok (obj s p) s

abbrev pub store : Ptr → Obj → Cmd (Unit {0})
store p o s = ok tt (set_cell p o s)

abbrev pub get : {A : Type 0} → (State → A) → Cmd A
get f s = ok (f s) s

abbrev pub modify : (State → State) → Cmd (Unit {0})
modify f s = ok tt (f s)

abbrev pub get_symbol : (Symbols → Ptr) → Cmd Ptr
get_symbol f s = ok (f s.symbols) s

-- `CONSP`, `SYMBOLP` and `FLONUMP`.
abbrev pub is_cons : Obj → Bool
is_cons (cons a d) = true
is_cons _ = false

abbrev pub is_symbol : Obj → Bool
is_symbol (symbol n v) = true
is_symbol _ = false

abbrev pub is_flonum : Obj → Bool
is_flonum (flonum x) = true
is_flonum _ = false

-- `CAR(p)` and `CDR(p)` with no check: defined at a pair only.
unfoldable pub raw_car : Ptr → Cmd Ptr
raw_car p = do o ← view p; elim o [ cons a d ↦ pure a | _ ↦ (λ _. fault) ]

unfoldable pub raw_cdr : Ptr → Cmd Ptr
raw_cdr p = do o ← view p; elim o [ cons a d ↦ pure d | _ ↦ (λ _. fault) ]

unfoldable pub set_raw_car : Ptr → Ptr → Cmd (Unit {0})
set_raw_car p v = do o ← view p; elim o [ cons a d ↦ store p (cons v d) | _ ↦ (λ _. fault) ]

unfoldable pub set_raw_cdr : Ptr → Ptr → Cmd (Unit {0})
set_raw_cdr p v = do o ← view p; elim o [ cons a d ↦ store p (cons a v) | _ ↦ (λ _. fault) ]
