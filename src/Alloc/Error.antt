-- ===== src/Alloc/Error.antt =====
-- `err` of winsiod/slib.c, and the operations that allocate or fail through it.
use siod.Prelude.{
  ℕ, Bool, true, false, ◌||◌, not, Option, none, some, List, [], ◌∷◌, ◌++◌, ◌==◌, ltb, leb,
  if◌then◌else◌, length, take, codes, String,
}
use siod.Store.{
  Ptr, Bytes, Obj, cons, symbol, string, Frame, State, obj, ok, caught, toplevel, exited, fault,
  Cmd, pure, and_then, ◌>>=◌, store,
}
use siod.Machine.{Machine}
use siod.Alloc.{c_str, newcell}

-- The message, the error object and the value for the frame that `err` starts from.
unfoldable pub err_parts : State → Option Bytes → Ptr → Option Bytes × Ptr × Ptr
err_parts s (some message) x = (some message, x, 0)
err_parts s none x = elim (obj s x) [
  | cons a d ↦ elim (obj s a) [ string b ↦ (some (c_str b), d, x) | _ ↦ (none, x, 0) ]
  | _ ↦ (none, x, 0)
]

unfoldable pub try_get_c_string : State → Ptr → Option Bytes
try_get_c_string s x = elim (obj s x) [
  | symbol name v ↦ some name
  | string b ↦ some (c_str b)
  | _ ↦ none
]

-- The line that `sprintf_s` leaves in a buffer of 512 bytes. An error object is shown if it is a
-- text of less than 80 bytes.
unfoldable pub err_text : State → Bytes → Ptr → Bytes
err_text s msg nx =
    let see = codes " (see errobj)\n" in
    let tail = if nx == 0 then codes "\n" else elim (try_get_c_string s nx) [
      | none ↦ see
      | some eobj ↦ if ltb (length eobj) 80 then codes " (errobj " ++ (eobj ++ codes ")\n") else see
    ] in
    take 511 (codes "ERROR: " ++ (msg ++ tail))

-- The innermost frame with one of two tags, by the number of frames outside it.
unfoldable pub find_frame : Ptr → Ptr → List Frame → Option ℕ
find_frame tag all [] = none
find_frame tag all (f ∷ fs) =
    if f.tag == tag || f.tag == all then some (length fs) else find_frame tag all fs

unfoldable pub set_retval : ℕ → Ptr → List Frame → List Frame
set_retval n v [] = []
set_retval n v (f ∷ fs) =
    if length fs == n then record f { retval = v } ∷ fs else f ∷ set_retval n v fs

-- `VCELL (sym) = val`
unfoldable pub set_vcell : Ptr → Ptr → Cmd (Unit {0})
set_vcell p v s = elim (obj s p) [ symbol name old ↦ store p (symbol name v) s | _ ↦ fault ]

unfoldable pub print_error : Option Bytes → Ptr → State → State
print_error none nx s = s
print_error (some msg) nx s = record s {
  out = if leb 1 s.siod_verbose_level then err_text s msg nx ∷ s.out else s.out;
}

-- `longjmp` to a frame, with the value that it returns.
unfoldable pub jump_to : ℕ → Ptr → Cmd Ptr
jump_to n v s =
    caught n (record s { catch_frames = set_retval n v s.catch_frames; inside_err = false })

unfoldable pub quit_text : Option Bytes → Bytes
quit_text none = codes "quit"
quit_text (some msg) = msg

-- The value for the frame: the list that was signalled, or a new pair of the message and the
-- object. `fatal` is the error of an allocation in it.
unfoldable pub frame_value : Machine → Cmd Ptr → Bool → Option Bytes → Ptr → Ptr → Cmd Ptr
frame_value m fatal was_inside msg nx retval =
    if not (retval == 0)
    then pure retval
    else if was_inside
    then pure 0
    else do st ← newcell m fatal (string (quit_text msg)); newcell m fatal (cons st nx)

-- The loop over the frames and the jump to `errjmp`.
unfoldable pub signal : Machine → Cmd Ptr → Bool → Option Bytes → Ptr → Ptr → Cmd Ptr
signal m fatal was_inside msg nx retval s =
    elim (find_frame s.symbols.sym_errobj s.symbols.sym_catchall s.catch_frames) [
      | none ↦ toplevel (elim msg [ none ↦ 2 | some b ↦ 1 ]) (record s { inside_err = false })
      | some n ↦ and_then (frame_value m fatal was_inside msg nx retval s) (λ v. jump_to n v)
    ]

abbrev pub fatal_message : State → State
fatal_message s = record s {
  out =
      if leb 1 s.siod_verbose_level
      then codes "FATAL ERROR DURING STARTUP OR CRITICAL CODE SECTION\n" ∷ s.out
      else s.out;
}

-- The end of `err` where no jump is allowed: the hook, after which `err` returns `NIL`, or `exit`.
unfoldable pub fatal_exit : Machine → Cmd Ptr
fatal_exit m s = elim m.fatal_exit_hook [
  | none ↦ exited s
  | some hook ↦ and_then (hook s) (λ _. pure 0)
]

-- What `err` does after the message.
unfoldable pub leave : Machine → Cmd Ptr → Bool → Option Bytes → Ptr → Ptr → Cmd Ptr
leave m fatal was_inside msg nx retval s =
    if s.errjmp_ok
    then and_then (set_vcell s.symbols.sym_errobj nx (record s { inside_err = true }))
        (λ _. signal m fatal was_inside msg nx retval)
    else fatal_exit m (fatal_message s)

-- `err`, with the `err` that the allocations inside it call.
unfoldable pub err_with : Machine → Cmd Ptr → Option Bytes → Ptr → Cmd Ptr
err_with m fatal message x s =
    let (msg, nx, retval) = err_parts s message x in
    leave m fatal s.inside_err msg nx retval (print_error msg nx s)

abbrev pub out_of_storage : Option Bytes
out_of_storage = some (codes "ran out of storage")

-- `gc_fatal_error` inside `err`: the third call in a row is never made.
unfoldable pub inner_fatal : Machine → Cmd Ptr
inner_fatal m = err_with m (λ _. fault) out_of_storage 0

unfoldable pub gc_fatal_error : Machine → Cmd Ptr
gc_fatal_error m = err_with m (inner_fatal m) out_of_storage 0

unfoldable pub err_bytes : Machine → Option Bytes → Ptr → Cmd Ptr
err_bytes m message x = err_with m (inner_fatal m) message x

unfoldable pub err : Machine → String → Ptr → Cmd Ptr
err m message x = err_bytes m (some (codes message)) x

-- An error of a caller that is not followed where `err` returns, which takes a `fatal_exit_hook`
-- that returns.
unfoldable pub fail : {A : Type 0} → Machine → String → Ptr → Cmd A
fail m message x s = and_then (err m message x s) (λ _ _. fault)

-- The error of a failed `STACK_CHECK`.
unfoldable pub err_stack : {A : Type 0} → Machine → Cmd A
err_stack m = fail m "the currently assigned stack limit has been exceded" 0

unfoldable pub alloc : Machine → Obj → Cmd Ptr
alloc m o = newcell m (gc_fatal_error m) o

unfoldable pub cons_cell : Machine → Ptr → Ptr → Cmd Ptr
cons_cell m x y = alloc m (cons x y)

unfoldable pub strcons : Machine → Bytes → Cmd Ptr
strcons m b = alloc m (string b)

unfoldable pub get_c_string : Machine → Ptr → Cmd Bytes
get_c_string m x s = elim (try_get_c_string s x) [
  | none ↦ fail m "not a symbol or string" x s
  | some b ↦ ok b s
]
