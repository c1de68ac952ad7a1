-- ===== src/Alloc/Reports.antt =====
-- On errors of winsiod/slib.c where a frame would catch them.
use siod.Prelude.{ℕ, ◌≡◌, refl, true, false, List, ◌∷◌, ◌++◌, length, All, String, codes}
use siod.Store.{Ptr, Bytes, Frame, State, Run, caught, obj, symbol}
use siod.Machine.{Machine}
use siod.Alloc.Error.{err, fail}
use siod.Alloc.Fresh.{Ready}
use siod.Alloc.Jump.{Signalled}
use siod.Alloc.Catch.{Handles, PassesOn, err_bytes-Signalled}

-- An error would be caught by a frame, with these frames outside it: jumps are allowed, no error is
-- being handled, `errobj` is a symbol, and two cells are free.
pub record Catching (s : State) (outer : List Frame) : Type 0 where
  pub inner : List Frame
  pub frame : Frame
  pub split : s.catch_frames ≡ inner ++ (frame ∷ outer)
  pub passes : All (PassesOn s.symbols.sym_errobj s.symbols.sym_catchall) inner
  pub handles : Handles s.symbols.sym_errobj s.symbols.sym_catchall frame
  pub jumps : s.errjmp_ok ≡ true
  pub outside : s.inside_err ≡ false
  pub name : Bytes
  pub old : Ptr
  pub bound : obj s s.symbols.sym_errobj ≡ symbol name old
  pub free_1 : Ptr
  pub free_2 : Ptr
  pub others : List Ptr
  pub ready : Ready s (free_1 ∷ free_2 ∷ others)

-- The run is the error with this message and object, caught by the frame with so many outside it.
pub record Reports {A : Type 0} (s : State) (n : ℕ) (message : Bytes) (x : Ptr) (run : Run A)
    : Type 0 where
  pub end : State
  pub jump : run ≡ caught n end
  pub signalled : Signalled s end n message x

pub fail-Reports :
    {A : Type 0} (m : Machine) (message : String) (x : Ptr) (s : State) (outer : List Frame)
    → Catching s outer
    → Reports s (length outer) (codes message) x (fail {A = A} m message x s)
unfolding fail err
fail-Reports m message x s outer c =
    let (t, e, (w, frames)) =
      err_bytes-Signalled m (codes message) x s c.inner outer c.frame c.split c.passes c.handles
        c.jumps c.outside c.bound c.ready in
    record { end = t; jump = rw e refl; signalled = w }
