-- ===== src/Alloc/Catch.antt =====
-- On the frame that `err` of winsiod/slib.c jumps to.
use siod.Prelude.{
  ◌≡◌, ◌∙◌, ap, ◌≢◌, ◌⊎◌, inl, inr, true, false, ◌||◌, some, List, [], ◌∷◌, ◌++◌, ◌==◌, arith,
  length, length-append, All,
}
use siod.Store.{Ptr, Bytes, symbol, Frame, State, obj, caught}
use siod.Machine.{Machine}
use siod.Alloc.Error.{find_frame, set_retval, err_bytes}
use siod.Alloc.Fresh.{Ready}
use siod.Alloc.Jump.{Signalled, err_bytes_caught}

-- The frame stops a jump that looks for one of two tags, or lets it by.
abbrev pub Handles : Ptr → Ptr → Frame → Type 0
Handles tag all f = (f.tag ≡ tag) ⊎ (f.tag ≡ all)

abbrev pub PassesOn : Ptr → Ptr → Frame → Type 0
PassesOn tag all f = (f.tag ≢ tag) × (f.tag ≢ all)

Handles-test :
    (tag all : Ptr) (f : Frame) → Handles tag all f → (f.tag == tag || f.tag == all) ≡ true
Handles-test tag all f (inl e) = ground arith
Handles-test tag all f (inr e) = ground arith

PassesOn-test :
    (tag all : Ptr) (f : Frame) → PassesOn tag all f → (f.tag == tag || f.tag == all) ≡ false
PassesOn-test tag all f (a, b) = ground arith

pub find_frame-innermost :
    (tag all : Ptr) (inner outer : List Frame) (f : Frame)
    → All (PassesOn tag all) inner
    → Handles tag all f
    → find_frame tag all (inner ++ (f ∷ outer)) ≡ some (length outer)
unfolding find_frame
find_frame-innermost tag all [] outer f pass h = rw (Handles-test tag all f h)
find_frame-innermost tag all (g ∷ inner) outer f (p, pass) h =
    rw (PassesOn-test tag all g p) (find_frame-innermost tag all inner outer f pass h)

pub set_retval-frame :
    (v : Ptr) (inner outer : List Frame) (f : Frame)
    → set_retval (length outer) v (inner ++ (f ∷ outer))
      ≡ inner ++ (record f { retval = v } ∷ outer)
unfolding set_retval
set_retval-frame v [] outer f = let e : (length outer == length outer) ≡ true = ground arith in rw e
set_retval-frame v (g ∷ inner) outer f =
    let e : (length (inner ++ (f ∷ outer)) == length outer) ≡ false =
      ground (arith, length-append inner (f ∷ outer)) in
    rw e (ap (λ fs. g ∷ fs) (set_retval-frame v inner outer f))

-- An error with a message, where jumps are allowed, no error is being handled, `errobj` is a symbol,
-- and the free list has two cells, jumps to a frame with the tag `errobj` or `all` inside which no
-- other frame has one of these tags. The frame returns a new pair of the message and the object, the
-- other frames are as before, `errobj` is bound to the object, no other cell in use is changed, and
-- the handling is over.
pub err_bytes-Signalled :
    (m : Machine) (msg : Bytes) (x : Ptr) (s : State) (inner outer : List Frame) (f : Frame)
    {p q : Ptr} {xs : List Ptr} {name : Bytes} {old : Ptr}
    → s.catch_frames ≡ inner ++ (f ∷ outer)
    → All (PassesOn s.symbols.sym_errobj s.symbols.sym_catchall) inner
    → Handles s.symbols.sym_errobj s.symbols.sym_catchall f
    → s.errjmp_ok ≡ true
    → s.inside_err ≡ false
    → obj s s.symbols.sym_errobj ≡ symbol name old
    → Ready s (p ∷ q ∷ xs)
    → (t : State) × (err_bytes m (some msg) x s ≡ caught (length outer) t)
      × ((r : Signalled s t (length outer) msg x) × (t.catch_frames
            ≡ inner ++ (record f { retval = r.value } ∷ outer)))
err_bytes-Signalled m msg x s inner outer f e pass h jumps out bound r =
    let found =
      ap (find_frame s.symbols.sym_errobj s.symbols.sym_catchall) e
      ∙ find_frame-innermost s.symbols.sym_errobj s.symbols.sym_catchall inner outer f pass h in
    let (t, g, w) = err_bytes_caught m msg x s (length outer) found jumps out bound r in
    (
      t,
      g,
      (
        w,
        w.frames
            ∙ ap (set_retval (length outer) w.value) e
            ∙ set_retval-frame w.value inner outer f,
      ),
    )
