-- ===== src/Eval/Catch.antt =====
-- On `leval_catch` and `lthrow` of winsiod/slib.c, and `err` inside a `catch`.
use siod.Prelude.{
  ◌≡◌, refl, ◌∙◌, ap, true, false, some, List, [], ◌∷◌, ◌++◌, ◌==◌, arith, length, length-append,
  All,
}
use siod.Store.{Ptr, Bytes, cons, symbol, Frame, State, obj, ok, caught, Cmd, ◌>>=◌}
use siod.Machine.{Machine}
use siod.Alloc.Error.{find_frame, set_retval, err_bytes}
use siod.Alloc.Fresh.{Ready}
use siod.Alloc.Jump.{Signalled}
use siod.Alloc.Catch.{
  Handles, PassesOn, find_frame-innermost, set_retval-frame, err_bytes-Signalled,
}
use siod.Lists.{cdr}
use siod.Lists.Shape.{car-cons}
use siod.Eval.Control.{leval_catch_1, frames_from, land, leval_catch, lthrow}

frames_from-frame :
    (m : Machine) (inner outer : List Frame) (f : Frame)
    → frames_from m (length outer) (inner ++ (f ∷ outer)) ≡ f ∷ outer
unfolding frames_from
frames_from-frame m [] outer f =
    let e : (length outer == length outer) ≡ true = ground arith in rw e
frames_from-frame m (g ∷ inner) outer f =
    let e : (length (inner ++ (f ∷ outer)) == length outer) ≡ false =
      ground (arith, length-append inner (f ∷ outer)) in
    rw e (frames_from-frame m inner outer f)

-- A jump to the frame of a `catch` ends there, with the value that was left for it.
land-frame :
    (m : Machine) (t : State) (inner outer : List Frame) (f : Frame)
    → t.catch_frames ≡ inner ++ (f ∷ outer)
    → land m (length outer) (caught (length outer) t)
      ≡ ok f.retval (record t { catch_frames = outer })
unfolding land
land-frame m t inner outer f e =
    let same : (length outer == length outer) ≡ true = ground arith in
    let there : frames_from m (length outer) t.catch_frames ≡ f ∷ outer =
      ap (frames_from m (length outer)) e ∙ frames_from-frame m inner outer f in
    rw (same, there)

lthrow-frame :
    (m : Machine) (tag value : Ptr) (t : State) (inner outer : List Frame) (f : Frame)
    → t.catch_frames ≡ inner ++ (f ∷ outer)
    → All (PassesOn tag t.symbols.sym_catchall) inner
    → Handles tag t.symbols.sym_catchall f
    → lthrow m tag value t
      ≡ caught
          (length outer)
          (record t { catch_frames = inner ++ (record f { retval = value } ∷ outer) })
unfolding lthrow
lthrow-frame m tag value t inner outer f e pass h =
    let found =
      ap (find_frame tag t.symbols.sym_catchall) e
      ∙ find_frame-innermost tag t.symbols.sym_catchall inner outer f pass h in
    let frames = ap (set_retval (length outer) value) e ∙ set_retval-frame value inner outer f in
    rw (found, lthrow) (ap (λ fs. caught (length outer) (record t { catch_frames = fs })) frames)

-- The state in which the body of a `catch` starts.
abbrev pub inside : State → Ptr → State
inside s tag = record s { catch_frames = record { tag = tag; retval = 0 } ∷ s.catch_frames }

-- The body of a `catch`.
abbrev pub catch_body : Machine → Ptr → Ptr → Cmd Ptr
catch_body m args env = do forms ← cdr m args; leval_catch_1 m forms env

catch_run :
    (m : Machine) (args env form rest tag : Ptr) (s s1 : State)
    → obj s args ≡ cons form rest
    → m.eval form env s ≡ ok tag s1
    → leval_catch m args env s
      ≡ land m (length s1.catch_frames) (catch_body m args env (inside s1 tag))
unfolding leval_catch
catch_run m args env form rest tag s s1 e v = rw (car-cons m s args e, v)

-- Where the tag of a `catch` is evaluated to `tag`, and its body runs up to a `throw` with a tag for
-- which the innermost frame is the one of this `catch`, the `catch` returns the thrown value, with
-- the frames that were there before it and the rest of the state as the `throw` found it.
pub leval_catch-lthrow :
    (m : Machine) (args env form rest tag thrown value : Ptr) (s s1 t : State) (inner : List Frame)
    → obj s args ≡ cons form rest
    → m.eval form env s ≡ ok tag s1
    → catch_body m args env (inside s1 tag) ≡ lthrow m thrown value t
    → t.catch_frames ≡ inner ++ (record { tag = tag; retval = 0 } ∷ s1.catch_frames)
    → All (PassesOn thrown t.symbols.sym_catchall) inner
    → Handles thrown t.symbols.sym_catchall (record { tag = tag; retval = 0 })
    → leval_catch m args env s ≡ ok value (record t { catch_frames = s1.catch_frames })
leval_catch-lthrow m args env form rest tag thrown value s s1 t inner e v body frames pass h =
    let f : Frame = record { tag = tag; retval = 0 } in
    let g : Frame = record { tag = tag; retval = value } in
    let u = record t { catch_frames = inner ++ (g ∷ s1.catch_frames) } in
    catch_run m args env form rest tag s s1 e v
    ∙ ap (land m (length s1.catch_frames))
        (body ∙ lthrow-frame m thrown value t inner s1.catch_frames f frames pass h)
    ∙ land-frame m u inner s1.catch_frames g refl

-- Where the tag of a `catch` is evaluated to `errobj` or `all`, and its body runs up to an error with
-- a message for which the innermost frame is the one of this `catch`, while jumps are allowed, no
-- error is being handled, `errobj` is a symbol and the free list has two cells, the `catch` returns
-- a new pair of the message and the object, with the frames that were there before it.
pub leval_catch-err_bytes :
    (m : Machine) (args env form rest tag : Ptr) (msg : Bytes) (x : Ptr) (s s1 t : State)
    (inner : List Frame) {p q : Ptr} {xs : List Ptr} {name : Bytes} {old : Ptr}
    → obj s args ≡ cons form rest
    → m.eval form env s ≡ ok tag s1
    → catch_body m args env (inside s1 tag) ≡ err_bytes m (some msg) x t
    → t.catch_frames ≡ inner ++ (record { tag = tag; retval = 0 } ∷ s1.catch_frames)
    → All (PassesOn t.symbols.sym_errobj t.symbols.sym_catchall) inner
    → Handles t.symbols.sym_errobj t.symbols.sym_catchall (record { tag = tag; retval = 0 })
    → t.errjmp_ok ≡ true
    → t.inside_err ≡ false
    → obj t t.symbols.sym_errobj ≡ symbol name old
    → Ready t (p ∷ q ∷ xs)
    → (u : State) × ((r : Signalled t u (length s1.catch_frames) msg x) × (leval_catch m args env s
          ≡ ok r.value (record u { catch_frames = s1.catch_frames })))
leval_catch-err_bytes m args env form rest tag msg x s s1 t inner e v body frames pass h jumps out
      bound ready =
    let f : Frame = record { tag = tag; retval = 0 } in
    let (u, run, (r, after)) =
      err_bytes-Signalled m msg x t inner s1.catch_frames f frames pass h jumps out bound ready in
    (
      u,
      (
        r,
        catch_run m args env form rest tag s s1 e v
            ∙ ap (land m (length s1.catch_frames)) (body ∙ run)
            ∙ land-frame m u inner s1.catch_frames (record { tag = tag; retval = r.value }) after,
      ),
    )
