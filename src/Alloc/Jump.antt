-- ===== src/Alloc/Jump.antt =====
-- On the jump of `err` of winsiod/slib.c to a frame.
use siod.Prelude.{
  ℕ, ◌≡◌, refl, ◌∙◌, ap, Bool, true, false, Option, some, List, ◌∷◌, ◌==◌, String, codes,
}
use siod.Store.{
  Ptr, Bytes, cons, string, symbol, State, obj, set_cell, Run, ok, caught, toplevel, exited, fault,
  out_of_fuel, and_then, Cmd,
}
use siod.Store.View.{symbol-ne_nil, obj_set_self, obj_set_other, same_obj}
use siod.Machine.{Machine}
use siod.Gc.Sweep.{is_free_cell}
use siod.Alloc.Fresh.{Ready, Ready-set_cell, newcell-Fresh, Extends, Extends-trans}
use siod.Alloc.Error.{
  err_with, leave, err_parts, print_error, set_vcell, signal, find_frame, set_retval, jump_to,
  frame_value, quit_text, err_bytes, err, fail, inner_fatal,
}

-- A run that is not a return.
abbrev pub NoReturn : {A : Type 0} → Run A → Type 0
NoReturn (ok a s) = ⊥
NoReturn _ = Unit

pub and_then-NoReturn :
    {A B : Type 0} (r : Run A) (k : A → Cmd B)
    → ((a : A) (s : State) → NoReturn (k a s))
    → NoReturn (and_then r k)
and_then-NoReturn (ok a s) k h = h a s
and_then-NoReturn (caught n s) k h = tt
and_then-NoReturn (toplevel n s) k h = tt
and_then-NoReturn (exited s) k h = tt
and_then-NoReturn fault k h = tt
and_then-NoReturn out_of_fuel k h = tt

-- What follows a call that does not return is not run.
pub NoReturn-and_then : {A : Type 0} (r : Run A) (k : A → Cmd A) → NoReturn r → and_then r k ≡ r
NoReturn-and_then (ok a s) k h = elim h [ ]
NoReturn-and_then (caught n s) k h = refl
NoReturn-and_then (toplevel n s) k h = refl
NoReturn-and_then (exited s) k h = refl
NoReturn-and_then fault k h = refl
NoReturn-and_then out_of_fuel k h = refl

pub leave_jumps :
    (m : Machine) (f : Cmd Ptr) (w : Bool) (msg : Option Bytes) (nx rv : Ptr) (s : State)
    → s.errjmp_ok ≡ true
    → leave m f w msg nx rv s
      ≡ and_then
          (set_vcell s.symbols.sym_errobj nx (record s { inside_err = true }))
          (λ _. signal m f w msg nx rv)
unfolding leave
leave_jumps m f w msg nx rv s e = simp e

pub fail-NoReturn :
    (A : Type 0) (m : Machine) (message : String) (x : Ptr) (s : State)
    → NoReturn (fail {A = A} m message x s)
unfolding fail err
fail-NoReturn A m message x s =
    and_then-NoReturn (err_bytes m (some (codes message)) x s) (λ _ _. fault) (λ _ _. tt)

-- What a caught error leaves: the frame that catches it returns a new pair of the message and the
-- object, `errobj` is bound to the object, and every other cell in use is as it was.
pub record Signalled (s t : State) (n : ℕ) (msg : Bytes) (x : Ptr) : Type 0 where
  pub text : Ptr
  pub value : Ptr
  pub text_holds : obj t text ≡ string msg
  pub value_holds : obj t value ≡ cons text x
  pub frames : t.catch_frames ≡ set_retval n value s.catch_frames
  pub errobj : (name : Bytes) × (obj t s.symbols.sym_errobj ≡ symbol name x)
  pub others :
      (a : Ptr)
      → is_free_cell (obj s a) ≡ false
      → (a == s.symbols.sym_errobj) ≡ false
      → obj t a ≡ obj s a
  pub outside : t.inside_err ≡ false

pub frame_value_new :
    (m : Machine) (f : Cmd Ptr) (msg : Bytes) (x p q : Ptr) (xs : List Ptr) (s : State)
    → Ready s (p ∷ q ∷ xs)
    → (t : State) × (frame_value m f false (some msg) x 0 s ≡ ok q t)
      × (obj t p ≡ string msg)
      × (obj t q ≡ cons p x)
      × Extends s t
      × (t.catch_frames ≡ s.catch_frames)
unfolding frame_value quit_text
frame_value_new m f msg x p q xs s r =
    let (t, e, a) = newcell-Fresh m f (string msg) s r in
    let (u, g, b) = newcell-Fresh m f (cons p x) t a.ready in
    (
      u,
      rw (e, g),
      b.extends p (ap is_free_cell a.holds) ∙ a.holds,
      b.holds,
      Extends-trans s t u a.extends b.extends,
      b.same_frames ∙ a.same_frames,
    )

pub set_vcell_run :
    (s : State) (p v : Ptr) {name : Bytes} {old : Ptr}
    → obj s p ≡ symbol name old
    → set_vcell p v s ≡ ok tt (set_cell p (symbol name v) s)
unfolding set_vcell
set_vcell_run s p v e = rw (e, set_vcell)

pub signal_run :
    (m : Machine) (f : Cmd Ptr) (w : Bool) (msg : Option Bytes) (nx rv v : Ptr) (s t : State)
    (n : ℕ)
    → find_frame s.symbols.sym_errobj s.symbols.sym_catchall s.catch_frames ≡ some n
    → frame_value m f w msg nx rv s ≡ ok v t
    → signal m f w msg nx rv s ≡ jump_to n v t
unfolding signal
signal_run m f w msg nx rv v s t n e g = rw (e, g, signal)

-- The state after `print_error`, with `inside_err` set; then with `errobj` bound.
abbrev printed : State → Bytes → Ptr → State
printed s msg x = record (print_error (some msg) x s) { inside_err = true }

err_bytes_run :
    (m : Machine) (msg : Bytes) (x v : Ptr) (s t : State) (n : ℕ) {name : Bytes} {old : Ptr}
    → find_frame s.symbols.sym_errobj s.symbols.sym_catchall s.catch_frames ≡ some n
    → s.errjmp_ok ≡ true
    → s.inside_err ≡ false
    → obj s s.symbols.sym_errobj ≡ symbol name old
    → frame_value m
        (inner_fatal m)
        false
        (some msg)
        x
        0
        (set_cell s.symbols.sym_errobj (symbol name x) (printed s msg x))
      ≡ ok v t
    → err_bytes m (some msg) x s ≡ jump_to n v t
unfolding err_bytes err_with err_parts print_error
err_bytes_run m msg x v s t n {name} found jumps outer bound e =
    ap (λ w. leave m (inner_fatal m) w (some msg) x 0 (print_error (some msg) x s)) outer
    ∙ leave_jumps m (inner_fatal m) false (some msg) x 0 (print_error (some msg) x s) jumps
    ∙ ap (λ r. and_then r (λ _. signal m (inner_fatal m) false (some msg) x 0))
        (set_vcell_run (printed s msg x) s.symbols.sym_errobj x
          (same_obj (printed s msg x) s s.symbols.sym_errobj refl ∙ bound))
    ∙ signal_run m (inner_fatal m) false (some msg) x 0 v
        (set_cell s.symbols.sym_errobj (symbol name x) (printed s msg x)) t n found e

-- With the frame that `find_frame` finds.
pub err_bytes_caught :
    (m : Machine) (msg : Bytes) (x : Ptr) (s : State) (n : ℕ) {p q : Ptr} {xs : List Ptr}
    {name : Bytes} {old : Ptr}
    → find_frame s.symbols.sym_errobj s.symbols.sym_catchall s.catch_frames ≡ some n
    → s.errjmp_ok ≡ true
    → s.inside_err ≡ false
    → obj s s.symbols.sym_errobj ≡ symbol name old
    → Ready s (p ∷ q ∷ xs)
    → (t : State) × (err_bytes m (some msg) x s ≡ caught n t) × Signalled s t n msg x
unfolding jump_to print_error
err_bytes_caught m msg x s n {p} {q} {xs} {name} {old} found jumps outer bound r =
    let errobj = s.symbols.sym_errobj in
    let s1 = printed s msg x in
    let s2 = set_cell errobj (symbol name x) s1 in
    let bound1 : obj s1 errobj ≡ symbol name old = same_obj s1 s errobj refl ∙ bound in
    let r1 : Ready s1 (p ∷ q ∷ xs) = record { sweeping = r.sweeping; chain = r.chain } in
    let r2 = Ready-set_cell s1 errobj (symbol name x) (p ∷ q ∷ xs) (ap is_free_cell bound1) r1 in
    let (t, e, tp, tq, ext, fr) = frame_value_new m (inner_fatal m) msg x p q xs s2 r2 in
    let bound2 : obj s2 errobj ≡ symbol name x =
      obj_set_self s1 errobj (symbol name x) (symbol-ne_nil s1 errobj bound1) in
    (
      record t { catch_frames = set_retval n q t.catch_frames; inside_err = false },
      err_bytes_run m msg x q s t n found jumps outer bound e,
      record {
        text = p;
        value = q;
        text_holds = same_obj _ t p refl ∙ tp;
        value_holds = same_obj _ t q refl ∙ tq;
        frames = ap (set_retval n q) fr;
        errobj = (name, same_obj _ t errobj refl ∙ ext errobj (ap is_free_cell bound2) ∙ bound2);
        others = λ a used other.
            let at : obj s2 a ≡ obj s a =
              obj_set_other s1 errobj a (symbol name x) other ∙ same_obj s1 s a refl in
            same_obj _ t a refl ∙ ext a (ap is_free_cell at ∙ used) ∙ at;
        outside = refl;
      },
    )
