-- ===== src/Alloc/Leaves.antt =====
-- On the ways in which `err` of winsiod/slib.c leaves its caller.
use siod.Prelude.{
  ◌≡◌, refl, ◌∙◌, sym, subst, ap, ◌⊎◌, inl, inr, Bool, true, false, ◌||◌, Option, none, some, List,
  [], ◌∷◌, ◌++◌, ◌==◌, arith, length, All, Bool-cases, codes,
}
use siod.Store.{
  Ptr, Bytes, Frame, State, Run, ok, caught, toplevel, exited, obj, symbol, string, cons, set_cell,
  Cmd, and_then,
}
use siod.Store.View.{same_obj, symbol-ne_nil, obj_set_self}
use siod.Machine.{Machine}
use siod.Gc.Sweep.{is_free_cell}
use siod.Alloc.Error.{
  find_frame, set_retval, err_bytes, err_with, err_parts, print_error, leave, signal, jump_to,
  frame_value, quit_text, fatal_exit, fatal_message, inner_fatal,
}
use siod.Alloc.Fresh.{Ready, Ready-set_cell, newcell-Fresh, Extends, Extends-refl, Extends-trans}
use siod.Alloc.Jump.{leave_jumps, set_vcell_run, signal_run}
use siod.Alloc.Catch.{Handles, PassesOn, find_frame-innermost, set_retval-frame}

-- The value that a frame gets: the list that was signalled, `NIL` where an error is being handled,
-- or a new pair of the message, "quit" if there is none, and the object.
pub data Value (t : State) (was_inside : Bool) (msg : Option Bytes) (nx rv v : Ptr) : Type 0 where
  signalled : (rv == 0) ≡ false → v ≡ rv → Value t was_inside msg nx rv v
  nested : (rv == 0) ≡ true → was_inside ≡ true → v ≡ 0 → Value t was_inside msg nx rv v
  new_pair :
      (text : Ptr)
      → (rv == 0) ≡ true
      → was_inside ≡ false
      → obj t text ≡ string (elim msg [ none ↦ codes "quit" | some b ↦ b ])
      → obj t v ≡ cons text nx
      → Value t was_inside msg nx rv v

-- How a call of `err` ends: with a jump to the innermost frame with the tag `errobj` or `all`, which
-- gets a value; with a jump to `errjmp` if there is no such frame; or with the end of the program
-- where no jump is allowed.
-- In both jumps `errobj` is bound to the object, and the handling is over.
pub data Leaves (s : State) (msg : Option Bytes) (nx rv : Ptr) : Run Ptr → Type 0 where
  to_frame :
      (inner outer : List Frame) (f : Frame) (v : Ptr) {t : State}
      → s.errjmp_ok ≡ true
      → s.catch_frames ≡ inner ++ (f ∷ outer)
      → All (PassesOn s.symbols.sym_errobj s.symbols.sym_catchall) inner
      → Handles s.symbols.sym_errobj s.symbols.sym_catchall f
      → t.catch_frames ≡ inner ++ (record f { retval = v } ∷ outer)
      → t.inside_err ≡ false
      → (name : Bytes) × (obj t s.symbols.sym_errobj ≡ symbol name nx)
      → Value t s.inside_err msg nx rv v
      → Leaves s msg nx rv (caught (length outer) t)
  to_errjmp :
      {t : State}
      → s.errjmp_ok ≡ true
      → All (PassesOn s.symbols.sym_errobj s.symbols.sym_catchall) s.catch_frames
      → t.catch_frames ≡ s.catch_frames
      → t.inside_err ≡ false
      → (name : Bytes) × (obj t s.symbols.sym_errobj ≡ symbol name nx)
      → Leaves s msg nx rv (toplevel (elim msg [ none ↦ 2 | some b ↦ 1 ]) t)
  ends_program :
      {t : State} → s.errjmp_ok ≡ false → t.cells ≡ s.cells → Leaves s msg nx rv (exited t)

-- The frames either all pass a jump on, or there is an innermost one that does not.
data Found (tag all : Ptr) (fs : List Frame) : Type 0 where
  nowhere : All (PassesOn tag all) fs → Found tag all fs
  at :
      (inner outer : List Frame) (f : Frame)
      → fs ≡ inner ++ (f ∷ outer)
      → All (PassesOn tag all) inner
      → Handles tag all f
      → Found tag all fs

look : (tag all : Ptr) (fs : List Frame) → Found tag all fs
look tag all [] = nowhere tt
look tag all (f ∷ fs) = elim (Bool-cases (f.tag == tag)) [
  | inl e ↦ at [] fs f refl tt (inl (ground arith))
  | inr ne ↦ elim (Bool-cases (f.tag == all)) [
    | inl e ↦ at [] fs f refl tt (inr (ground arith))
    | inr ne' ↦
        let passes : PassesOn tag all f = (ground arith, ground arith) in
        elim (look tag all fs) [
          | nowhere pass ↦ nowhere (passes, pass)
          | at inner outer g e pass h ↦
              at (f ∷ inner) outer g (ap (λ xs. f ∷ xs) e) (passes, pass) h
        ]
  ]
]

find_frame-none :
    (tag all : Ptr) (fs : List Frame) → All (PassesOn tag all) fs → find_frame tag all fs ≡ none
unfolding find_frame
find_frame-none tag all [] h = refl
find_frame-none tag all (f ∷ fs) ((a, b), h) =
    let e : (f.tag == tag || f.tag == all) ≡ false = ground arith in
    rw e (find_frame-none tag all fs h)

quit_text_lem :
    (msg : Option Bytes) → quit_text msg ≡ (elim msg [ none ↦ codes "quit" | some b ↦ b ])
unfolding quit_text
quit_text_lem none = refl
quit_text_lem (some b) = refl

Value-same :
    (t u : State) (w : Bool) (msg : Option Bytes) (nx rv v : Ptr)
    → u.cells ≡ t.cells
    → Value t w msg nx rv v
    → Value u w msg nx rv v
Value-same t u w msg nx rv v same (signalled n e) = signalled n e
Value-same t u w msg nx rv v same (nested n i e) = nested n i e
Value-same t u w msg nx rv v same (new_pair text n i a b) =
    new_pair text n i (same_obj u t text same ∙ a) (same_obj u t v same ∙ b)

-- The value for the frame is there where `err` was inside, or two cells are free.
frame_value-ok :
    (m : Machine) (f : Cmd Ptr) (w : Bool) (msg : Option Bytes) (nx rv p q : Ptr) (xs : List Ptr)
    (s : State)
    → (w ≡ true) ⊎ Ready s (p ∷ q ∷ xs)
    → (v : Ptr) × (t : State) × (frame_value m f w msg nx rv s ≡ ok v t)
      × (t.catch_frames ≡ s.catch_frames)
      × Extends s t
      × Value t w msg nx rv v
unfolding frame_value
frame_value-ok m f w msg nx rv p q xs s h = elim (Bool-cases (rv == 0)) [
  | inr given ↦ (rv, s, rw given, refl, Extends-refl s, signalled given refl)
  | inl empty ↦ elim (Bool-cases w) [
    | inl inside ↦ (0, s, rw (empty, inside), refl, Extends-refl s, nested empty inside refl)
    | inr outer ↦ elim h [
      | inl inside ↦ absurd (let c = sym inside ∙ outer in cc)
      | inr r ↦
          let (t, e, a) = newcell-Fresh m f (string (quit_text msg)) s r in
          let (u, g, b) = newcell-Fresh m f (cons p nx) t a.ready in
          (
            q,
            u,
            rw (empty, outer, e, g),
            b.same_frames ∙ a.same_frames,
            Extends-trans s t u a.extends b.extends,
            new_pair p empty outer
                (b.extends p (ap is_free_cell a.holds) ∙ (a.holds ∙ ap string (quit_text_lem msg)))
                b.holds,
          )
    ]
  ]
]

signal_nowhere :
    (m : Machine) (g : Cmd Ptr) (w : Bool) (msg : Option Bytes) (nx rv : Ptr) (s : State)
    → find_frame s.symbols.sym_errobj s.symbols.sym_catchall s.catch_frames ≡ none
    → signal m g w msg nx rv s
      ≡ toplevel (elim msg [ none ↦ 2 | some b ↦ 1 ]) (record s { inside_err = false })
unfolding signal
signal_nowhere m g w msg nx rv s e = rw (e, signal)

pub leave_ends :
    (m : Machine) (g : Cmd Ptr) (w : Bool) (msg : Option Bytes) (nx rv : Ptr) (s : State)
    → s.errjmp_ok ≡ false
    → m.fatal_exit_hook ≡ none
    → (t : State) × (leave m g w msg nx rv s ≡ exited t) × (t.cells ≡ s.cells)
unfolding leave fatal_exit
leave_ends m g w msg nx rv s ends hook = (fatal_message s, rw (ends, hook) refl, refl)

-- The jump of `err`, after `errobj` is bound.
signal-Leaves :
    (m : Machine) (g : Cmd Ptr) (msg : Option Bytes) (nx rv p q : Ptr) (xs : List Ptr)
    (s s' : State) {name : Bytes}
    → s.errjmp_ok ≡ true
    → s'.catch_frames ≡ s.catch_frames
    → s'.symbols ≡ s.symbols
    → obj s' s.symbols.sym_errobj ≡ symbol name nx
    → (s.inside_err ≡ true) ⊎ Ready s' (p ∷ q ∷ xs)
    → Leaves s msg nx rv (signal m g s.inside_err msg nx rv s')
unfolding jump_to
signal-Leaves m g msg nx rv p q xs s s' {name} jumps same names bound h =
    let w = s.inside_err in
    let tag = s.symbols.sym_errobj in
    let all = s.symbols.sym_catchall in
    let at_s : find_frame s'.symbols.sym_errobj s'.symbols.sym_catchall s'.catch_frames
        ≡ find_frame tag all s.catch_frames =
      rw (same, names) refl in
    elim (look tag all s.catch_frames) [
      | nowhere pass ↦
          rw
            (signal_nowhere m g w msg nx rv s' (at_s ∙ find_frame-none tag all s.catch_frames pass))
            (to_errjmp jumps pass same refl (name, same_obj _ s' tag refl ∙ bound))
      | at inner outer f e pass hd ↦
          let found =
            at_s ∙ ap (find_frame tag all) e ∙ find_frame-innermost tag all inner outer f pass hd in
          let (v, t, got, kept, ext, value) = frame_value-ok m g w msg nx rv p q xs s' h in
          rw (signal_run m g w msg nx rv v s' t (length outer) found got) (
            to_frame inner outer f v jumps e pass hd
              (ap (set_retval (length outer) v) (kept ∙ (same ∙ e))
                ∙ set_retval-frame v inner outer f)
              refl (name, same_obj _ t tag refl ∙ (ext tag (ap is_free_cell bound) ∙ bound))
              (Value-same t _ w msg nx rv v refl value))
    ]

leave-Leaves :
    (m : Machine) (g : Cmd Ptr) (msg : Option Bytes) (nx rv p q : Ptr) (xs : List Ptr) (s : State)
    (o : List Bytes) {name : Bytes} {old : Ptr}
    → (s.errjmp_ok ≡ true) ⊎ (m.fatal_exit_hook ≡ none)
    → obj s s.symbols.sym_errobj ≡ symbol name old
    → (s.inside_err ≡ true) ⊎ Ready s (p ∷ q ∷ xs)
    → Leaves s msg nx rv (leave m g s.inside_err msg nx rv (record s { out = o }))
leave-Leaves m g msg nx rv p q xs s o {name} allowed bound h =
    let tag = s.symbols.sym_errobj in
    let s1 = record s { out = o; inside_err = true } in
    let bound1 : obj s1 tag ≡ symbol name _ = same_obj s1 s tag refl ∙ bound in
    let s2 = set_cell tag (symbol name nx) s1 in
    let ready : (s.inside_err ≡ true) ⊎ Ready s2 (p ∷ q ∷ xs) = elim h [
      | inl e ↦ inl e
      | inr r ↦ inr (
          Ready-set_cell s1 tag (symbol name nx) (p ∷ q ∷ xs) (ap is_free_cell bound1)
            (record { sweeping = r.sweeping; chain = r.chain }))
    ] in
    elim (Bool-cases s.errjmp_ok) [
      | inl jumps ↦
          rw
            (leave_jumps m g s.inside_err msg nx rv (record s { out = o }) jumps
              ∙ ap (λ r. and_then r (λ _. signal m g s.inside_err msg nx rv))
                  (set_vcell_run s1 tag nx bound1))
            (signal-Leaves m g msg nx rv p q xs s s2 jumps refl refl
              (obj_set_self s1 tag (symbol name nx) (symbol-ne_nil s1 tag bound1)) ready)
      | inr ends ↦ elim allowed [
        | inl jumps ↦ absurd (let c = sym jumps ∙ ends in cc)
        | inr hook ↦
            let (t, e, same) =
              leave_ends m g s.inside_err msg nx rv (record s { out = o }) ends hook in
            subst (Leaves s msg nx rv) (sym e) (ends_program ends same)
      ]
    ]

print_error-out :
    (msg : Option Bytes) (nx : Ptr) (s : State)
    → print_error msg nx s ≡ record s { out = (print_error msg nx s).out }
unfolding print_error
print_error-out none nx s = refl
print_error-out (some msg) nx s = refl

-- `err` does not return to its caller, where `errobj` is a symbol, jumps are allowed or no
-- `fatal_exit_hook` is set, and `err` runs inside `err` or two cells are free: it jumps to the
-- innermost frame with the tag `errobj` or `all`, which gets the list that was signalled, `NIL` inside
-- `err`, or else a new pair of the message and the object, while the other frames stay; to `errjmp`
-- if there is no such frame, with 1 if there is a message and 2 if not; and it ends the program where
-- no jump is allowed. In both jumps `errobj` is bound to the object.
pub err_bytes-Leaves :
    (m : Machine) (message : Option Bytes) (x p q : Ptr) (xs : List Ptr) (s : State) {name : Bytes}
    {old : Ptr}
    → (s.errjmp_ok ≡ true) ⊎ (m.fatal_exit_hook ≡ none)
    → obj s s.symbols.sym_errobj ≡ symbol name old
    → (s.inside_err ≡ true) ⊎ Ready s (p ∷ q ∷ xs)
    → let (msg, nx, rv) = err_parts s message x in Leaves s msg nx rv (err_bytes m message x s)
unfolding err_bytes err_with
err_bytes-Leaves m message x p q xs s allowed bound h =
    let (msg, nx, rv) = err_parts s message x in
    subst (λ t. Leaves s msg nx rv (leave m (inner_fatal m) s.inside_err msg nx rv t))
      (sym (print_error-out msg nx s))
      (leave-Leaves m (inner_fatal m) msg nx rv p q xs s (print_error msg nx s).out allowed bound h)
