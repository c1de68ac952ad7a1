-- ===== src/Eval/Lookup.antt =====
-- On `envlookup` of winsiod/slib.c, against environments as lists of scopes.
use siod.Prelude.{
  ℕ, zero, suc, ◌≤◌, ◌<◌, ◌≡◌, ◌∙◌, ap, Option, none, some, List, [], ◌∷◌, ◌==◌, if◌then◌else◌,
  length, arith, Bool-cases, inl, inr, All,
}
use siod.Store.{Ptr, cons, State, obj, ok}
use siod.Store.View.{obj-zero}
use siod.Machine.{Machine}
use siod.Lists.Shape.{IsList, on_pair-cons, on_pair-nil}
use siod.Lists.Cells.{Cells, ListAt}
use siod.Eval.Env.{scan_frame, envlookup_loop, envlookup}

-- A frame as the variables and the cells of their values; an environment as frames.
abbrev pub Scope : Type 0
Scope = List (List Ptr × Cells)

pub record IsFrame (s : State) (tmp : Ptr) (vars : List Ptr) (cs : Cells) : Type 0 where
  pub formals : Ptr
  pub actuals : Ptr
  pub pair : obj s tmp ≡ cons formals actuals
  pub names : IsList s formals vars
  pub values : ListAt s actuals cs
  pub enough : length vars ≤ length cs

abbrev pub IsEnv : State → Ptr → Scope → Type 0
IsEnv s env [] = env ≡ 0
IsEnv s env ((vars, cs) ∷ fs) =
    (tmp : Ptr) × (next : Ptr) × (obj s env ≡ cons tmp next)
    × IsFrame s tmp vars cs
    × IsEnv s next fs

-- The cell of a variable's value.
abbrev pub find_in : Ptr → List Ptr → Cells → Option Ptr
find_in var [] cs = none
find_in var (v ∷ vs) [] = none
find_in var (v ∷ vs) ((a, w) ∷ cs) = if v == var then some a else find_in var vs cs

abbrev pub or_else : Option Ptr → Ptr → Ptr
or_else none b = b
or_else (some a) b = a

abbrev pub binding : Ptr → Scope → Ptr
binding var [] = 0
binding var ((vars, cs) ∷ fs) = or_else (find_in var vars cs) (binding var fs)

module _ (m : Machine) (s : State) (var : Ptr) where
  scan_end : (f : ℕ) (tmp fl al : Ptr) → fl ≡ 0 → scan_frame m (suc f) var tmp fl al s ≡ ok none s
  unfolding scan_frame
  scan_end f tmp fl al e = on_pair-nil m s fl _ _ e ∙ rw (e, obj-zero s)

  scan_frame-find_in :
      (f : ℕ) (tmp fl al : Ptr) (vars : List Ptr) (cs : Cells)
      → IsList s fl vars
      → ListAt s al cs
      → length vars ≤ length cs
      → length vars < f
      → scan_frame m f var tmp fl al s ≡ ok (find_in var vars cs) s
  unfolding scan_frame
  scan_frame-find_in zero tmp fl al vars cs l k le lt = absurd (omega arith)
  scan_frame-find_in (suc f) tmp fl al [] cs l k le lt = scan_end f tmp fl al l
  scan_frame-find_in (suc f) tmp fl al (v ∷ vs) [] l k le lt = absurd (omega arith)
  scan_frame-find_in (suc f) tmp fl al (v ∷ vs) ((a, w) ∷ cs) (d, e, l) (same, (d', g, k)) le lt =
      let g' : obj s al ≡ cons w d' = ap (obj s) same ∙ g in
      on_pair-cons m s fl e _ _ ∙ on_pair-cons m s al g' _ _ ∙ (elim (Bool-cases (v == var)) [
        | inl hit ↦ rw (hit, same)
        | inr miss ↦ rw miss (scan_frame-find_in f tmp d d' vs cs l k (omega arith) (omega arith))
      ])

  frame_step :
      (r : Option Ptr) (f : ℕ) (env frame tmp next fl al b : Ptr)
      → obj s frame ≡ cons tmp next
      → obj s tmp ≡ cons fl al
      → scan_frame m m.fuel var tmp fl al s ≡ ok r s
      → envlookup_loop m f var env next s ≡ ok b s
      → envlookup_loop m (suc f) var env frame s ≡ ok (or_else r b) s
  unfolding envlookup_loop
  frame_step none f env frame tmp next fl al b e g scan rest =
      on_pair-cons m s frame e _ _ ∙ on_pair-cons m s tmp g _ _ ∙ rw scan rest
  frame_step (some a) f env frame tmp next fl al b e g scan rest =
      on_pair-cons m s frame e _ _ ∙ on_pair-cons m s tmp g _ _ ∙ rw scan

  envlookup_loop-binding :
      (f : ℕ) (env frame : Ptr) (fs : Scope)
      → IsEnv s frame fs
      → All (λ (vars, cs). length vars < m.fuel) fs
      → length fs < f
      → envlookup_loop m f var env frame s ≡ ok (binding var fs) s
  unfolding envlookup_loop
  envlookup_loop-binding zero env frame fs is small lt = absurd (omega arith)
  envlookup_loop-binding (suc f) env frame [] is small lt = on_pair-nil m s frame _ _ is ∙ rw is
  envlookup_loop-binding (suc f) env frame ((vars, cs) ∷ fs) (tmp, next, e, fr, is) small lt =
      let scan =
        scan_frame-find_in m.fuel tmp fr.formals fr.actuals vars cs fr.names fr.values fr.enough
          small.0 in
      let rest = envlookup_loop-binding f env next fs is small.1 (omega arith) in
      frame_step (find_in var vars cs) f env frame tmp next fr.formals fr.actuals (binding var fs) e
        fr.pair scan rest

  -- In an environment of frames that have a value for each of their variables, and with fuel above
  -- the number of frames and of the variables of each, `envlookup` returns the cell of the value in
  -- the innermost frame that has the variable, `NIL` where none has it, and changes nothing.
  pub envlookup-binding :
      (env : Ptr) (fs : Scope)
      → IsEnv s env fs
      → All (λ (vars, cs). length vars < m.fuel) fs
      → length fs < m.fuel
      → envlookup m var env s ≡ ok (binding var fs) s
  unfolding envlookup
  envlookup-binding env fs is small lt = envlookup_loop-binding m.fuel env env fs is small lt
