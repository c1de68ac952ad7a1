-- ===== src/Eval/Assign.antt =====
-- On `setvar` of winsiod/slib.c.
use siod.Prelude.{
  ◌<◌, ◌≡◌, refl, sym, ◌∙◌, ap, subst, false, Option, none, some, List, [], ◌∷◌, ◌==◌,
  if◌then◌else◌, arith, length, All, Bool-cases, Option-cases, inl, inr,
}
use siod.Store.{Ptr, Bytes, Obj, cons, symbol, State, obj, ok, set_cell, set_raw_car}
use siod.Store.View.{ne_nil, symbol-ne_nil, obj_set_self, obj_set_other}
use siod.Machine.{Machine}
use siod.Alloc.Jump.{set_vcell_run}
use siod.Lists.Cells.{Cells, ListAt}
use siod.Eval.Env.{envlookup, setvar}
use siod.Eval.Lookup.{Scope, IsEnv, find_in, or_else, binding, envlookup-binding}

-- The place of the value in a pair or a symbol, and the object without it.
abbrev pub value_in : Obj → Option Ptr
value_in (cons a d) = some a
value_in (symbol name v) = some v
value_in _ = none

abbrev pub blank : Obj → Obj
blank (cons a d) = cons 0 d
blank (symbol name v) = symbol name 0
blank o = o

-- The cell at `p` has the value, and nothing else has changed.
pub record Assigned (s t : State) (p val : Ptr) : Type 0 where
  pub holds : value_in (obj t p) ≡ some val
  pub rest : blank (obj t p) ≡ blank (obj s p)
  pub others : (a : Ptr) → (a == p) ≡ false → obj t a ≡ obj s a

find_in-pair :
    (s : State) (var al a : Ptr) (vars : List Ptr) (cs : Cells)
    → ListAt s al cs
    → find_in var vars cs ≡ some a
    → (v : Ptr) × (d : Ptr) × (obj s a ≡ cons v d)
find_in-pair s var al a [] cs l e = absurd (ground arith)
find_in-pair s var al a (v ∷ vs) [] l e = absurd (ground arith)
find_in-pair s var al a (v ∷ vs) ((b, w) ∷ cs) (same, (d, g, l)) e = elim (Bool-cases (v == var)) [
  | inl hit ↦ let at : b ≡ a = ground arith in (w, d, ap (obj s) (sym at) ∙ g)
  | inr miss ↦ find_in-pair s var d a vs cs l (ground arith)
]

-- The cell of a bound variable is a pair.
binding-pair :
    (s : State) (var env : Ptr) (fs : Scope)
    → IsEnv s env fs
    → (binding var fs == 0) ≡ false
    → (v : Ptr) × (d : Ptr) × (obj s (binding var fs) ≡ cons v d)
binding-pair s var env [] is ne = absurd (ground arith)
binding-pair s var env ((vars, cs) ∷ fs) (tmp, next, e, fr, is) ne =
    elim (Option-cases (find_in var vars cs)) [
      | inl out ↦
          let here : binding var ((vars, cs) ∷ fs) ≡ binding var fs =
            ap (λ r. or_else r (binding var fs)) out in
          let (v, d, g) = binding-pair s var next fs is (ap (λ b. b == 0) (sym here) ∙ ne) in
          (v, d, ap (obj s) here ∙ g)
      | inr (a, found) ↦
          let here : binding var ((vars, cs) ∷ fs) ≡ a =
            ap (λ r. or_else r (binding var fs)) found in
          let (v, d, g) = find_in-pair s var fr.actuals a vars cs fr.values found in
          (v, d, ap (obj s) here ∙ g)
    ]

set_raw_car_run :
    (s : State) (p w : Ptr) {a d : Ptr}
    → obj s p ≡ cons a d
    → set_raw_car p w s ≡ ok tt (set_cell p (cons w d) s)
unfolding set_raw_car
set_raw_car_run s p w e = rw (e, set_raw_car)

module _ (m : Machine) (s : State) (var val env : Ptr) {name : Bytes} {old : Ptr}
    (sy : obj s var ≡ symbol name old) where
  setvar_global :
      envlookup m var env s ≡ ok 0 s
      → setvar m var val env s ≡ ok val (set_cell var (symbol name val) s)
  unfolding setvar
  setvar_global e = rw (sy, e, set_vcell_run s var val sy)

  setvar_local :
      (b : Ptr) {v d : Ptr}
      → envlookup m var env s ≡ ok b s
      → obj s b ≡ cons v d
      → setvar m var val env s ≡ ok val (set_cell b (cons val d) s)
  unfolding setvar
  setvar_local b e g = rw (sy, e, ne_nil s b g, set_raw_car_run s b val g)

set_cell-Assigned :
    (s : State) (p val : Ptr) (o : Obj)
    → (p == 0) ≡ false
    → value_in o ≡ some val
    → blank o ≡ blank (obj s p)
    → Assigned s (set_cell p o s) p val
set_cell-Assigned s p val o ne v b = record {
  holds = ap value_in (obj_set_self s p o ne) ∙ v;
  rest = ap blank (obj_set_self s p o ne) ∙ b;
  others = λ a out. obj_set_other s p a o out;
}

-- The place that an assignment writes to.
abbrev pub target : Ptr → Scope → Ptr
target var fs = if binding var fs == 0 then var else binding var fs

-- For a symbol, in an environment of frames that have a value for each of their variables, and with
-- fuel above the number of frames and of the variables of each, `setvar` returns the value, and
-- stores it in the cell of the innermost frame that binds the symbol, or in the symbol where none
-- does; the rest of that cell and all other cells are as before.
pub setvar-Assigned :
    (m : Machine) (s : State) (var val env : Ptr) (fs : Scope) {name : Bytes} {old : Ptr}
    → obj s var ≡ symbol name old
    → IsEnv s env fs
    → All (λ (vars, cs). length vars < m.fuel) fs
    → length fs < m.fuel
    → (t : State) × (setvar m var val env s ≡ ok val t) × Assigned s t (target var fs) val
setvar-Assigned m s var val env fs {name} sy is small lt =
    let look = envlookup-binding m s var env fs is small lt in
    elim (Bool-cases (binding var fs == 0)) [
      | inl free ↦
          let none_there : envlookup m var env s ≡ ok 0 s =
            look ∙ ap (λ b. ok b s) (ground arith) in
          let here : target var fs ≡ var = rw free in
          let w =
            set_cell-Assigned s var val (symbol name val) (symbol-ne_nil s var sy) refl
              (ap blank (sym sy)) in
          (
            set_cell var (symbol name val) s,
            setvar_global m s var val env sy none_there,
            subst (λ p. Assigned s (set_cell var (symbol name val) s) p val) (sym here) w,
          )
      | inr bound ↦
          let b = binding var fs in
          let (v, d, g) = binding-pair s var env fs is bound in
          let here : target var fs ≡ b = rw bound in
          let w = set_cell-Assigned s b val (cons val d) bound refl (ap blank (sym g)) in
          (
            set_cell b (cons val d) s,
            setvar_local m s var val env sy b look g,
            subst (λ p. Assigned s (set_cell b (cons val d) s) p val) (sym here) w,
          )
    ]
