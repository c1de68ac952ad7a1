-- ===== src/Eval/Extend.antt =====
-- On `extend_env` of winsiod/slib.c.
use siod.Prelude.{◌≤◌, ◌≡◌, ◌∙◌, ap, false, List, [], ◌∷◌, length}
use siod.Store.{Ptr, State, obj, ok, is_symbol}
use siod.Store.View.{obj-zero}
use siod.Machine.{Machine}
use siod.Alloc.Error.{cons_cell}
use siod.Alloc.Fresh.{Ready, Extends, Extends-trans}
use siod.Lists.Shape.{IsList, IsList-Extends, keep_pair, cons_cell-Fresh}
use siod.Lists.Cells.{Cells, ListAt}
use siod.Eval.Env.{extend_env}
use siod.Eval.Lookup.{Scope, IsFrame, IsEnv}

pub ListAt-Extends :
    (s t : State) (p : Ptr) (cs : Cells) → Extends s t → ListAt s p cs → ListAt t p cs
ListAt-Extends s t p [] f l = l
ListAt-Extends s t p ((a, v) ∷ cs) f (e, (d, g, l)) =
    (e, (d, keep_pair s t a f g, ListAt-Extends s t d cs f l))

IsFrame-Extends :
    (s t : State) (tmp : Ptr) (vars : List Ptr) (cs : Cells)
    → Extends s t
    → IsFrame s tmp vars cs
    → IsFrame t tmp vars cs
IsFrame-Extends s t tmp vars cs f r = record {
  formals = r.formals;
  actuals = r.actuals;
  pair = keep_pair s t tmp f r.pair;
  names = IsList-Extends s t r.formals vars f r.names;
  values = ListAt-Extends s t r.actuals cs f r.values;
  enough = r.enough;
}

pub IsEnv-Extends :
    (s t : State) (env : Ptr) (fs : Scope) → Extends s t → IsEnv s env fs → IsEnv t env fs
IsEnv-Extends s t env [] f e = e
IsEnv-Extends s t env ((vars, cs) ∷ fs) f (tmp, next, e, fr, is) = (
  tmp,
  next,
  keep_pair s t env f e,
  IsFrame-Extends s t tmp vars cs f fr,
  IsEnv-Extends s t next fs f is,
)

-- A list is no symbol.
IsList-not_symbol :
    (s : State) (p : Ptr) (vs : List Ptr) → IsList s p vs → is_symbol (obj s p) ≡ false
IsList-not_symbol s p [] e = ap (λ q. is_symbol (obj s q)) e ∙ ap is_symbol (obj-zero s)
IsList-not_symbol s p (v ∷ vs) (d, e, l) = ap is_symbol e

-- What a new environment is made of.
pub record Extended (s t : State) (env' : Ptr) (fs : Scope) (free : List Ptr) : Type 0 where
  pub is_env : IsEnv t env' fs
  pub extends : Extends s t
  pub ready : Ready t free

extend_run :
    (m : Machine) (actuals formals env p q : Ptr) (s t u : State)
    → is_symbol (obj s formals) ≡ false
    → cons_cell m formals actuals s ≡ ok p t
    → cons_cell m p env t ≡ ok q u
    → extend_env m actuals formals env s ≡ ok q u
unfolding extend_env
extend_run m actuals formals env p q s t u e c d = rw (e, c) d

-- For a list of formals with at least as many actuals, and two free cells, `extend_env` puts a frame
-- that binds the formals to the cells of the actuals in front of the environment, and changes no
-- cell in use.
pub extend_env-Extended :
    (m : Machine) (actuals formals env : Ptr) (s : State) (vars : List Ptr) (cs : Cells)
    (fs : Scope) {p q : Ptr} {free : List Ptr}
    → IsList s formals vars
    → ListAt s actuals cs
    → length vars ≤ length cs
    → IsEnv s env fs
    → Ready s (p ∷ q ∷ free)
    → (t : State) × (extend_env m actuals formals env s ≡ ok q t)
      × Extended s t q ((vars, cs) ∷ fs) free
extend_env-Extended m actuals formals env s vars cs fs {p} {q} l k le is r =
    let (t, c, a) = cons_cell-Fresh m formals actuals s r in
    let (u, d, b) = cons_cell-Fresh m p env t a.ready in
    let ext = Extends-trans s t u a.extends b.extends in
    (
      u,
      extend_run m actuals formals env p q s t u (IsList-not_symbol s formals vars l) c d,
      record {
        is_env = (
          p,
          env,
          b.holds,
          record {
            formals = formals;
            actuals = actuals;
            pair = keep_pair t u p b.extends a.holds;
            names = IsList-Extends s u formals vars ext l;
            values = ListAt-Extends s u actuals cs ext k;
            enough = le;
          },
          IsEnv-Extends s u env fs ext is,
        );
        extends = ext;
        ready = b.ready;
      },
    )
