-- ===== src/Eval/Env.antt =====
-- Environments of winsiod/slib.c: lists of frames, each a pair of formals and actuals.
use siod.Prelude.{ℕ, zero, suc, Option, none, some, ◌==◌, ◌&&◌, if◌then◌else◌}
use siod.Store.{
  Ptr, symbol, fault, Cmd, pure, ◌>>=◌, ◌>>◌, view, get_symbol, is_symbol, raw_car, set_raw_car,
}
use siod.Machine.{Machine}
use siod.Alloc.Error.{fail, cons_cell, set_vcell}
use siod.Lists.{on_pair, exhausted}

module _ (m : Machine) where
  unfoldable pub extend_env : Ptr → Ptr → Ptr → Cmd Ptr
  extend_env actuals formals env = do
    o ← view formals
    if is_symbol o
        then (do
          fs ← cons_cell m formals 0
          as' ← cons_cell m actuals 0
          frame ← cons_cell m fs as'
          cons_cell m frame env)
        else (do frame ← cons_cell m formals actuals; cons_cell m frame env)

  -- The loop over one frame `tmp`. It finds the pair of the actuals whose `CAR` is the value, or a
  -- new pair for a rest argument, or nothing.
  unfoldable pub scan_frame : ℕ → Ptr → Ptr → Ptr → Ptr → Cmd (Option Ptr)
  scan_frame zero var tmp fl al = exhausted
  scan_frame (suc f) var tmp fl al =
      on_pair m fl
        (λ a fl'.
          on_pair m al (λ v al'. if a == var then pure (some al) else scan_frame f var tmp fl' al')
            (fail m "too few arguments" tmp))
        (do
          o ← view fl
          if is_symbol o && (fl == var)
              then (do c ← cons_cell m al 0; pure (some c))
              else pure none)

  unfoldable pub envlookup_loop : ℕ → Ptr → Ptr → Ptr → Cmd Ptr
  envlookup_loop zero var env frame = exhausted
  envlookup_loop (suc f) var env frame =
      on_pair m frame
        (λ tmp next.
          on_pair m tmp
            (λ fl al. do
              r ← scan_frame m.fuel var tmp fl al
              elim r [ some p ↦ pure p | none ↦ envlookup_loop f var env next ])
            (fail m "damaged frame" tmp))
        (if frame == 0 then pure 0 else fail m "damaged env" env)

  unfoldable pub envlookup : Ptr → Ptr → Cmd Ptr
  envlookup var env = envlookup_loop m.fuel var env env

  -- `VCELL (x)`
  unfoldable pub vcell : Ptr → Cmd Ptr
  vcell x = do o ← view x; elim o [ symbol name v ↦ pure v | _ ↦ (λ _. fault) ]

  -- The value of a symbol where it is bound in a frame, else its global value.
  unfoldable pub symbol_or_global : Ptr → Ptr → Cmd Ptr
  symbol_or_global x env = do
    tmp ← envlookup x env
    if tmp == 0
        then (do
          v ← vcell x
          unbound ← get_symbol (λ y. y.unbound_marker)
          if v == unbound then fail m "unbound variable" x else pure v)
        else raw_car tmp

  unfoldable pub symbol_value : Ptr → Ptr → Cmd Ptr
  symbol_value x env = do
    o ← view x
    if is_symbol o then symbol_or_global x env else fail m "not a symbol" x

  unfoldable pub symbol_boundp : Ptr → Ptr → Cmd Ptr
  symbol_boundp x env = do
    o ← view x
    t ← get_symbol (λ y. y.sym_t)
    unbound ← get_symbol (λ y. y.unbound_marker)
    if is_symbol o
        then (do
          tmp ← envlookup x env
          v ← vcell x
          pure (if tmp == 0 then (if v == unbound then 0 else t) else t))
        else fail m "not a symbol" x

  unfoldable pub setvar : Ptr → Ptr → Ptr → Cmd Ptr
  setvar var val env = do
    o ← view var
    if is_symbol o
        then (do
          tmp ← envlookup var env
          if tmp == 0 then set_vcell var val >> pure val else set_raw_car tmp val >> pure val)
        else fail m "wta(non-symbol) to setvar" var
