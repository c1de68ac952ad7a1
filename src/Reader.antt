-- ===== src/Reader.antt =====
-- The reader: `flush_ws`, `readtl`, `lreadr`, `lreadparen` and `lreadtk` of winsiod/slib.c;
-- `lreadstring`, `lreadsharp`, `rfs_getc`, `rfs_ungetc` and `read_from_string` of winsiod/sliba.c.
-- No read hooks are set. A text is read as it stands at the call. Where C leaves the order of two
-- arguments open, the last is evaluated first, as on the x86 compilers of the build files.
pub mod Chars
pub mod Tokens
pub mod Source
pub mod Token
pub mod Quoted
pub mod Keep
pub mod Numeral
pub mod Leaf
pub mod Atoms
pub mod Readable
pub mod Listing
pub mod RoundTrip
pub mod NoNul
pub mod Again
pub mod Gaps
use siod.Prelude.{
  ℕ, zero, suc, ◌+◌, ◌-◌, ◌*◌, ◌%◌, Bool, true, false, ◌&&◌, ◌||◌, Option, none, some, List, [],
  ◌∷◌, ◌++◌, ◌==◌, not, if◌then◌else◌, String, codes,
}
use siod.Prelude.Int.{pos}
use siod.Store.{Ptr, Bytes, fault, Cmd, pure, and_then, ◌>>=◌, ◌>>◌, get_symbol}
use siod.Machine.{Machine}
use siod.Alloc.{c_str}
use siod.Alloc.Error.{fail, err, err_stack, alloc, cons_cell, strcons, get_c_string}
use siod.Lists.{exhausted, car, cdr, nlength}
use siod.Number.{flocons}
use siod.Arrays.Make.{arcons, set_element}
use siod.Symbols.{gen_intern}
use siod.Reader.Tokens.{
  GenReadio, Text, rfs, tkbuffern, flush_ws, token_loop, lreadstring, hex_loop,
}

module _ (m : Machine) (io : GenReadio) where
  -- The loop of `lreadsharp` that fills the array from the list.
  unfoldable pub fill_array : ℕ → ℕ → Ptr → Ptr → Cmd (Unit {0})
  fill_array zero j result l = pure tt
  fill_array (suc k) j result l = do
    a ← car m l
    set_element result j a
    d ← cdr m l
    fill_array k (j + 1) result d

  unfoldable pub read_array : Ptr → Cmd Ptr
  read_array x = do n ← nlength m x; result ← arcons m 16 n; fill_array n 0 result x; pure result

  -- `lreadsharp`, with the `lreadr` that it calls.
  unfoldable pub lreadsharp :
      (io.Source → Cmd (Ptr × io.Source)) → io.Source → Cmd (Ptr × io.Source)
  lreadsharp read f =
      let (o, g) = io.getc f in
      elim o [
        | none ↦ (do p ← err m "readsharp syntax not handled" 0; pure (p, g))
        | some c ↦
            if c == b'('
            then (do (x, h) ← read (io.ungetc (some c) g); p ← read_array x; pure (p, h))
            else if c == b'.'
            then (do (x, h) ← read g; p ← m.eval x 0; pure (p, h))
            else if c == b'f'
            then pure (0, g)
            else if c == b't'
            then (do p ← flocons m (m.double.of_long (pos 1)); pure (p, g))
            else if c == b'x' || c == b'X'
            then hex_loop m io 30 [] g
            else (do p ← err m "readsharp syntax not handled" 0; pure (p, g))
      ]

  -- The name of the operator that a comma stands for, and where its operand starts.
  unfoldable pub comma : io.Source → Bytes × io.Source
  comma f =
      let (o, g) = io.getc f in
      let plain : Bytes × io.Source = (codes "+internal-comma", io.ungetc o g) in
      elim o [
        | none ↦ plain
        | some c ↦
            if c == b'@'
            then (codes "+internal-comma-atsign", g)
            else if c == b'.'
            then (codes "+internal-comma-dot", g)
            else plain
      ]

  -- `cons (cintern (name), lreadr (f))`, with the `lreadr` that it calls.
  unfoldable pub read_prefixed :
      (io.Source → Cmd (Ptr × io.Source)) → Bytes → io.Source → Cmd (Ptr × io.Source)
  read_prefixed read name f = do
    (x, g) ← read f
    op ← gen_intern m name
    p ← cons_cell m op x
    pure (p, g)

  unfoldable pub read_quoted :
      (io.Source → Cmd (Ptr × io.Source)) → io.Source → Cmd (Ptr × io.Source)
  read_quoted read f = do
    (x, g) ← read f
    l ← cons_cell m x 0
    q ← get_symbol (λ y. y.sym_quote)
    p ← cons_cell m q l
    pure (p, g)

  -- The end of a dotted list, after its last element.
  unfoldable pub close_dotted : Ptr → io.Source → Cmd (Ptr × io.Source)
  close_dotted x f = do
    (o, g) ← flush_ws m io (some "end of file inside list") f
    elim o [
      | some c ↦ if c == b')' then pure (x, g) else fail m "missing close paren" 0
      | none ↦ (λ _. fault)
    ]

  -- The `switch` of `lreadr` on a character, with the calls that it makes.
  unfoldable pub read_at :
      (io.Source → Cmd (Ptr × io.Source))
      → (io.Source → Cmd (Ptr × io.Source))
      → ℕ
      → io.Source
      → Cmd (Ptr × io.Source)
  read_at read read_paren c f =
      if c == b'('
      then read_paren f
      else if c == b')'
      then fail m "unexpected close paren" 0
      else if c == 39
      then read_quoted read f
      else if c == 96
      then read_prefixed read (codes "+internal-backquote") f
      else if c == b','
      then (let (name, g) = comma f in read_prefixed read name g)
      else if c == 34
      then lreadstring m io f
      else if c == b'#'
      then lreadsharp read f
      else token_loop m io (tkbuffern - 1) (c ∷ []) f

  -- `lreadparen` after its first `flush_ws`.
  unfoldable pub read_element :
      (io.Source → Cmd (Ptr × io.Source))
      → (io.Source → Cmd (Ptr × io.Source))
      → io.Source
      → Cmd (Ptr × io.Source)
  read_element read read_paren f = do
    (x, g) ← read f
    dot ← get_symbol (λ y. y.sym_dot)
    if x == dot
        then (do (y, h) ← read g; close_dotted y h)
        else (do (l, h) ← read_paren g; p ← cons_cell m x l; pure (p, h))

  -- The rounds are the calls that the stack limit has room for: the stack check of `lreadr` fails at
  -- the next one. `lreadparen` has no check of its own.
  unfoldable mutual
    pub lreadr : ℕ → io.Source → Cmd (Ptr × io.Source)
    lreadr zero f = err_stack m
    lreadr (suc n) f = do
      (o, g) ← flush_ws m io (some "end of file inside read") f
      elim o [ some c ↦ read_at (lreadr n) (lreadparen n) c g | none ↦ (λ _. fault) ]

    pub lreadparen : ℕ → io.Source → Cmd (Ptr × io.Source)
    lreadparen zero f = exhausted
    lreadparen (suc n) f = do
      (o, g) ← flush_ws m io (some "end of file inside list") f
      elim o [
        | some c ↦
            if c == b')'
            then pure (0, g)
            else read_element (lreadr n) (lreadparen n) (io.ungetc (some c) g)
        | none ↦ (λ _. fault)
      ]

  unfoldable pub readtl : io.Source → Cmd (Ptr × io.Source)
  readtl f = do
    (o, g) ← flush_ws m io none f
    elim o [
      | none ↦ (do e ← get_symbol (λ y. y.eof_val); pure (e, g))
      | some c ↦ lreadr m.fuel (io.ungetc (some c) g)
    ]

unfoldable pub read_from_string : Machine → Ptr → Cmd Ptr
read_from_string m x = do b ← get_c_string m x; (p, f) ← readtl m rfs ([], b); pure p
