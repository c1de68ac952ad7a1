-- ===== src/Reader/Tokens.antt =====
-- The tokens of the reader: `flush_ws` and `lreadtk` of winsiod/slib.c, with the loop of `lreadr`
-- over a token; `lreadstring`, `rfs_getc`, `rfs_ungetc` and the digits of `lreadsharp` of
-- winsiod/sliba.c. No read hooks are set.
use siod.Prelude.{
  ℕ, zero, suc, ◌+◌, ◌-◌, ◌*◌, ◌%◌, Bool, false, ◌||◌, Option, none, some, [], ◌∷◌, ◌++◌, ◌==◌, not,
  if◌then◌else◌, String,
}
use siod.Prelude.Int.{pos}
use siod.Store.{Ptr, Bytes, Cmd, pure, ◌>>=◌}
use siod.Machine.{Machine}
use siod.Alloc.{c_str}
use siod.Alloc.Error.{fail, err, strcons}
use siod.Lists.{exhausted}
use siod.Number.{flocons}
use siod.Symbols.{gen_intern}
use siod.Reader.Chars.{is_space, is_digit, ends_token, ends_hex, number_token, strtoul_hex}

-- `struct gen_readio`: the functions and the argument that they share. `EOF` is `none`.
pub record GenReadio : Type 1 where
  pub Source : Type 0
  pub getc : Source → Option ℕ × Source
  pub ungetc : Option ℕ → Source → Source

-- The argument of `rfs_getc`: the bytes behind the pointer, the last one first, and those ahead.
abbrev pub Text : Type 0
Text = Bytes × Bytes

unfoldable pub rfs_getc : Text → Option ℕ × Text
rfs_getc (behind, []) = (none, (behind, []))
rfs_getc (behind, c ∷ cs) = if c == 0 then (none, (behind, c ∷ cs)) else (some c, (c ∷ behind, cs))

-- It moves the pointer back by one, whatever the byte is.
unfoldable pub rfs_ungetc : Option ℕ → Text → Text
rfs_ungetc c ([], ahead) = ([], ahead)
rfs_ungetc c (b ∷ behind, ahead) = (behind, b ∷ ahead)

abbrev pub rfs : GenReadio
rfs = record { Source = Text; getc = rfs_getc; ungetc = rfs_ungetc }

abbrev pub tkbuffern : ℕ
tkbuffern = 5120

unfoldable pub lreadtk : Machine → Bytes → Cmd Ptr
lreadtk m buffer =
    let t = c_str buffer in
    if number_token t then flocons m (m.double.of_text t) else gen_intern m t

module _ (m : Machine) (io : GenReadio) where
  -- `err (eoferr, NIL)`, or the end of the file as a value.
  unfoldable pub at_eof : Option String → io.Source → Cmd (Option ℕ × io.Source)
  at_eof eoferr f = elim eoferr [ some message ↦ fail m message 0 | none ↦ pure (none, f) ]

  unfoldable pub flush_loop : ℕ → Bool → Option String → io.Source → Cmd (Option ℕ × io.Source)
  flush_loop zero commentp eoferr f = exhausted
  flush_loop (suc n) commentp eoferr f =
      let (o, g) = io.getc f in
      elim o [
        | none ↦ at_eof eoferr g
        | some c ↦
            let rest = flush_loop n (if commentp then not (c == b'\n') else c == b';') eoferr g in
            if commentp || (c == b';' || is_space c) then rest else pure (some c, g)
      ]

  unfoldable pub flush_ws : Option String → io.Source → Cmd (Option ℕ × io.Source)
  flush_ws = flush_loop m.fuel false

  -- The loop of `lreadr` over the rest of a token, with the room that is left in the buffer.
  unfoldable pub token_loop : ℕ → Bytes → io.Source → Cmd (Ptr × io.Source)
  token_loop zero buffer f = do p ← err m "token larger than TKBUFFERN" 0; pure (p, f)
  token_loop (suc k) buffer f =
      let (o, g) = io.getc f in
      elim o [
        | none ↦ (do p ← lreadtk m buffer; pure (p, g))
        | some c ↦
            let more = token_loop k (buffer ++ (c ∷ [])) g in
            if is_space c
            then (do p ← lreadtk m buffer; pure (p, g))
            else if ends_token c
            then (do p ← lreadtk m buffer; pure (p, io.ungetc (some c) g))
            else more
      ]

  -- The digits after `\0`.
  unfoldable pub octal_loop : ℕ → ℕ → io.Source → Cmd (ℕ × io.Source)
  octal_loop zero n f = exhausted
  octal_loop (suc k) n f =
      let (o, g) = io.getc f in
      elim o [
        | none ↦ fail m "eof after \\0" 0
        | some c ↦
            let more = octal_loop k (n * 8 + (c - b'0')) g in
            if is_digit c then more else pure (n, io.ungetc (some c) g)
      ]

  -- The character that follows a backslash.
  unfoldable pub escaped : ℕ → io.Source → Cmd (ℕ × io.Source)
  escaped c f =
      if c == b'n'
      then pure (b'\n', f)
      else if c == b't'
      then pure (9, f)
      else if c == b'r'
      then pure (13, f)
      else if c == b'd'
      then pure (4, f)
      else if c == b'N'
      then pure (0, f)
      else if c == b's'
      then pure (b' ', f)
      else if c == b'0'
      then octal_loop m.fuel 0 f
      else pure (c, f)

  unfoldable pub string_char : ℕ → io.Source → Cmd (ℕ × io.Source)
  string_char c f =
      if c == 92
      then (let (o, g) = io.getc f in
          elim o [ none ↦ fail m "eof after \\" 0 | some d ↦ escaped d g ])
      else pure (c, f)

  -- The loop of `lreadstring`, with the room that is left. A character is stored as a `char`.
  unfoldable pub string_loop : ℕ → Bytes → io.Source → Cmd (Bytes × io.Source)
  string_loop zero buffer f =
      let (o, g) = io.getc f in
      elim o [
        | none ↦ pure (buffer, g)
        | some c ↦
            if c == 34
            then pure (buffer, g)
            else (do r ← string_char c g; fail m "read string overflow" 0)
      ]
  string_loop (suc k) buffer f =
      let (o, g) = io.getc f in
      elim o [
        | none ↦ pure (buffer, g)
        | some c ↦
            if c == 34
            then pure (buffer, g)
            else (do (d, h) ← string_char c g; string_loop k (buffer ++ ((d % 256) ∷ [])) h)
      ]

  unfoldable pub lreadstring : io.Source → Cmd (Ptr × io.Source)
  lreadstring f = do (b, g) ← string_loop (tkbuffern - 1) [] f; p ← strcons m b; pure (p, g)

  -- The loop of `lreadsharp` over the digits after `#x`.
  unfoldable pub hex_loop : ℕ → Bytes → io.Source → Cmd (Ptr × io.Source)
  hex_loop zero buf f = do p ← err m "invalid hexnum" 0; pure (p, f)
  hex_loop (suc k) buf f =
      let (o, g) = io.getc f in
      let value : Cmd (Ptr × io.Source) = (do
        p ← flocons m (m.double.of_long (pos (strtoul_hex m.ulong_max buf)))
        pure (p, io.ungetc o g)) in
      elim o [
        | none ↦ value
        | some c ↦ (let more = hex_loop k (buf ++ (c ∷ [])) g in if ends_hex c then value else more)
      ]
