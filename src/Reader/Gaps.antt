-- ===== src/Reader/Gaps.antt =====
-- On `flush_ws` and `readtl` of winsiod/slib.c before the first character that counts, and on
-- `lreadr` with `rfs_ungetc` of winsiod/sliba.c at the end of a text.
use siod.Prelude.{
  ℕ, zero, suc, ◌<◌, ◌≡◌, refl, ◌∙◌, ap, Bool, true, false, not, ◌||◌, Option, none, some, List, [],
  ◌∷◌, ◌++◌, ◌==◌, arith, String, if◌then◌else◌, length, codes,
}
use siod.Store.{Ptr, Bytes, Frame, State, ok, caught, Cmd}
use siod.Machine.{Machine}
use siod.Alloc.Error.{err_stack}
use siod.Alloc.Reports.{Catching, Reports, fail-Reports}
use siod.Reader.{lreadr, read_at, read_prefixed, comma, readtl}
use siod.Reader.Chars.{is_space}
use siod.Reader.Tokens.{GenReadio, Text, rfs, rfs_getc, rfs_ungetc, flush_loop, flush_ws, at_eof}
use siod.Reader.Source.{Pushback, IsSolid}

-- A text that says nothing: blanks, and comments up to the ends of their lines. The flag says that
-- it starts inside a comment.
pub data Gap : Bool → Bytes → Type 0 where
  done : Gap false []
  blank : (c : ℕ) (w : Bytes) → is_space c ≡ true → Gap false w → Gap false (c ∷ w)
  opens : (w : Bytes) → Gap true w → Gap false (b';' ∷ w)
  inside : (c : ℕ) (w : Bytes) → (c == b'\n') ≡ false → Gap true w → Gap true (c ∷ w)
  closes : (w : Bytes) → Gap false w → Gap true (b'\n' ∷ w)

module _ (m : Machine) (io : GenReadio) (law : Pushback io) (e : Option String) where
  flush_skip :
      (n c : ℕ) (flag : Bool) (f g : io.Source) (s : State)
      → io.getc f ≡ (some c, g)
      → (flag || (c == b';' || is_space c)) ≡ true
      → flush_loop m io (suc n) flag e f s
        ≡ flush_loop m io n (if flag then not (c == b'\n') else c == b';') e g s
  unfolding flush_loop
  flush_skip n c flag f g s at skip = rw (at, skip, flush_loop) (rw at)

  -- What the loop gives at the first character behind the gap.
  abbrev At : ℕ → Bool → io.Source → State → ℕ → Bytes → Type 0
  At n flag f s c cs =
      (g : io.Source) × (flush_loop m io n flag e f s ≡ ok (some c, g) s)
      × (law.ahead g ≡ cs)
      × (law.ahead (io.ungetc (some c) g) ≡ c ∷ cs)

  skip_one :
      (n c d : ℕ) (flag next : Bool) (f : io.Source) (s : State) (w cs : Bytes)
      → law.ahead f ≡ d ∷ (w ++ (c ∷ cs))
      → (flag || (d == b';' || is_space d)) ≡ true
      → (if flag then not (d == b'\n') else d == b';') ≡ next
      → ((g : io.Source) → law.ahead g ≡ w ++ (c ∷ cs) → At n next g s c cs)
      → At (suc n) flag f s c cs
  skip_one n c d flag next f s w cs at skip same rec =
      let (g, got, left, back) = law.getc_char f d (w ++ (c ∷ cs)) at in
      let (h, run, left', back') = rec g left in
      (
        h,
        flush_skip n d flag f g s got skip ∙ ap (λ x. flush_loop m io n x e g s) same ∙ run,
        left',
        back',
      )

  flush_gap :
      (n c : ℕ) (flag : Bool) (gap cs : Bytes) (f : io.Source) (s : State)
      → Gap flag gap
      → length gap < n
      → IsSolid c
      → law.ahead f ≡ gap ++ (c ∷ cs)
      → At n flag f s c cs
  unfolding flush_loop is_space
  flush_gap zero c flag gap cs f s q lt solid at = absurd (omega arith)
  flush_gap (suc n) c flag gap cs f s done lt solid at =
      let (g, got, left, back) = law.getc_char f c cs at in
      (g, rw (got, solid, flush_loop) (rw got), left, back)
  flush_gap (suc n) c flag gap cs f s (blank d w h q) lt solid at =
      skip_one n c d false false f s w cs at (ground arith) (ground arith)
        (λ g left. flush_gap n c false w cs g s q (omega (arith, lt)) solid left)
  flush_gap (suc n) c flag gap cs f s (opens w q) lt solid at =
      skip_one n c b';' false true f s w cs at refl refl
        (λ g left. flush_gap n c true w cs g s q (omega (arith, lt)) solid left)
  flush_gap (suc n) c flag gap cs f s (inside d w h q) lt solid at =
      skip_one n c d true true f s w cs at refl (ground arith)
        (λ g left. flush_gap n c true w cs g s q (omega (arith, lt)) solid left)
  flush_gap (suc n) c flag gap cs f s (closes w q) lt solid at =
      skip_one n c b'\n' true false f s w cs at refl refl
        (λ g left. flush_gap n c false w cs g s q (omega (arith, lt)) solid left)

  flush_end :
      (n : ℕ) (flag : Bool) (gap : Bytes) (f : io.Source) (s : State)
      → Gap flag gap
      → length gap < n
      → law.ahead f ≡ gap
      → (g : io.Source) × (flush_loop m io n flag e f s ≡ at_eof m io e g s) × (law.ahead g ≡ [])
  unfolding flush_loop is_space
  flush_end zero flag gap f s q lt at = absurd (omega arith)
  flush_end (suc n) flag gap f s done lt at =
      let (g, got, left) = law.getc_end f at in (g, rw (got, flush_loop) (rw got), left)
  flush_end (suc n) flag gap f s (blank d w h q) lt at =
      let (g, got, left, back) = law.getc_char f d w at in
      let skips : (d == b';' || is_space d) ≡ true = ground arith in
      let none_there : (d == b';') ≡ false = ground arith in
      let (h', run, end) = flush_end n false w g s q (omega (arith, lt)) left in
      (
        h',
        flush_skip n d false f g s got skips ∙ ap (λ x. flush_loop m io n x e g s) none_there ∙ run,
        end,
      )
  flush_end (suc n) flag gap f s (opens w q) lt at =
      let (g, got, left, back) = law.getc_char f b';' w at in
      let (h', run, end) = flush_end n true w g s q (omega (arith, lt)) left in
      (h', flush_skip n b';' false f g s got refl ∙ run, end)
  flush_end (suc n) flag gap f s (inside d w h q) lt at =
      let (g, got, left, back) = law.getc_char f d w at in
      let still : not (d == b'\n') ≡ true = ground arith in
      let (h', run, end) = flush_end n true w g s q (omega (arith, lt)) left in
      (
        h',
        flush_skip n d true f g s got refl ∙ ap (λ x. flush_loop m io n x e g s) still ∙ run,
        end,
      )
  flush_end (suc n) flag gap f s (closes w q) lt at =
      let (g, got, left, back) = law.getc_char f b'\n' w at in
      let (h', run, end) = flush_end n false w g s q (omega (arith, lt)) left in
      (h', flush_skip n b'\n' true f g s got refl ∙ run, end)

-- With more rounds than the gap has characters, and a source with nothing but blanks and whole
-- comments ahead, `readtl` reads all of it, returns `eof_val` and changes nothing.
pub readtl-end :
    (m : Machine) (io : GenReadio) (law : Pushback io) (gap : Bytes) (f : io.Source) (s : State)
    → Gap false gap
    → length gap < m.fuel
    → law.ahead f ≡ gap
    → (g : io.Source) × (readtl m io f s ≡ ok (s.symbols.eof_val, g) s) × (law.ahead g ≡ [])
unfolding readtl flush_ws at_eof
readtl-end m io law gap f s q lt at =
    let (g, run, left) = flush_end m io law none m.fuel false gap f s q lt at in (g, rw run, left)

-- With more rounds than the gap has characters, and a source with blanks and whole comments ahead and
-- then another character, `readtl` is `lreadr` from this character on.
pub readtl-gap :
    (m : Machine) (io : GenReadio) (law : Pushback io) (gap : Bytes) (c : ℕ) (cs : Bytes)
    (f : io.Source) (s : State)
    → Gap false gap
    → length gap < m.fuel
    → IsSolid c
    → law.ahead f ≡ gap ++ (c ∷ cs)
    → (g : io.Source) × (readtl m io f s ≡ lreadr m io m.fuel g s) × (law.ahead g ≡ c ∷ cs)
unfolding readtl flush_ws
readtl-gap m io law gap c cs f s q lt solid at =
    let (g, run, left, back) = flush_gap m io law none m.fuel c false gap cs f s q lt solid at in
    (io.ungetc (some c) g, rw run, back)

comma-end :
    (m : Machine) (behind : Bytes)
    → comma m rfs (44 ∷ behind, []) ≡ (codes "+internal-comma", (behind, 44 ∷ []))
unfolding comma rfs_getc rfs_ungetc
comma-end m behind = refl

read_prefixed-caught :
    (m : Machine) (read : Text → Cmd (Ptr × Text)) (b : Bytes) (f : Text) (s t : State) (k : ℕ)
    → read f s ≡ caught k t
    → read_prefixed m rfs read b f s ≡ caught k t
unfolding read_prefixed
read_prefixed-caught m read b f s t k e = rw e refl

flush_comma :
    (m : Machine) (n : ℕ) (e : Option String) (behind : Bytes) (s : State)
    → flush_loop m rfs (suc n) false e (behind, 44 ∷ []) s ≡ ok (some 44, (44 ∷ behind, [])) s
unfolding flush_loop is_space rfs_getc
flush_comma m n e behind s = refl

flush_ws-comma :
    (m : Machine) (e : Option String) (behind : Bytes) (s : State)
    → 0 < m.fuel
    → flush_ws m rfs e (behind, 44 ∷ []) s ≡ ok (some 44, (44 ∷ behind, [])) s
unfolding flush_ws
flush_ws-comma m e behind s lt = go m.fuel lt
  where
    go :
        (n : ℕ)
        → 0 < n
        → flush_loop m rfs n false e (behind, 44 ∷ []) s ≡ ok (some 44, (44 ∷ behind, [])) s
    go zero h = absurd (omega arith)
    go (suc n) h = flush_comma m n e behind s

comma-caught :
    (m : Machine) (n : ℕ) (behind : Bytes) (s t : State) (k : ℕ)
    → 0 < m.fuel
    → err_stack {A = Ptr × Text} m s ≡ caught k t
    → lreadr m rfs n (behind, 44 ∷ []) s ≡ caught k t
unfolding lreadr read_at
comma-caught m zero behind s t k lt e = e
comma-caught m (suc n) behind s t k lt e =
    rw (flush_ws-comma m (some "end of file inside read") behind s lt, lreadr)
      (rw (comma-end m behind, read_at)
        (read_prefixed-caught m (lreadr m rfs n) (codes "+internal-comma") (behind, 44 ∷ []) s t k
          (comma-caught m n behind s t k lt e)))

-- Where a text ends in a comma, and a frame would catch an error, `lreadr` reports that the stack
-- limit is exceeded, whatever the number of calls that the stack has room for, and not the end of the
-- text: `rfs_ungetc` puts the comma back in place of the end, and `lreadr` reads it again.
pub lreadr-comma :
    (m : Machine) (n : ℕ) (behind : Bytes) (s : State) (outer : List Frame)
    → 0 < m.fuel
    → Catching s outer
    → Reports s
        (length outer)
        (codes "the currently assigned stack limit has been exceded")
        0
        (lreadr m rfs n (behind, 44 ∷ []) s)
unfolding err_stack
lreadr-comma m n behind s outer lt c =
    let r =
      fail-Reports {A = Ptr × Text} m "the currently assigned stack limit has been exceded" 0 s
        outer c in
    record {
      end = r.end;
      jump = comma-caught m n behind s r.end (length outer) lt r.jump;
      signalled = r.signalled;
    }
