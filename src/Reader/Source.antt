-- ===== src/Reader/Source.antt =====
-- On the character sources of the reader: `struct gen_readio` with a text ahead, `rfs_getc` and
-- `rfs_ungetc` of winsiod/sliba.c as one, and `flush_ws` of winsiod/slib.c on it.
use siod.Prelude.{
  ℕ, zero, suc, ◌≤◌, ◌≡◌, refl, ◌∙◌, ap, ◌⊎◌, inl, inr, false, ◌||◌, Option, none, some, [], ◌∷◌,
  ◌==◌, arith, String, Bool-cases,
}
use siod.Store.{Bytes, State, ok}
use siod.Machine.{Machine}
use siod.Alloc.{c_str}
use siod.Reader.Chars.{is_space}
use siod.Reader.Tokens.{GenReadio, Text, rfs, rfs_getc, rfs_ungetc, flush_loop, flush_ws}

-- A source has a text ahead: `getc` takes its first character, which `ungetc` puts back.
pub record Pushback (io : GenReadio) : Type 0 where
  pub ahead : io.Source → Bytes
  pub getc_end :
      (f : io.Source) → ahead f ≡ [] → (g : io.Source) × (io.getc f ≡ (none, g)) × (ahead g ≡ [])
  pub getc_char :
      (f : io.Source) (c : ℕ) (cs : Bytes)
      → ahead f ≡ c ∷ cs
      → (g : io.Source) × (io.getc f ≡ (some c, g))
        × (ahead g ≡ cs)
        × (ahead (io.ungetc (some c) g) ≡ c ∷ cs)

unfoldable pub rfs_ahead : Text → Bytes
rfs_ahead (behind, cs) = c_str cs

pub rfs_end :
    (f : Text) → rfs_ahead f ≡ [] → (g : Text) × (rfs_getc f ≡ (none, g)) × (rfs_ahead g ≡ [])
unfolding rfs_ahead rfs_getc c_str
rfs_end (behind, []) e = ((behind, []), refl, refl)
rfs_end (behind, c ∷ cs) e = elim (Bool-cases (c == 0)) [
  | inl z ↦ ((behind, c ∷ cs), rw z, rw z)
  | inr z ↦ absurd (ground arith)
]

pub rfs_char :
    (f : Text) (c : ℕ) (cs : Bytes)
    → rfs_ahead f ≡ c ∷ cs
    → (g : Text) × (rfs_getc f ≡ (some c, g))
      × (rfs_ahead g ≡ cs)
      × (rfs_ahead (rfs_ungetc (some c) g) ≡ c ∷ cs)
unfolding rfs_ahead rfs_getc rfs_ungetc c_str
rfs_char (behind, []) c cs e = absurd (ground arith)
rfs_char (behind, d ∷ ds) c cs e = elim (Bool-cases (d == 0)) [
  | inl z ↦ absurd (ground arith)
  | inr z ↦
      let same : d ≡ c = ground arith in
      let rest : c_str ds ≡ cs = ground arith in
      (
        (d ∷ behind, ds),
        rw z (ap (λ x. (some x, (d ∷ behind, ds))) same),
        rest,
        rw z (λ i. same i ∷ rest i),
      )
]

abbrev pub rfs-Pushback : Pushback rfs
rfs-Pushback = record { ahead = rfs_ahead; getc_end = rfs_end; getc_char = rfs_char }

-- The text, perhaps with a blank in front, or perhaps less a blank in front.
abbrev pub Near : Bytes → Bytes → Type 0
Near ahead w = (ahead ≡ w) ⊎ (ahead ≡ 32 ∷ w)

abbrev pub Past : Bytes → Bytes → Type 0
Past rest ahead = (ahead ≡ rest) ⊎ (rest ≡ 32 ∷ ahead)

-- The end of the input, a blank or a close paren comes next.
abbrev pub Stops : Bytes → Type 0
Stops rest = (rest ≡ []) ⊎ (((ds : Bytes) × (rest ≡ 32 ∷ ds)) ⊎ ((ds : Bytes) × (rest ≡ 41 ∷ ds)))

-- A character that `flush_ws` stops at.
abbrev pub IsSolid : ℕ → Type 0
IsSolid c = (c == b';' || is_space c) ≡ false

-- What a run of `flush_ws` gives that stops at `c`.
pub record Stopped (m : Machine) (io : GenReadio) (law : Pushback io) (eoferr : Option String)
    (f : io.Source) (s : State) (c : ℕ) (cs : Bytes) : Type 0 where
  pub next : io.Source
  pub returns : flush_ws m io eoferr f s ≡ ok (some c, next) s
  pub left : law.ahead next ≡ cs
  pub back : law.ahead (io.ungetc (some c) next) ≡ c ∷ cs

module _ (m : Machine) (io : GenReadio) (law : Pushback io) (e : Option String) where
  flush_solid :
      (n c : ℕ) (f g : io.Source) (s : State)
      → IsSolid c
      → io.getc f ≡ (some c, g)
      → flush_loop m io (suc n) false e f s ≡ ok (some c, g) s
  unfolding flush_loop
  flush_solid n c f g s solid at = rw (at, solid, flush_loop) (rw at)

  flush_blank :
      (n : ℕ) (f g : io.Source) (s : State)
      → io.getc f ≡ (some 32, g)
      → flush_loop m io (suc n) false e f s ≡ flush_loop m io n false e g s
  unfolding flush_loop is_space
  flush_blank n f g s at = rw (at, flush_loop) (rw at)

  flush_one :
      (n c : ℕ) (f g : io.Source) (s : State)
      → 2 ≤ n
      → IsSolid c
      → io.getc f ≡ (some c, g)
      → flush_loop m io n false e f s ≡ ok (some c, g) s
  flush_one zero c f g s le solid at = absurd (omega arith)
  flush_one (suc n) c f g s le solid at = flush_solid n c f g s solid at

  flush_two :
      (n c : ℕ) (f g h : io.Source) (s : State)
      → 2 ≤ n
      → IsSolid c
      → io.getc f ≡ (some 32, g)
      → io.getc g ≡ (some c, h)
      → flush_loop m io n false e f s ≡ ok (some c, h) s
  flush_two zero c f g h s le solid at at' = absurd (omega arith)
  flush_two (suc zero) c f g h s le solid at at' = absurd (omega arith)
  flush_two (suc (suc n)) c f g h s le solid at at' =
      flush_blank (suc n) f g s at ∙ flush_solid n c g h s solid at'

  pub flush-Near :
      (c : ℕ) (cs : Bytes) (f : io.Source) (s : State)
      → 2 ≤ m.fuel
      → IsSolid c
      → Near (law.ahead f) (c ∷ cs)
      → Stopped m io law e f s c cs
  unfolding flush_ws
  flush-Near c cs f s fuel solid (inl at) =
      let (g, got, left, back) = law.getc_char f c cs at in
      record {
        next = g;
        returns = flush_one m.fuel c f g s fuel solid got;
        left = left;
        back = back;
      }
  flush-Near c cs f s fuel solid (inr at) =
      let (g, got, left, back) = law.getc_char f 32 (c ∷ cs) at in
      let (h, got', left', back') = law.getc_char g c cs left in
      record {
        next = h;
        returns = flush_two m.fuel c f g h s fuel solid got got';
        left = left';
        back = back';
      }
