-- ===== src/Reader/Quoted.antt =====
-- On `lreadstring` of winsiod/sliba.c.
use siod.Prelude.{
  ℕ, zero, suc, ◌%◌, ◌≤◌, ◌<◌, ◌≡◌, refl, subst, ◌∙◌, ap, inl, inr, true, false, some, [], ◌∷◌,
  ◌++◌, ◌==◌, arith, if◌then◌else◌, length, All, map, Bool-cases,
}
use mathlib.Core.List.{append_assoc, append-nil}
use siod.Store.{Bytes, State, ok}
use siod.Machine.{Machine}
use siod.Printer.{escape, is_plain}
use siod.Printer.Into.{join}
use siod.Reader.Tokens.{GenReadio, escaped, string_char, string_loop}
use siod.Reader.Source.{Pushback}

-- A byte of a text: not 0, and no more than eight bits.
abbrev pub IsByte : ℕ → Type 0
IsByte c = ((c == 0) ≡ false) × (c < 256)

-- The text of a string after its opening quote, with the quote that closes it.
abbrev pub written : Bytes → Bytes
written t = (if is_plain t then t else join (map escape t)) ++ (34 ∷ [])

module _ (m : Machine) (io : GenReadio) (law : Pushback io) where
  -- The loop reads these bytes up to the closing quote.
  abbrev Reads : ℕ → Bytes → io.Source → State → Bytes → io.Source → Type 0
  Reads k b f s t g = string_loop m io k b f s ≡ ok (t, g) s

  close_quote :
      (k : ℕ) (b : Bytes) (f g : io.Source) (s : State)
      → io.getc f ≡ (some 34, g)
      → Reads k b f s b g
  unfolding string_loop
  close_quote zero b f g s at = rw (at, string_loop) (rw at)
  close_quote (suc k) b f g s at = rw (at, string_loop) (rw at)

  string_char-plain :
      (c : ℕ) (f : io.Source) (s : State) → (c == 92) ≡ false → string_char m io c f s ≡ ok (c, f) s
  unfolding string_char
  string_char-plain c f s e = rw e

  string_char-escape :
      (c : ℕ) (f g : io.Source) (s : State)
      → io.getc f ≡ (some c, g)
      → string_char m io 92 f s ≡ escaped m io c g s
  unfolding string_char
  string_char-escape c f g s at = rw (at, string_char) (rw at)

  plain_char :
      (k c : ℕ) (b : Bytes) (f g : io.Source) (s : State)
      → (c == 34) ≡ false
      → (c == 92) ≡ false
      → c < 256
      → io.getc f ≡ (some c, g)
      → string_loop m io (suc k) b f s ≡ string_loop m io k (b ++ (c ∷ [])) g s
  unfolding string_loop
  plain_char k c b f g s q e lt at =
      let same : c % 256 ≡ c = omega arith in
      rw (at, q, string_loop) (rw (at, string_char-plain c g s e, same))

  escaped_char :
      (k c d : ℕ) (b : Bytes) (f g h : io.Source) (s : State)
      → escaped m io c h s ≡ ok (d, h) s
      → d < 256
      → io.getc f ≡ (some 92, g)
      → io.getc g ≡ (some c, h)
      → string_loop m io (suc k) b f s ≡ string_loop m io k (b ++ (d ∷ [])) h s
  unfolding string_loop
  escaped_char k c d b f g h s e lt at at' =
      let same : d % 256 ≡ d = omega arith in
      rw (at, string_loop) (rw (at, string_char-escape c g h s at', e, same))

  -- One character of the text is read, and the loop goes on behind it.
  abbrev Steps : ℕ → ℕ → Bytes → io.Source → State → Bytes → Type 0
  Steps c k b f s w =
      (g : io.Source) × (string_loop m io (suc k) b f s ≡ string_loop m io k (b ++ (c ∷ [])) g s)
      × (law.ahead g ≡ w)

  step_plain :
      (c k : ℕ) (b : Bytes) (f : io.Source) (s : State) (w : Bytes)
      → (c == 34) ≡ false
      → (c == 92) ≡ false
      → c < 256
      → law.ahead f ≡ c ∷ w
      → Steps c k b f s w
  step_plain c k b f s w q e lt at =
      let (g, got, left, back) = law.getc_char f c w at in
      (g, plain_char k c b f g s q e lt got, left)

  step_escaped :
      (c d k : ℕ) (b : Bytes) (f : io.Source) (s : State) (w : Bytes)
      → ((h : io.Source) → escaped m io c h s ≡ ok (d, h) s)
      → d < 256
      → law.ahead f ≡ 92 ∷ c ∷ w
      → Steps d k b f s w
  step_escaped c d k b f s w e lt at =
      let (g, got, left, back) = law.getc_char f 92 (c ∷ w) at in
      let (h, got', left', back') = law.getc_char g c w left in
      (h, escaped_char k c d b f g h s (e h) lt got got', left')

  at_char :
      (c n k : ℕ) (b : Bytes) (f : io.Source) (s : State) (w : Bytes)
      → (c == n) ≡ true
      → (law.ahead f ≡ escape n ++ w → Steps n k b f s w)
      → law.ahead f ≡ escape c ++ w
      → Steps c k b f s w
  at_char c n k b f s w e step =
      let same : n ≡ c = ground arith in
      subst (λ x. law.ahead f ≡ escape x ++ w → Steps x k b f s w) same step

  step_escape :
      (c k : ℕ) (b : Bytes) (f : io.Source) (s : State) (w : Bytes)
      → IsByte c
      → law.ahead f ≡ escape c ++ w
      → Steps c k b f s w
  unfolding escape escaped
  step_escape c k b f s w (pos, lt) at = elim (Bool-cases (c == 92)) [
    | inl back ↦
        at_char c 92 k b f s w back (step_escaped 92 92 k b f s w (λ h. refl) (omega arith)) at
    | inr no_back ↦ elim (Bool-cases (c == 34)) [
      | inl quote ↦
          at_char c 34 k b f s w quote (step_escaped 34 34 k b f s w (λ h. refl) (omega arith)) at
      | inr no_quote ↦ elim (Bool-cases (c == 10)) [
        | inl line ↦
            at_char c 10 k b f s w line (step_escaped 110 10 k b f s w (λ h. refl) (omega arith)) at
        | inr no_line ↦ elim (Bool-cases (c == 13)) [
          | inl ret ↦
              at_char c 13 k b f s w ret (step_escaped 114 13 k b f s w (λ h. refl) (omega arith))
                at
          | inr no_ret ↦ elim (Bool-cases (c == 9)) [
            | inl tab ↦
                at_char c 9 k b f s w tab (step_escaped 116 9 k b f s w (λ h. refl) (omega arith))
                  at
            | inr no_tab ↦
                step_plain c k b f s w no_quote no_back lt
                  (at ∙ rw (no_back, no_quote, no_line, no_ret, no_tab))
          ]
        ]
      ]
    ]
  ]

  -- A text as it is written with escapes is read back, up to the closing quote.
  read_escaped :
      (t b : Bytes) (k : ℕ) (f : io.Source) (s : State) (w : Bytes)
      → All IsByte t
      → length t ≤ k
      → law.ahead f ≡ join (map escape t) ++ (34 ∷ w)
      → (g : io.Source) × Reads k b f s (b ++ t) g × (law.ahead g ≡ w)
  read_escaped [] b k f s w h le at =
      let (g, got, left, back) = law.getc_char f 34 w at in
      (g, rw (append-nil b) (close_quote k b f g s got), left)
  read_escaped (c ∷ t) b zero f s w h le at = absurd (omega arith)
  read_escaped (c ∷ t) b (suc k) f s w (h, hs) le at =
      let apart = append_assoc (escape c) (join (map escape t)) (34 ∷ w) in
      let (g, run, left) = step_escape c k b f s (join (map escape t) ++ (34 ∷ w)) h (at ∙ apart) in
      let (g', run', left') = read_escaped t (b ++ (c ∷ [])) k g s w hs (omega arith) left in
      (g', run ∙ run' ∙ ap (λ x. ok (x, g') s) (append_assoc b (c ∷ []) t), left')

  -- So is a text that needs none.
  read_plain :
      (t b : Bytes) (k : ℕ) (f : io.Source) (s : State) (w : Bytes)
      → All IsByte t
      → is_plain t ≡ true
      → length t ≤ k
      → law.ahead f ≡ t ++ (34 ∷ w)
      → (g : io.Source) × Reads k b f s (b ++ t) g × (law.ahead g ≡ w)
  unfolding is_plain
  read_plain [] b k f s w h e le at =
      let (g, got, left, back) = law.getc_char f 34 w at in
      (g, rw (append-nil b) (close_quote k b f g s got), left)
  read_plain (c ∷ t) b zero f s w h e le at = absurd (omega arith)
  read_plain (c ∷ t) b (suc k) f s w ((pos, lt), hs) e le at =
      let (g, run, left) =
        step_plain c k b f s (t ++ (34 ∷ w)) (ground arith) (ground arith) lt at in
      let (g', run', left') =
        read_plain t (b ++ (c ∷ [])) k g s w hs (ground arith) (omega arith) left in
      (g', run ∙ run' ∙ ap (λ x. ok (x, g') s) (append_assoc b (c ∷ []) t), left')

  pub string_loop-written :
      (t : Bytes) (k : ℕ) (f : io.Source) (s : State) (w : Bytes)
      → All IsByte t
      → length t ≤ k
      → law.ahead f ≡ written t ++ w
      → (g : io.Source) × (string_loop m io k [] f s ≡ ok (t, g) s) × (law.ahead g ≡ w)
  string_loop-written t k f s w h le at = elim (Bool-cases (is_plain t)) [
    | inl e ↦ read_plain t [] k f s w h e le (at ∙ rw e (append_assoc t (34 ∷ []) w))
    | inr e ↦
        read_escaped t [] k f s w h le (at ∙ rw e (append_assoc (join (map escape t)) (34 ∷ []) w))
  ]
