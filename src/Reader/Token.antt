-- ===== src/Reader/Token.antt =====
-- On the loop of `lreadr` of winsiod/slib.c over a token.
use siod.Prelude.{
  ℕ, zero, suc, ◌<◌, ◌≡◌, sym, ◌∙◌, ap, inl, inr, false, none, some, [], ◌∷◌, ◌++◌, arith, length,
  All,
}
use mathlib.Core.List.{append_assoc, append-nil}
use siod.Store.{Bytes, State, ok, and_then}
use siod.Machine.{Machine}
use siod.Reader.Chars.{is_space, ends_token, strchr}
use siod.Reader.Tokens.{GenReadio, lreadtk, token_loop}
use siod.Reader.Source.{Pushback, Past, Stops}

-- A character inside a token.
abbrev pub IsTokenChar : ℕ → Type 0
IsTokenChar c = (is_space c ≡ false) × (ends_token c ≡ false)

module _ (m : Machine) (io : GenReadio) (law : Pushback io) where
  token_more :
      (k c : ℕ) (b : Bytes) (f g : io.Source) (s : State)
      → IsTokenChar c
      → io.getc f ≡ (some c, g)
      → token_loop m io (suc k) b f s ≡ token_loop m io k (b ++ (c ∷ [])) g s
  unfolding token_loop
  token_more k c b f g s (blank, ends) at = rw (at, blank, ends, token_loop) (rw at)

  -- The value of the token and the place where the reader goes on.
  abbrev Taken : ℕ → Bytes → io.Source → State → Bytes → io.Source → Type 0
  Taken k b f s t g = token_loop m io k b f s ≡ and_then (lreadtk m t s) (λ p. ok (p, g))

  token_end :
      (k : ℕ) (b : Bytes) (f g : io.Source) (s : State)
      → io.getc f ≡ (none, g)
      → Taken (suc k) b f s b g
  unfolding token_loop
  token_end k b f g s at = rw (at, token_loop) (rw at)

  token_blank :
      (k : ℕ) (b : Bytes) (f g : io.Source) (s : State)
      → io.getc f ≡ (some 32, g)
      → Taken (suc k) b f s b g
  unfolding token_loop is_space
  token_blank k b f g s at = rw (at, token_loop) (rw at)

  token_paren :
      (k : ℕ) (b : Bytes) (f g : io.Source) (s : State)
      → io.getc f ≡ (some 41, g)
      → Taken (suc k) b f s b (io.ungetc (some 41) g)
  unfolding token_loop is_space ends_token strchr
  token_paren k b f g s at = rw (at, token_loop) (rw at)

  stop_token :
      (k : ℕ) (b : Bytes) (f : io.Source) (s : State) (rest : Bytes)
      → law.ahead f ≡ rest
      → Stops rest
      → (g : io.Source) × Taken (suc k) b f s b g × Past rest (law.ahead g)
  stop_token k b f s rest at (inl e) =
      let (g, got, left) = law.getc_end f (at ∙ e) in
      (g, token_end k b f g s got, inl (left ∙ sym e))
  stop_token k b f s rest at (inr (inl (ds, e))) =
      let (g, got, left, back) = law.getc_char f 32 ds (at ∙ e) in
      (g, token_blank k b f g s got, inr (e ∙ ap (λ w. 32 ∷ w) (sym left)))
  stop_token k b f s rest at (inr (inr (ds, e))) =
      let (g, got, left, back) = law.getc_char f 41 ds (at ∙ e) in
      (io.ungetc (some 41) g, token_paren k b f g s got, inl (back ∙ sym e))

  -- The rest of a token that is not too long is read up to the character that stops it.
  pub token_loop-Stops :
      (cs b : Bytes) (k : ℕ) (f : io.Source) (s : State) (rest : Bytes)
      → All IsTokenChar cs
      → length cs < k
      → law.ahead f ≡ cs ++ rest
      → Stops rest
      → (g : io.Source) × Taken k b f s (b ++ cs) g × Past rest (law.ahead g)
  token_loop-Stops cs b zero f s rest h lt at stops = absurd (omega arith)
  token_loop-Stops [] b (suc k) f s rest h lt at stops =
      let (g, run, past) = stop_token k b f s rest at stops in
      (g, run ∙ ap (λ t. and_then (lreadtk m t s) (λ p. ok (p, g))) (sym (append-nil b)), past)
  token_loop-Stops (c ∷ cs) b (suc k) f s rest (h, hs) lt at stops =
      let (g, got, left, back) = law.getc_char f c (cs ++ rest) at in
      let (g', run, past) =
        token_loop-Stops cs (b ++ (c ∷ [])) k g s rest hs (omega arith) left stops in
      let whole = append_assoc b (c ∷ []) cs in
      (
        g',
        token_more k c b f g s h got
            ∙ run
            ∙ ap (λ t. and_then (lreadtk m t s) (λ p. ok (p, g'))) whole,
        past,
      )
