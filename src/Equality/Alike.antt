-- ===== src/Equality/Alike.antt =====
-- Data of one kind, and when two data are the same for `equal` of winsiod/sliba.c.
use siod.Prelude.{ℕ, ◌≡◌, refl, Bool, true, false, ◌&&◌, ◌==◌, arith}
use siod.Store.{Ptr, Bytes, Bits}
use siod.Machine.{Machine}
use siod.Symbols.{same_bytes}
use siod.Printer.Datum.{Datum, empty, number, name, text, pair}

-- The type code of the cell that holds the data.
abbrev pub code_of : Datum → ℕ
code_of empty = 0
code_of (pair a d) = 1
code_of (number x) = 2
code_of (name q b) = 3
code_of (text b) = 13

-- Equal numbers, the same symbol, equal bytes, or pairs of such parts.
module _ (m : Machine) where
  abbrev pub same : Datum → Datum → Bool
  same empty empty = true
  same (number x) (number y) = m.double.eq x y
  same (name q b) (name q' b') = q == q'
  same (text b) (text b') = same_bytes b b'
  same (pair a d) (pair a' d') = same a a' && same d d'
  same _ _ = false

pub data Alike : Datum → Datum → Type 0 where
  both_empty : Alike empty empty
  both_number : (x x' : Bits) → Alike (number x) (number x')
  both_name : (q : Ptr) (b : Bytes) (q' : Ptr) (b' : Bytes) → Alike (name q b) (name q' b')
  both_text : (b b' : Bytes) → Alike (text b) (text b')
  both_pair : (a d a' d' : Datum) → Alike (pair a d) (pair a' d')

pub alike : (t u : Datum) → (code_of t == code_of u) ≡ true → Alike t u
alike empty empty h = both_empty
alike empty (number x') h = absurd (ground arith)
alike empty (name q' b') h = absurd (ground arith)
alike empty (text b') h = absurd (ground arith)
alike empty (pair a' d') h = absurd (ground arith)
alike (number x) empty h = absurd (ground arith)
alike (number x) (number x') h = both_number x x'
alike (number x) (name q' b') h = absurd (ground arith)
alike (number x) (text b') h = absurd (ground arith)
alike (number x) (pair a' d') h = absurd (ground arith)
alike (name q b) empty h = absurd (ground arith)
alike (name q b) (number x') h = absurd (ground arith)
alike (name q b) (name q' b') h = both_name q b q' b'
alike (name q b) (text b') h = absurd (ground arith)
alike (name q b) (pair a' d') h = absurd (ground arith)
alike (text b) empty h = absurd (ground arith)
alike (text b) (number x') h = absurd (ground arith)
alike (text b) (name q' b') h = absurd (ground arith)
alike (text b) (text b') h = both_text b b'
alike (text b) (pair a' d') h = absurd (ground arith)
alike (pair a d) empty h = absurd (ground arith)
alike (pair a d) (number x') h = absurd (ground arith)
alike (pair a d) (name q' b') h = absurd (ground arith)
alike (pair a d) (text b') h = absurd (ground arith)
alike (pair a d) (pair a' d') h = both_pair a d a' d'

pub unlike : (m : Machine) (t u : Datum) → (code_of t == code_of u) ≡ false → same m t u ≡ false
unlike m empty empty h = absurd (ground arith)
unlike m empty (number x') h = refl
unlike m empty (name q' b') h = refl
unlike m empty (text b') h = refl
unlike m empty (pair a' d') h = refl
unlike m (number x) empty h = refl
unlike m (number x) (number x') h = absurd (ground arith)
unlike m (number x) (name q' b') h = refl
unlike m (number x) (text b') h = refl
unlike m (number x) (pair a' d') h = refl
unlike m (name q b) empty h = refl
unlike m (name q b) (number x') h = refl
unlike m (name q b) (name q' b') h = absurd (ground arith)
unlike m (name q b) (text b') h = refl
unlike m (name q b) (pair a' d') h = refl
unlike m (text b) empty h = refl
unlike m (text b) (number x') h = refl
unlike m (text b) (name q' b') h = refl
unlike m (text b) (text b') h = absurd (ground arith)
unlike m (text b) (pair a' d') h = refl
unlike m (pair a d) empty h = refl
unlike m (pair a d) (number x') h = refl
unlike m (pair a d) (name q' b') h = refl
unlike m (pair a d) (text b') h = refl
unlike m (pair a d) (pair a' d') h = absurd (ground arith)
