-- ===== src/Examples/Texts.antt =====
-- The functions on strings of winsiod/sliba.c and the buffers of winsiod/slib.c on small inputs.
use siod.Prelude.{◌≡◌, ◌++◌, refl, [], ◌∷◌, ◌==◌, arith, codes, get_or, length, take, if◌then◌else◌}
use siod.Store.{Bytes, string, free_cell, State, obj, ok}
use siod.Alloc.{c_str}
use siod.Alloc.Fresh.{Ready, Fresh}
use siod.Strings.{string_trim}
use siod.Strings.Chars.{safe_strcat}
use siod.Strings.Trim.{Trimmed, string_trim-Trimmed}
use siod.Strings.Buffer.{safe_strcat-take}
use siod.Examples.{machine}
use siod.Examples.Reading.{reading, cells_read}

-- A text with blanks at 15.
abbrev spaced : State
spaced = record reading {
  cells = λ p. if p == 15 then string (codes " a b\n") else get_or cells_read p (free_cell 0);
}

spaced-Ready : Ready spaced (10 ∷ 11 ∷ 12 ∷ 13 ∷ 14 ∷ [])
unfolding obj
spaced-Ready = record {
  sweeping = refl;
  chain = (
    refl,
    refl,
    (
      11,
      refl,
      (
        refl,
        refl,
        (
          12,
          refl,
          (refl, refl, (13, refl, (refl, refl, (14, refl, (refl, refl, (0, refl, refl)))))),
        ),
      ),
    ),
  );
}

string_trim-Trimmed_example :
    (t : State) × (w : Bytes) × (string_trim machine 15 spaced ≡ ok 10 t)
    × Fresh spaced t 10 (string w) (11 ∷ 12 ∷ 13 ∷ 14 ∷ [])
    × Trimmed (c_str (codes " a b\n")) w
unfolding obj
string_trim-Trimmed_example =
    string_trim-Trimmed machine 15 (codes " a b\n") spaced refl spaced-Ready

-- A buffer of six bytes that holds `ab`.
safe_strcat-take_example :
    (c_str (safe_strcat (97 ∷ 98 ∷ 0 ∷ 0 ∷ 0 ∷ 0 ∷ []) (codes "xyzuv"))
      ≡ take 5 (c_str (97 ∷ 98 ∷ 0 ∷ 0 ∷ 0 ∷ 0 ∷ []) ++ codes "xyzuv"))
    × (length (safe_strcat (97 ∷ 98 ∷ 0 ∷ 0 ∷ 0 ∷ 0 ∷ []) (codes "xyzuv")) ≡ 6)
unfolding c_str
safe_strcat-take_example =
    safe_strcat-take 5 (97 ∷ 98 ∷ 0 ∷ 0 ∷ 0 ∷ 0 ∷ []) (codes "xyzuv") refl (omega arith)
      (refl, (refl, (refl, (refl, (refl, tt)))))
