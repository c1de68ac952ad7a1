-- ===== src/Strings/Trim.antt =====
-- On `string_trim` of winsiod/sliba.c.
use siod.Prelude.{
  ℕ, ◌≡◌, refl, ◌∙◌, ap, subst, true, false, List, [], ◌∷◌, ◌++◌, All, Bool-cases, inl, inr, ◌⊎◌,
}
use siod.Store.{Ptr, Bytes, string, State, obj, ok}
use siod.Machine.{Machine}
use siod.Alloc.{c_str}
use siod.Alloc.Error.{get_c_string, try_get_c_string, strcons}
use siod.Alloc.Fresh.{Ready, Fresh, alloc-Fresh}
use siod.Strings.{string_trim}
use siod.Strings.Chars.{is_trim_space, trim_front, trim_end}

abbrev pub IsBlank : ℕ → Type 0
IsBlank c = is_trim_space c ≡ true

-- The text is empty, or starts with a character that is no blank.
abbrev pub StartsClean : Bytes → Type 0
StartsClean [] = Unit
StartsClean (c ∷ cs) = is_trim_space c ≡ false

-- The text is empty, or ends with a character that is no blank.
abbrev pub EndsClean : Bytes → Type 0
EndsClean [] = Unit
EndsClean (c ∷ []) = is_trim_space c ≡ false
EndsClean (c ∷ d ∷ ds) = EndsClean (d ∷ ds)

trim_front-blanks :
    (s : Bytes) → (a : Bytes) × All IsBlank a × (s ≡ a ++ trim_front s) × StartsClean (trim_front s)
unfolding trim_front
trim_front-blanks [] = ([], tt, refl, tt)
trim_front-blanks (c ∷ cs) = elim (Bool-cases (is_trim_space c)) [
  | inl e ↦
      let (a, blanks, parts, clean) = trim_front-blanks cs in
      (c ∷ a, (e, blanks), rw e (ap (λ w. c ∷ w) parts), rw e clean)
  | inr e ↦ ([], tt, rw e, rw e e)
]

List-cases : (xs : Bytes) → (xs ≡ []) ⊎ ((d : ℕ) × (ds : Bytes) × (xs ≡ d ∷ ds))
List-cases [] = inl refl
List-cases (d ∷ ds) = inr (d, ds, refl)

trim_end-blanks :
    (s : Bytes) → (b : Bytes) × All IsBlank b × (s ≡ trim_end s ++ b) × EndsClean (trim_end s)
unfolding trim_end
trim_end-blanks [] = ([], tt, refl, tt)
trim_end-blanks (c ∷ cs) =
    let (b, blanks, parts, clean) = trim_end-blanks cs in
    elim (List-cases (trim_end cs)) [
      | inl none_left ↦
          let all : cs ≡ b = parts ∙ ap (λ w. w ++ b) none_left in
          elim (Bool-cases (is_trim_space c)) [
            | inl e ↦
                (c ∷ b, (e, blanks), rw (none_left, e) (ap (λ w. c ∷ w) all), rw (none_left, e) tt)
            | inr e ↦ (b, blanks, rw (none_left, e) (ap (λ w. c ∷ w) all), rw (none_left, e) e)
          ]
      | inr (d, ds, some_left) ↦ (
        b,
        blanks,
        rw some_left (ap (λ w. c ∷ w) (parts ∙ ap (λ w. w ++ b) some_left)),
        rw some_left (subst EndsClean some_left clean),
      )
    ]

trim_end-StartsClean : (t : Bytes) → StartsClean t → StartsClean (trim_end t)
unfolding trim_end
trim_end-StartsClean [] h = tt
trim_end-StartsClean (c ∷ cs) h = elim (List-cases (trim_end cs)) [
  | inl e ↦ rw (e, h) h
  | inr (d, ds, e) ↦ rw e h
]

-- What `string_trim` makes of a text: the text less blanks at both ends.
pub record Trimmed (s t : Bytes) : Type 0 where
  pub before : Bytes
  pub after : Bytes
  pub blank_before : All IsBlank before
  pub blank_after : All IsBlank after
  pub parts : s ≡ before ++ (t ++ after)
  pub starts : StartsClean t
  pub ends : EndsClean t

string_trim_run :
    (m : Machine) (p q : Ptr) (s t : State) {b : Bytes}
    → obj s p ≡ string b
    → strcons m (trim_end (trim_front (c_str b))) s ≡ ok q t
    → string_trim m p s ≡ ok q t
unfolding string_trim get_c_string try_get_c_string
string_trim_run m p q s t e run = rw (e, get_c_string, string_trim) run

-- `string_trim` of a string cell, with a free cell, makes a new string and changes no cell in use: the
-- text of the string is blanks, the new text and blanks, and the new text neither starts nor ends with
-- a blank.
pub string_trim-Trimmed :
    (m : Machine) (p : Ptr) (b : Bytes) (s : State) {q : Ptr} {xs : List Ptr}
    → obj s p ≡ string b
    → Ready s (q ∷ xs)
    → (t : State) × (w : Bytes) × (string_trim m p s ≡ ok q t)
      × Fresh s t q (string w) xs
      × Trimmed (c_str b) w
unfolding strcons
string_trim-Trimmed m p b s {q} e r =
    let front = trim_front (c_str b) in
    let w = trim_end front in
    let (before, blank_before, parts, starts) = trim_front-blanks (c_str b) in
    let (after, blank_after, parts', ends) = trim_end-blanks front in
    let (t, run, fresh) = alloc-Fresh m (string w) s r in
    (
      t,
      w,
      string_trim_run m p q s t e run,
      fresh,
      record {
        before = before;
        after = after;
        blank_before = blank_before;
        blank_after = blank_after;
        parts = parts ∙ ap (λ x. before ++ x) parts';
        starts = trim_end-StartsClean front starts;
        ends = ends;
      },
    )
