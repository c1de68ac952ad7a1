-- ===== src/Strings.antt =====
-- The functions on strings of winsiod/sliba.c, `get_c_string_dim` and the bounded copies of
-- winsiod/slib.c. Case is that of the C locale, and a plain `char` is taken as a byte below 128 there.
pub mod Buffer
pub mod Trim
pub mod Chars
use siod.Prelude.{
  ℕ, zero, suc, ◌+◌, ◌-◌, ◌*◌, ◌≤◌, Bool, true, false, ◌&&◌, ◌||◌, not, Option, none, some, List,
  [], ◌∷◌, ◌++◌, ◌==◌, ltb, leb, if◌then◌else◌, length, take, drop, set, replicate, map, codes,
  String,
}
use siod.Prelude.Int.{ℤ, pos, negsuc, ltb_ℤ}
use siod.Store.{
  Ptr, Bytes, Obj, symbol, string, byte_array, long_array, State, obj, ok, fault, Cmd, pure, ◌>>=◌,
  ◌>>◌, view, store, is_symbol,
}
use siod.Machine.{Machine}
use siod.Alloc.{c_str}
use siod.Alloc.Error.{fail, alloc, cons_cell, strcons, get_c_string}
use siod.Lists.{truth, exhausted, car, cdr, get_c_long, nreverse}
use siod.Number.{flocons}
use siod.Symbols.{gen_intern, same_bytes}
use siod.Reader.Chars.{strchr}
use siod.Reader.Tokens.{tkbuffern}
use siod.Strings.Chars.{
  is_trim_space, safe_strcat, safe_strcpy, safe_strlen, starts_with, strcmp_less, strcspn,
  strncasecmp, strspn, strstr, tolower, toupper, trim_end, trim_front,
}

module _ (m : Machine) where
  unfoldable pub get_c_string_dim : Ptr → Cmd Bytes
  get_c_string_dim x s = elim (obj s x) [
    | symbol name v ↦ ok name s
    | string b ↦ ok b s
    | byte_array b ↦ ok b s
    | long_array v ↦ ok (m.bytes_of_longs v) s
    | _ ↦ fail m "not a symbol or string" x s
  ]

  -- The texts of a list, as a loop over it reads them with `car` and `cdr`.
  unfoldable pub texts : (Ptr → Cmd Bytes) → ℕ → Ptr → Cmd Bytes
  texts text zero l = exhausted
  texts text (suc f) l =
      let more : Cmd Bytes = (do
        a ← car m l
        b ← text a
        d ← cdr m l
        rest ← texts text f d
        pure (b ++ rest)) in
      if l == 0 then pure [] else more

  unfoldable pub string_append : Ptr → Cmd Ptr
  string_append args = do b ← texts (get_c_string m) m.fuel args; strcons m b

  unfoldable pub bytes_append : Ptr → Cmd Ptr
  bytes_append args = do b ← texts get_c_string_dim m.fuel args; alloc m (byte_array b)

  unfoldable pub substring : Ptr → Ptr → Ptr → Cmd Ptr
  substring str start end = do
    b ← get_c_string_dim str
    s ← get_c_long m start
    let n = pos (length b)
    e ← (if end == 0 then pure n else get_c_long m end)
    if ltb_ℤ s (pos 0) || ltb_ℤ e s
        then fail m "bad start index" start
        else if ltb_ℤ e (pos 0) || ltb_ℤ n e
        then fail m "bad end index" end
        else elim s [
          | pos j ↦ elim e [ pos k ↦ strcons m (take (k - j) (drop j b)) | negsuc k ↦ (λ _. fault) ]
          | negsuc j ↦ (λ _. fault)
        ]

  unfoldable pub string_search : Ptr → Ptr → Cmd Ptr
  string_search token str = do
    s1 ← get_c_string m str
    s2 ← get_c_string m token
    elim (strstr s1 s2) [ none ↦ pure 0 | some k ↦ flocons m (m.double.of_long (pos k)) ]

  unfoldable pub string_trim : Ptr → Cmd Ptr
  string_trim str = do s ← get_c_string m str; strcons m (trim_end (trim_front s))

  unfoldable pub string_trim_left : Ptr → Cmd Ptr
  string_trim_left str = do s ← get_c_string m str; strcons m (trim_front s)

  unfoldable pub string_trim_right : Ptr → Cmd Ptr
  string_trim_right str = do s ← get_c_string m str; strcons m (trim_end s)

  unfoldable pub string_upcase : Ptr → Cmd Ptr
  string_upcase str = do s ← get_c_string m str; strcons m (map toupper s)

  unfoldable pub string_downcase : Ptr → Cmd Ptr
  string_downcase str = do s ← get_c_string m str; strcons m (map tolower s)

  unfoldable pub string_lessp : Ptr → Ptr → Cmd Ptr
  string_lessp x y = do s1 ← get_c_string m x; s2 ← get_c_string m y; truth (strcmp_less s1 s2)

  unfoldable pub lstrspn : Ptr → Ptr → Cmd Ptr
  lstrspn x y = do
    s1 ← get_c_string m x
    s2 ← get_c_string m y
    flocons m (m.double.of_long (pos (strspn s1 s2)))

  unfoldable pub lstrcspn : Ptr → Ptr → Cmd Ptr
  lstrcspn x y = do
    s1 ← get_c_string m x
    s2 ← get_c_string m y
    flocons m (m.double.of_long (pos (strcspn s1 s2)))

  -- The part of the second text that is compared, where the indices fit.
  unfoldable pub compared_part : Bytes → Bytes → ℤ → ℤ → Option Bytes
  compared_part b1 b2 (pos s) (pos e) =
      if leb s e && (leb e (length b2) && e - s == length b1) then some (drop s b2) else none
  compared_part b1 b2 _ _ = none

  unfoldable pub substring_test : (ℕ → Bytes → Bytes → Bool) → Ptr → Ptr → Ptr → Ptr → Cmd Ptr
  substring_test same_part str1 str2 start end = do
    b1 ← get_c_string_dim str1
    b2 ← get_c_string_dim str2
    s ← (if start == 0 then pure (pos 0) else get_c_long m start)
    e ← (if end == 0 then pure (pos (length b1)) else get_c_long m end)
    elim (compared_part b1 b2 s e) [
      | none ↦ pure 0
      | some part ↦ truth (same_part (length b1) b1 part)
    ]

  unfoldable pub substring_equal : Ptr → Ptr → Ptr → Ptr → Cmd Ptr
  substring_equal = substring_test (λ n b1 part. same_bytes b1 (take n part))

  unfoldable pub substring_equalcase : Ptr → Ptr → Ptr → Ptr → Cmd Ptr
  substring_equalcase =
      substring_test
        (λ n b1 part. elim (strncasecmp n b1 part) [ pos k ↦ k == 0 | negsuc k ↦ false ])

  -- `strlen (string->storage_as.string.data)` and the dimension.
  unfoldable pub string_number : (Bytes → ℕ) → Ptr → Cmd Ptr
  string_number measure x s = elim (obj s x) [
    | string b ↦ flocons m (m.double.of_long (pos (measure b))) s
    | _ ↦ fail m "not a string" x s
  ]

  unfoldable pub string_length : Ptr → Cmd Ptr
  string_length = string_number (λ b. length (c_str b))

  unfoldable pub string_dim : Ptr → Cmd Ptr
  string_dim = string_number length

  unfoldable pub stringp : Ptr → Cmd Ptr
  stringp x s = elim (obj s x) [ string b ↦ truth true s | _ ↦ truth false s ]

  -- The pieces between the markers, the last one first. A piece that a text ends on is left out.
  unfoldable pub break_loop : ℕ → Bytes → Bytes → Ptr → Cmd Ptr
  break_loop zero start marker result = exhausted
  break_loop (suc f) [] marker result = pure result
  break_loop (suc f) (c ∷ cs) marker result =
      let end : ℕ = elim (strstr (c ∷ cs) marker) [ none ↦ length (c ∷ cs) | some k ↦ k ] in
      let rest = drop end (c ∷ cs) in
      let next : Bytes = elim rest [ [] ↦ [] | x ∷ xs ↦ drop (length marker) (x ∷ xs) ] in
      do st ← strcons m (take end (c ∷ cs)); r ← cons_cell m st result; break_loop f next marker r

  unfoldable pub lstrbreakup : Ptr → Ptr → Cmd Ptr
  lstrbreakup str lmarker = do
    start ← get_c_string m str
    marker ← get_c_string m lmarker
    r ← break_loop m.fuel start marker 0
    nreverse m r

  unfoldable pub join_loop : ℕ → Ptr → Ptr → Ptr → Ptr → Cmd Ptr
  join_loop zero elems lmarker l result = exhausted
  join_loop (suc f) elems lmarker l result =
      let more : Cmd Ptr = (do
        tail ← (if l == elems then pure result else cons_cell m lmarker result)
        a ← car m l
        r ← cons_cell m a tail
        d ← cdr m l
        join_loop f elems lmarker d r) in
      if l == 0 then pure result else more

  unfoldable pub lstrunbreakup : Ptr → Ptr → Cmd Ptr
  lstrunbreakup elems lmarker = do
    r ← join_loop m.fuel elems lmarker elems 0
    l ← nreverse m r
    string_append l

  -- The names that `symbolconc` puts into the buffer, with their sizes.
  unfoldable pub concat_names : ℕ → Ptr → ℕ → Bytes → Cmd Bytes
  concat_names zero l size b = exhausted
  concat_names (suc f) l size b =
      let more : Cmd Bytes = (do
        a ← car m l
        o ← view a
        elim o [
          | symbol name v ↦
              if ltb tkbuffern (size + length name)
              then fail m "symbolconc buffer overflow" 0
              else (do d ← cdr m l; concat_names f d (size + length name) (b ++ name))
          | _ ↦ fail m "wta(non-symbol) to symbolconc" a
        ]) in
      if l == 0 then pure b else more

  unfoldable pub symbolconc : Ptr → Cmd Ptr
  symbolconc args = do b ← concat_names m.fuel args 0 []; gen_intern m b
