-- ===== src/Strings/Chars.antt =====
-- The functions on bytes behind the strings of winsiod/sliba.c: those of the C library, the trimming,
-- `strncasecmp`, and `safe_strcpy` and `safe_strcat` of winsiod/slib.c. Case is that of the C locale.
use siod.Prelude.{
  ℕ, zero, suc, ◌+◌, ◌-◌, Bool, true, false, ◌&&◌, ◌||◌, not, Option, none, some, [], ◌∷◌, ◌++◌,
  ◌==◌, ltb, leb, if◌then◌else◌, length, take, drop, set,
}
use siod.Prelude.Int.{ℤ, pos, negsuc}
use siod.Store.{Bytes}
use siod.Alloc.{c_str}
use siod.Reader.Chars.{strchr}

abbrev pub toupper : ℕ → ℕ
toupper c = if leb 97 c && leb c 122 then c - 32 else c

abbrev pub tolower : ℕ → ℕ
tolower c = if leb 65 c && leb c 90 then c + 32 else c

-- `strncmp (s, t, strlen (t)) == 0`
unfoldable pub starts_with : Bytes → Bytes → Bool
starts_with s [] = true
starts_with [] (c ∷ t) = false
starts_with (d ∷ s) (c ∷ t) = d == c && starts_with s t

-- `strstr`, as the offset of the first occurrence.
unfoldable pub strstr : Bytes → Bytes → Option ℕ
strstr [] t = if starts_with [] t then some 0 else none
strstr (c ∷ s) t =
    let rest = strstr s t in
    if starts_with (c ∷ s) t then some 0 else elim rest [ none ↦ none | some k ↦ some (suc k) ]

-- `strcmp (a, b) < 0`
unfoldable pub strcmp_less : Bytes → Bytes → Bool
strcmp_less [] [] = false
strcmp_less [] (b ∷ bs) = true
strcmp_less (a ∷ as') [] = false
strcmp_less (a ∷ as') (b ∷ bs) = let rest = strcmp_less as' bs in if a == b then rest else ltb a b

-- `strspn` and `strcspn`
unfoldable pub strspn : Bytes → Bytes → ℕ
strspn [] t = 0
strspn (c ∷ s) t = let rest = strspn s t in if strchr t c && not (c == 0) then suc rest else 0

unfoldable pub strcspn : Bytes → Bytes → ℕ
strcspn [] t = 0
strcspn (c ∷ s) t = let rest = strcspn s t in if strchr t c then 0 else suc rest

-- `IS_TRIM_SPACE` of a byte that is not 0
unfoldable pub is_trim_space : ℕ → Bool
is_trim_space c = c == 32 || (c == 9 || (c == 13 || c == 10))

-- The two loops of the trimming.
unfoldable pub trim_front : Bytes → Bytes
trim_front [] = []
trim_front (c ∷ cs) = let rest = trim_front cs in if is_trim_space c then rest else c ∷ cs

unfoldable pub trim_end : Bytes → Bytes
trim_end [] = []
trim_end (c ∷ cs) =
    let rest = trim_end cs in
    elim rest [ [] ↦ if is_trim_space c then [] else c ∷ [] | d ∷ ds ↦ c ∷ d ∷ ds ]

-- `strncasecmp` of the sources, as it is written: the last test is the one before it again.
unfoldable pub strncasecmp : ℕ → Bytes → Bytes → ℤ
strncasecmp zero s1 s2 = pos 0
strncasecmp (suc n) [] [] = pos 0
strncasecmp (suc n) [] (b ∷ s2) = if toupper b == 0 then pos 0 else negsuc 0
strncasecmp (suc n) (a ∷ s1) [] = if toupper a == 0 then pos 0 else pos 1
strncasecmp (suc n) (a ∷ s1) (b ∷ s2) =
    let c1 = toupper a in
    let c2 = toupper b in
    let rest = strncasecmp n s1 s2 in
    if c1 == 0 && c2 == 0
    then pos 0
    else if c1 == 0
    then negsuc 0
    else if c2 == 0
    then pos 1
    else if ltb c1 c2
    then negsuc 0
    else if ltb c1 c2
    then pos 1
    else rest

-- `safe_strcpy` and `safe_strcat` into a buffer.
unfoldable pub safe_strcpy : Bytes → Bytes → Bytes
safe_strcpy s1 s2 =
    let size1 = length s1 in
    if size1 == 0
    then s1
    else if ltb (length s2) size1
    then s2 ++ (0 ∷ drop (suc (length s2)) s1)
    else set (take size1 s2) (size1 - 1) 0

unfoldable pub safe_strlen : Bytes → ℕ
safe_strlen s = length (c_str s)

unfoldable pub safe_strcat : Bytes → Bytes → Bytes
safe_strcat s1 s2 = let len1 = safe_strlen s1 in take len1 s1 ++ safe_strcpy (drop len1 s1) s2
