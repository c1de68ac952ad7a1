-- ===== src/Equality/Hash.antt =====
-- On `c_sxhash` and `href_index` of winsiod/sliba.c at numbers, symbols, texts and pairs.
use siod.Prelude.{
  ℕ, zero, suc, ◌+◌, ◌*◌, ◌%◌, ◌≤◌, ◌<◌, bit_xor, ◌≡◌, refl, sym, ◌∙◌, ap, subst, Bool, true, not,
  List, [], ◌∷◌, ◌==◌, ltb, arith, length, Bool-cases, inl, inr,
}
use siod.Store.{Ptr, Bytes, Bits, symbol, lisp_array, State, obj, ok}
use siod.Store.View.{obj-zero}
use siod.Machine.{Machine}
use siod.Lists.Shape.{cdr-cons}
use siod.Symbols.Intern.{same_bytes_eq}
use siod.Printer.Datum.{Datum, empty, number, name, text, pair, Shows, size}
use siod.Printer.Refinement.{size_pos}
use siod.Reader.Leaf.{Any}
use siod.Equality.Href.{table_of, href_index}
use siod.Equality.Sxhash.{
  hash_combine, hash_bytes, divided, array_sxhash, c_sxhash, hash_tail, is_empty,
}
use siod.Equality.Alike.{
  same, Alike, both_empty, both_number, both_name, both_text, both_pair, code_of, alike, unlike,
}

-- The hash of data modulo `n`, and of a tail behind a hash.
unfoldable mutual
  pub hash_of : Machine → ℕ → Datum → ℕ
  hash_of m n empty = 0
  hash_of m n (number x) = m.double.to_ulong x % n
  hash_of m n (name q b) = hash_bytes n 0 b
  hash_of m n (text b) = hash_bytes n 0 b
  hash_of m n (pair a d) = hash_rest m n (hash_of m n a) d

  pub hash_rest : Machine → ℕ → ℕ → Datum → ℕ
  hash_rest m n h empty = hash_combine h 0 n
  hash_rest m n h (number x) = hash_combine h (m.double.to_ulong x % n) n
  hash_rest m n h (name q b) = hash_combine h (hash_bytes n 0 b) n
  hash_rest m n h (text b) = hash_combine h (hash_bytes n 0 b) n
  hash_rest m n h (pair a d) = hash_rest m n (hash_combine h (hash_of m n a) n) d

hash_bytes-lt : (n h : ℕ) (b : Bytes) → h < n → hash_bytes n h b < n
unfolding hash_bytes hash_combine
hash_bytes-lt n h [] lt = lt
hash_bytes-lt n h (c ∷ cs) lt = hash_bytes-lt n (bit_xor (h * 17 + 1) c % n) cs (omega arith)

combine-lt : (n h k : ℕ) → 0 < n → hash_combine h k n < n
unfolding hash_combine
combine-lt n h k pos = omega arith

-- The same data are of one kind.
same-Alike : (m : Machine) (t u : Datum) → same m t u ≡ true → Alike t u
same-Alike m t u e = elim (Bool-cases (code_of t == code_of u)) [
  | inl c ↦ alike t u c
  | inr c ↦ let differ = unlike m t u c in absurd (ground arith)
]

module _ (m : Machine) (n : ℕ) (pos : 0 < n) where
  pub hash_of-lt : (t : Datum) → hash_of m n t < n
  unfolding hash_of
  hash_of-lt empty = pos
  hash_of-lt (number x) = omega arith
  hash_of-lt (name q b) = hash_bytes-lt n 0 b pos
  hash_of-lt (text b) = hash_bytes-lt n 0 b pos
  hash_of-lt (pair a d) = hash_rest-lt (hash_of m n a) d
    where
      hash_rest-lt : (h : ℕ) (t : Datum) → hash_rest m n h t < n
      hash_rest-lt h empty = combine-lt n h 0 pos
      hash_rest-lt h (number x) = combine-lt n h (m.double.to_ulong x % n) pos
      hash_rest-lt h (name q b) = combine-lt n h (hash_bytes n 0 b) pos
      hash_rest-lt h (text b) = combine-lt n h (hash_bytes n 0 b) pos
      hash_rest-lt h (pair a d) = hash_rest-lt (hash_combine h (hash_of m n a) n) d

  divided_run : (used : Bool) (h : ℕ) (s : State) → divided m used n h s ≡ ok h s
  unfolding divided
  divided_run used h s = ground arith

  module _ (s : State) where
    abbrev Hashes : ℕ → Datum → Type 0
    Hashes f t = (p : Ptr) → Shows Any s p t → c_sxhash m f n p s ≡ ok (hash_of m n t) s

    abbrev HashesTail : ℕ → Datum → Type 0
    HashesTail f t =
        (h : ℕ) (p : Ptr) → Shows Any s p t → hash_tail m f n h p s ≡ ok (hash_rest m n h t) s

    hash_pair : (f : ℕ) (a d : Datum) → Hashes f a → HashesTail f d → Hashes (suc f) (pair a d)
    unfolding c_sxhash hash_of
    hash_pair f a d ha hd p (k, (x, y, e, g, h)) =
        rw (e, c_sxhash) (rw (ha x g, cdr-cons m s p e) (hd (hash_of m n a) y h))

    tail_pair : (f : ℕ) (a d : Datum) → Hashes f a → HashesTail f d → HashesTail (suc f) (pair a d)
    unfolding hash_tail hash_rest
    tail_pair f a d ha hd c p (k, (x, y, e, g, h)) =
        rw (e, hash_tail)
          (rw (ha x g, divided_run true (hash_combine c (hash_of m n a) n) s, cdr-cons m s p e)
            (hd (hash_combine c (hash_of m n a) n) y h))

    hash_atom : (f : ℕ) (t : Datum) → size t ≤ 2 → Hashes (suc f) t
    unfolding c_sxhash hash_of array_sxhash
    hash_atom f empty le p h = rw (h, obj-zero s, c_sxhash)
    hash_atom f (number x) le p (k, e) =
        rw (e, c_sxhash) (divided_run true (m.double.to_ulong x % n) s)
    hash_atom f (name q b) le p (at, k, (v, e)) =
        rw (e, c_sxhash) (divided_run (not (is_empty m b)) (hash_bytes n 0 b) s)
    hash_atom f (text b) le p (k, e) =
        rw (e, c_sxhash) (divided_run (not (is_empty m b)) (hash_bytes n 0 b) s)
    hash_atom f (pair a d) le p h = absurd (omega (arith, size_pos a, size_pos d))

    tail_empty : (f : ℕ) → HashesTail (suc (suc f)) empty
    unfolding hash_tail hash_rest
    tail_empty f c p h =
        subst (λ q. hash_tail m (suc (suc f)) n c q s ≡ ok (hash_combine c 0 n) s) (sym h)
          (rw (obj-zero s, hash_tail)
            (rw (hash_atom f empty (omega arith) 0 refl) (divided_run true (hash_combine c 0 n) s)))

    tail_atom :
        (f : ℕ) (t : Datum)
        → size t ≤ 2
        → ((h : ℕ) → hash_rest m n h t ≡ hash_combine h (hash_of m n t) n)
        → HashesTail (suc (suc f)) t
    unfolding hash_tail
    tail_atom f empty le e c p h = tail_empty f c p h
    tail_atom f (number x) le e c p (k, at) =
        rw (at, hash_tail) (rw (hash_atom f (number x) le p (k, at), e c) (divided_run true _ s))
    tail_atom f (name q b) le e c p (i, k, (v, at)) =
        rw (at, hash_tail)
          (rw (hash_atom f (name q b) le p (i, k, (v, at)), e c) (divided_run true _ s))
    tail_atom f (text b) le e c p (k, at) =
        rw (at, hash_tail) (rw (hash_atom f (text b) le p (k, at), e c) (divided_run true _ s))
    tail_atom f (pair a d) le e c p h = absurd (omega (arith, size_pos a, size_pos d))

    hash_and_tail : (f : ℕ) (t : Datum) → size t ≤ f → Hashes f t × HashesTail f t
    unfolding hash_of
    hash_and_tail zero t le = absurd (omega (arith, size_pos t))
    hash_and_tail (suc zero) t le = absurd (omega (arith, size_pos t))
    hash_and_tail (suc (suc f)) empty le = (hash_atom (suc f) empty (omega arith), tail_empty f)
    hash_and_tail (suc (suc f)) (number x) le = (
      hash_atom (suc f) (number x) (omega arith),
      tail_atom f (number x) (omega arith) (λ h. refl),
    )
    hash_and_tail (suc (suc f)) (name q b) le = (
      hash_atom (suc f) (name q b) (omega arith),
      tail_atom f (name q b) (omega arith) (λ h. refl),
    )
    hash_and_tail (suc (suc f)) (text b) le =
        (hash_atom (suc f) (text b) (omega arith), tail_atom f (text b) (omega arith) (λ h. refl))
    hash_and_tail (suc (suc f)) (pair a d) le =
        let big = size_pos a in
        let big' = size_pos d in
        let (ha, ta) = hash_and_tail (suc f) a (omega arith) in
        let (hd, td) = hash_and_tail (suc f) d (omega arith) in
        (hash_pair (suc f) a d ha td, tail_pair (suc f) a d ha td)

    pub c_sxhash-hash_of :
        (f : ℕ) (t : Datum) (p : Ptr)
        → size t ≤ f
        → Shows Any s p t
        → c_sxhash m f n p s ≡ ok (hash_of m n t) s
    c_sxhash-hash_of f t p le h = let (hashes, tails) = hash_and_tail f t le in hashes p h

    -- The same data have the same hash, alone and as a tail.
    same-hash_of :
        (t u : Datum) (p q : Ptr)
        → ((x y : Bits) → m.double.eq x y ≡ true → m.double.to_ulong x ≡ m.double.to_ulong y)
        → Alike t u
        → same m t u ≡ true
        → Shows Any s p t
        → Shows Any s q u
        → (hash_of m n t ≡ hash_of m n u) × ((h : ℕ) → hash_rest m n h t ≡ hash_rest m n h u)
    unfolding hash_of
    same-hash_of empty _ p q respects both_empty e h k = (refl, λ c. refl)
    same-hash_of (number x) _ p q respects (both_number _ y) e h k =
        let at = respects x y e in (ap (λ z. z % n) at, λ c. ap (λ z. hash_combine c (z % n) n) at)
    same-hash_of (name b c) _ p q respects (both_name _ _ b' c') e (at, i, (v, o))
          (at', j, (v', o')) =
        let here : q ≡ p = ground arith in
        let both : symbol c v ≡ symbol c' v' = sym o ∙ ap (obj s) (sym here) ∙ o' in
        let names : c ≡ c' = ground arith in
        (ap (hash_bytes n 0) names, λ d. ap (λ z. hash_combine d (hash_bytes n 0 z) n) names)
    same-hash_of (text b) _ p q respects (both_text _ b') e h k =
        let bytes = same_bytes_eq b b' e in
        (ap (hash_bytes n 0) bytes, λ d. ap (λ z. hash_combine d (hash_bytes n 0 z) n) bytes)
    same-hash_of (pair a d) _ p q respects (both_pair _ _ a' d') e (i, (x, y, o, g, h))
          (j, (x', y', o', g', h')) =
        let ea : same m a a' ≡ true = ground arith in
        let ed : same m d d' ≡ true = ground arith in
        let (one, rest) = same-hash_of a a' x x' respects (same-Alike m a a' ea) ea g g' in
        let (two, more) = same-hash_of d d' y y' respects (same-Alike m d d' ed) ed h h' in
        (
          ap (λ z. hash_rest m n z d) one ∙ more (hash_of m n a'),
          λ c.
              ap (λ z. hash_rest m n (hash_combine c z n) d) one
              ∙ more (hash_combine c (hash_of m n a') n),
        )

pub href_index_run :
    (m : Machine) (table p : Ptr) (s : State) (k : ℕ) {v : List Ptr}
    → obj s table ≡ lisp_array v
    → c_sxhash m m.fuel (length v) p s ≡ ok k s
    → k < length v
    → href_index m table p s ≡ ok k s
unfolding href_index table_of
href_index_run m table p s k {v} e run lt =
    let inside : ltb k (length v) ≡ true = ground arith in
    rw (e, table_of, href_index) (rw (run, inside))

-- In a table that is not empty, with as many rounds as the data have parts, and where equal numbers
-- convert to equal `unsigned long`, keys that are the same data have the same place, which is inside
-- the table.
pub href_index-same :
    (m : Machine) (table p q : Ptr) (t u : Datum) (s : State) (v : List Ptr)
    → obj s table ≡ lisp_array v
    → 0 < length v
    → ((x y : Bits) → m.double.eq x y ≡ true → m.double.to_ulong x ≡ m.double.to_ulong y)
    → size t ≤ m.fuel
    → size u ≤ m.fuel
    → Shows Any s p t
    → Shows Any s q u
    → same m t u ≡ true
    → (k : ℕ) × (href_index m table p s ≡ ok k s)
      × (href_index m table q s ≡ ok k s)
      × (k < length v)
href_index-same m table p q t u s v e pos respects le le' h k same_data =
    let n = length v in
    let (one, tails) =
      same-hash_of m n pos s t u p q respects (same-Alike m t u same_data) same_data h k in
    let lt = hash_of-lt m n pos t in
    (
      hash_of m n t,
      href_index_run m table p s (hash_of m n t) e (c_sxhash-hash_of m n pos s m.fuel t p le h) lt,
      href_index_run m table q s (hash_of m n t) e
          (c_sxhash-hash_of m n pos s m.fuel u q le' k ∙ ap (λ z. ok z s) (sym one)) lt,
      lt,
    )
