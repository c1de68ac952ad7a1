-- ===== src/Symbols/Table.antt =====
-- On the hash table of the symbols, as `gen_intern` of winsiod/slib.c keeps it.
use siod.Prelude.{
  ℕ, zero, suc, ◌≤◌, ◌<◌, ◌≡◌, refl, sym, ◌∙◌, ap, subst, true, false, none, List, [], ◌∷◌, ◌==◌,
  ltb, arith, length, get_or, set, Bool-cases, Option-cases, inl, inr,
}
use siod.Store.{Ptr, Bytes, State, ok}
use siod.Machine.{Machine}
use siod.Alloc.Fresh.{Ready, Extends, Extends-refl}
use siod.Lists.Shape.{keep_pair}
use siod.Symbols.{hash_from, bucket_of, make_symbol, gen_intern}
use siod.Symbols.Intern.{
  Names, Bucket, named, hash_from-lt, find_symbol-named, get_or-set, length-set, gen_intern-new,
  gen_intern-old,
}
use siod.Symbols.Once.{keep_symbol, Entered, make_symbol-Entered}

-- The names of a bucket hash to its place in a table of `n`, and differ from each other.
abbrev pub Placed : ℕ → ℕ → Names → Type 0
Placed n i [] = Unit
Placed n i ((p, b) ∷ ns) = (hash_from n 0 b ≡ i) × (named b ns ≡ none) × Placed n i ns

-- The invariant of the table: each bucket is a list of symbols, at most `k`, whose names hash to
-- this bucket and differ from each other; so each name has at most one symbol.
pub record SymbolTable (s : State) (k : ℕ) : Type 0 where
  pub hashed : ltb 1 (length s.obarray) ≡ true
  pub bucket :
      (i : ℕ)
      → i < length s.obarray
      → (ns : Names) × Bucket s (get_or s.obarray i 0) ns
        × Placed (length s.obarray) i ns
        × (length ns ≤ k)

pub Bucket-Extends :
    (s u : State) (l : Ptr) (ns : Names) → Extends s u → Bucket s l ns → Bucket u l ns
Bucket-Extends s u l [] f b = b
Bucket-Extends s u l ((p, pname) ∷ ns) f (d, v, e, g, b) =
    (d, v, keep_pair s u l f e, keep_symbol s u p f g, Bucket-Extends s u d ns f b)

get_or-set_other :
    (xs : List Ptr) (i j : ℕ) (v : Ptr) → (i == j) ≡ false → get_or (set xs i v) j 0 ≡ get_or xs j 0
get_or-set_other [] i j v ne = refl
get_or-set_other (x ∷ xs) zero zero v ne = absurd (ground arith)
get_or-set_other (x ∷ xs) zero (suc j) v ne = refl
get_or-set_other (x ∷ xs) (suc i) zero v ne = refl
get_or-set_other (x ∷ xs) (suc i) (suc j) v ne = get_or-set_other xs i j v (ground arith)

bucket_of-hashed :
    (s : State) (name : Bytes)
    → ltb 1 (length s.obarray) ≡ true
    → bucket_of name s ≡ get_or s.obarray (hash_from (length s.obarray) 0 name) 0
bucket_of-hashed s name h = rw h

-- The table after a symbol with a new name is entered.
Entered-SymbolTable :
    (m : Machine) (name : Bytes) (s : State) (k : ℕ) (p q : Ptr) (ns : Names)
    → SymbolTable s k
    → (e : Entered m name s p q) → Bucket s (bucket_of name s) ns
    → Placed (length s.obarray) (hash_from (length s.obarray) 0 name) ns
    → named name ns ≡ none
    → length ns ≤ k
    → SymbolTable e.end (suc k)
Entered-SymbolTable m name s k p q ns table e b placed out le =
    let n = length s.obarray in
    let h = hash_from n 0 name in
    let size : length e.end.obarray ≡ n = ap length e.obarray ∙ length-set s.obarray h q in
    record {
      hashed = ap (ltb 1) size ∙ table.hashed;
      bucket = λ i lt. elim (Bool-cases (h == i)) [
        | inl here ↦
            let at : h ≡ i = ground arith in
            let lt' : h < n = omega (arith, size) in
            let head : get_or e.end.obarray i 0 ≡ q =
              ap (λ o. get_or o i 0) e.obarray
              ∙ ap (λ j. get_or (set s.obarray h q) j 0) (sym at)
              ∙ get_or-set s.obarray h q 0 lt' in
            (
              (p, name) ∷ ns,
              subst (λ l. Bucket e.end l ((p, name) ∷ ns)) (sym head)
                  (
                    bucket_of name s,
                    e.value,
                    e.pair,
                    e.is_symbol,
                    Bucket-Extends s e.end (bucket_of name s) ns e.extends b,
                  ),
              subst (λ z. Placed z i ((p, name) ∷ ns)) (sym size)
                  (subst (λ j. Placed n j ((p, name) ∷ ns)) at (refl, out, placed)),
              omega (arith, le),
            )
        | inr other ↦
            let (ms, b', placed', le') = table.bucket i (omega (arith, size, lt)) in
            let same : get_or e.end.obarray i 0 ≡ get_or s.obarray i 0 =
              ap (λ o. get_or o i 0) e.obarray ∙ get_or-set_other s.obarray h i q other in
            (
              ms,
              subst (λ l. Bucket e.end l ms) (sym same)
                  (Bucket-Extends s e.end (get_or s.obarray i 0) ms e.extends b'),
              subst (λ z. Placed z i ms) (sym size) placed',
              omega (arith, le'),
            )
      ];
    }

SymbolTable-suc : (s : State) (k : ℕ) → SymbolTable s k → SymbolTable s (suc k)
SymbolTable-suc s k t = record {
  hashed = t.hashed;
  bucket = λ i lt. let (ns, b, placed, le) = t.bucket i lt in (ns, b, placed, omega (arith, le));
}

-- `gen_intern` keeps the hash table of the symbols as it should be, where the buckets are shorter
-- than the fuel and three cells are free: it returns, each bucket is again a list of symbols whose
-- names hash to the bucket and differ from each other, with at most one symbol more, and no cell in
-- use is changed.
pub gen_intern-SymbolTable :
    (m : Machine) (name : Bytes) (s : State) (k : ℕ) {p q r : Ptr} {xs : List Ptr}
    → SymbolTable s k
    → k < m.fuel
    → Ready s (p ∷ q ∷ r ∷ xs)
    → (a : Ptr) × (t : State) × (gen_intern m name s ≡ ok a t) × SymbolTable t (suc k) × Extends s t
gen_intern-SymbolTable m name s k {p} {q} {r} table lt ready =
    let n = length s.obarray in
    let h = hash_from n 0 name in
    let inside : h < n = hash_from-lt n 0 name (ground (arith, table.hashed)) in
    let (ns, b, placed, le) = table.bucket h inside in
    let at = bucket_of-hashed s name table.hashed in
    let b' : Bucket s (bucket_of name s) ns = subst (λ l. Bucket s l ns) (sym at) b in
    let look = find_symbol-named m.fuel name (bucket_of name s) s ns b' (omega (arith, le)) in
    elim (Option-cases (named name ns)) [
      | inl out ↦
          let e = make_symbol-Entered m name s (omega arith) ready table.hashed in
          (
            p,
            e.end,
            gen_intern-new m name s (make_symbol m name (bucket_of name s) s)
                  (look ∙ ap (λ o. ok o s) out) refl
                ∙ e.returns,
            Entered-SymbolTable m name s k p q ns table e b' placed out le,
            e.extends,
          )
      | inr (a, found) ↦ (
        a,
        s,
        gen_intern-old m name s a (look ∙ ap (λ o. ok o s) found),
        SymbolTable-suc s k table,
        Extends-refl s,
      )
    ]
