-- ===== src/Reader/Keep.antt =====
-- What the reader of winsiod/slib.c needs of the state, and what it leaves of it.
use siod.Prelude.{
  ℕ, suc, ◌≤◌, ◌<◌, ◌≡◌, refl, sym, ◌∙◌, ap, subst, some, List, [], ◌∷◌, arith, length, codes,
  get_or,
}
use siod.Prelude.Int.{pos}
use siod.Store.{Ptr, Bytes, Obj, flonum, symbol, State, obj, ok}
use siod.Machine.{Machine}
use siod.Gc.Sweep.{is_free_cell}
use siod.Alloc.Fresh.{Ready, Extends, Extends-refl, Extends-trans, Fresh}
use siod.Number.Small.{CacheIsValid}
use siod.Symbols.{bucket_in, bucket_of, gen_intern}
use siod.Symbols.Table.{Bucket-Extends}
use siod.Symbols.Once.{named-symbol}
use siod.Symbols.Intern.{Names, Bucket, named, find_symbol-named, gen_intern-old}

-- No cell in use is changed, nor are the symbol tables, the symbols of the program and the cache.
pub record Step (s u : State) : Type 0 where
  pub extends : Extends s u
  pub same_symbols : u.symbols ≡ s.symbols
  pub same_obarray : u.obarray ≡ s.obarray
  pub same_oblistvar : u.oblistvar ≡ s.oblistvar
  pub same_inums : u.inums ≡ s.inums

pub Step-refl : (s : State) → Step s s
Step-refl s = record {
  extends = Extends-refl s;
  same_symbols = refl;
  same_obarray = refl;
  same_oblistvar = refl;
  same_inums = refl;
}

pub Step-trans : {s t u : State} → Step s t → Step t u → Step s u
Step-trans {s} {t} {u} f g = record {
  extends = Extends-trans s t u f.extends g.extends;
  same_symbols = g.same_symbols ∙ f.same_symbols;
  same_obarray = g.same_obarray ∙ f.same_obarray;
  same_oblistvar = g.same_oblistvar ∙ f.same_oblistvar;
  same_inums = g.same_inums ∙ f.same_inums;
}

pub Fresh-Step : {s t : State} {p : Ptr} {o : Obj} {xs : List Ptr} → Fresh s t p o xs → Step s t
Fresh-Step f = record {
  extends = f.extends;
  same_symbols = f.same_symbols;
  same_obarray = f.same_obarray;
  same_oblistvar = f.same_oblistvar;
  same_inums = f.same_inums;
}

-- The name stands in the symbol table, with this symbol, in a bucket that the search goes through.
abbrev pub Known : Machine → State → Bytes → Ptr → Type 0
Known m s b q =
    (ns : Names) × Bucket s (bucket_of b s) ns × (named b ns ≡ some q) × (length ns < m.fuel)

pub Known-symbol :
    (m : Machine) (s : State) (b : Bytes) (q : Ptr)
    → Known m s b q
    → (v : Ptr) × (obj s q ≡ symbol b v)
Known-symbol m s b q (ns, bucket, at, lt) = named-symbol s (bucket_of b s) q b ns bucket at

pub gen_intern-Known :
    (m : Machine) (s : State) (b : Bytes) (q : Ptr) → Known m s b q → gen_intern m b s ≡ ok q s
gen_intern-Known m s b q (ns, bucket, at, lt) =
    gen_intern-old m b s q
      (find_symbol-named m.fuel b (bucket_of b s) s ns bucket lt ∙ ap (λ o. ok o s) at)

pub Known-Step :
    (m : Machine) (s u : State) (b : Bytes) (q : Ptr) → Step s u → Known m s b q → Known m u b q
Known-Step m s u b q f (ns, bucket, at, lt) =
    let table : bucket_of b s ≡ bucket_of b u =
      λ i. bucket_in b (sym f.same_obarray i) (sym f.same_oblistvar i) in
    let moved : Bucket u (bucket_of b u) ns =
      subst (λ l. Bucket u l ns) table (Bucket-Extends s u (bucket_of b s) ns f.extends bucket) in
    (ns, moved, at, lt)

CacheIsValid-Step : (m : Machine) (s u : State) → Step s u → CacheIsValid m s → CacheIsValid m u
CacheIsValid-Step m s u f valid k lt =
    let e : obj s (get_or s.inums k 0) ≡ flonum (m.double.of_long (pos k)) =
      valid k (subst (λ xs. k < length xs) f.same_inums lt) in
    ap (λ xs. obj u (get_or xs k 0)) f.same_inums
    ∙ f.extends (get_or s.inums k 0) (ap is_free_cell e)
    ∙ e

-- So many cells are free, the cache is valid, and the dot of the lists is in the symbol table.
pub record Fit (m : Machine) (s : State) (k : ℕ) : Type 0 where
  pub free : List Ptr
  pub ready : Ready s free
  pub enough : k ≤ length free
  pub cache : CacheIsValid m s
  pub dot : Known m s (codes ".") s.symbols.sym_dot

pub Fit-less : (m : Machine) (s : State) (j k : ℕ) → j ≤ k → Fit m s k → Fit m s j
Fit-less m s j k le f = record {
  free = f.free;
  ready = f.ready;
  enough = omega (arith, f.enough);
  cache = f.cache;
  dot = f.dot;
}

pub Fit-Step :
    (m : Machine) (s u : State) (k : ℕ) {xs : List Ptr} {j : ℕ}
    → Step s u
    → Fit m s j
    → Ready u xs
    → k ≤ length xs
    → Fit m u k
Fit-Step m s u k {xs} f fit ready le = record {
  free = xs;
  ready = ready;
  enough = le;
  cache = CacheIsValid-Step m s u f fit.cache;
  dot =
      subst (λ y. Known m u (codes ".") y) (ap (λ y. y.sym_dot) (sym f.same_symbols))
        (Known-Step m s u (codes ".") s.symbols.sym_dot f fit.dot);
}

-- The first free cell, where there is one.
pub Fit-cell :
    (m : Machine) (s : State) (k : ℕ)
    → Fit m s (suc k)
    → (p : Ptr) × (xs : List Ptr) × Ready s (p ∷ xs) × (k ≤ length xs)
Fit-cell m s k f = go f.free f.ready f.enough
  where
    go :
        (ys : List Ptr)
        → Ready s ys
        → suc k ≤ length ys
        → (p : Ptr) × (xs : List Ptr) × Ready s (p ∷ xs) × (k ≤ length xs)
    go [] r le = absurd (omega arith)
    go (p ∷ xs) r le = (p, xs, r, omega arith)
