-- ===== src/Number/Small.antt =====
-- On `flocons` and `plus` of winsiod/slib.c: the value of the result, and the cache.
use siod.Prelude.{
  ltb, subst, ℕ, ◌<◌, ◌≡◌, refl, sym, ◌∙◌, true, false, ◌⊎◌, inl, inr, none, some, List, ◌∷◌,
  length, get_or, arith, Option-cases, String,
}
use siod.Prelude.Int.{pos}
use siod.Store.{Ptr, Bits, flonum, State, obj, Run, ok}
use siod.Machine.{Machine}
use siod.Alloc.Error.{alloc}
use siod.Alloc.Fresh.{Ready, Extends, Extends-refl, alloc-Fresh}
use siod.Store.View.{flonum-ne_nil}
use siod.Number.{small_index, flocons, plus, number_or}

-- The cache holds the number `k` at place `k`.
abbrev pub CacheIsValid : Machine → State → Type 0
CacheIsValid m s =
    (k : ℕ) → k < length s.inums → obj s (get_or s.inums k 0) ≡ flonum (m.double.of_long (pos k))

-- The number is `x`, or the whole number that `x` differs from by nothing.
abbrev pub IsValue : Machine → Bits → Bits → Type 0
IsValue m x y =
    (y ≡ x)
    ⊎ ((k : ℕ) × (y ≡ m.double.of_long (pos k))
        × (m.double.to_long x ≡ pos k)
        × (m.double.eq (m.double.sub x y) (m.double.of_long (pos 0)) ≡ true))

-- The number is not negative, differs by nothing from `k`, and the cache has a place for it.
abbrev pub IsSmall : Machine → State → Bits → ℕ → Type 0
IsSmall m s x k =
    (m.double.to_long x ≡ pos k)
    × (m.double.eq (m.double.sub x (m.double.of_long (pos k))) (m.double.of_long (pos 0)) ≡ true)
    × (m.double.lt x (m.double.of_long (pos 0)) ≡ false)
    × (k < length s.inums)

-- A run returns a number cell with the value `x`, and changes no cell in use: that of the cache for
-- a small number, in the same state, and else the free cell `p` with `x` itself.
pub record Number (m : Machine) (s : State) (run : Run Ptr) (x : Bits) (p : Ptr) : Type 0 where
  pub end : State
  pub result : Ptr
  pub returns : run ≡ ok result end
  pub bits : Bits
  pub holds : obj end result ≡ flonum bits
  pub value : IsValue m x bits
  pub extends : Extends s end
  pub shared : (k : ℕ) → IsSmall m s x k → run ≡ ok (get_or s.inums k 0) s
  pub fresh : ((k : ℕ) → ¬ (IsSmall m s x k)) → (result ≡ p) × (bits ≡ x)

small_index-IsSmall :
    (m : Machine) (x : Bits) (s : State) (k : ℕ) → IsSmall m s x k → small_index m x s ≡ some k
unfolding small_index
small_index-IsSmall m x s k (at, whole, nonneg, lt) =
    let there : ltb k (length s.inums) ≡ true = ground arith in
    let whole' =
      subst
        (λ n. m.double.eq (m.double.sub x (m.double.of_long n)) (m.double.of_long (pos 0)) ≡ true)
        (sym at) whole in
    rw (at, nonneg, there, small_index) (rw whole' refl)

-- What a place in the cache says of the number.
pub small_index_lem :
    (m : Machine) (x : Bits) (s : State) (k : ℕ)
    → small_index m x s ≡ some k
    → (m.double.to_long x ≡ pos k)
      × (m.double.eq (m.double.sub x (m.double.of_long (pos k))) (m.double.of_long (pos 0)) ≡ true)
      × (k < length s.inums)
unfolding small_index
small_index_lem m x s k h = ground arith

pub flocons_cached :
    (m : Machine) (x : Bits) (s : State) (k : ℕ)
    → small_index m x s ≡ some k
    → flocons m x s ≡ ok (get_or s.inums k 0) s
unfolding flocons
flocons_cached m x s k e = rw (e, flocons)

pub flocons_fresh :
    (m : Machine) (x : Bits) (s : State)
    → small_index m x s ≡ none
    → flocons m x s ≡ alloc m (flonum x) s
unfolding flocons
flocons_fresh m x s e = rw (e, flocons)

small_index-nonneg :
    (m : Machine) (x : Bits) (s : State) (k : ℕ)
    → small_index m x s ≡ some k
    → m.double.lt x (m.double.of_long (pos 0)) ≡ false
unfolding small_index
small_index-nonneg m x s k h = ground arith

-- With a valid cache and a free cell, `flocons` returns a number cell with the value, and changes no
-- cell in use. For a number that is not negative, that differs by nothing from its whole part and
-- for which the cache has a place, the cell is that of the cache, and the state stays as it is; for
-- every other number it is the free cell, and holds the number itself.
pub flocons-Number :
    (m : Machine) (x : Bits) (s : State) (p : Ptr) (xs : List Ptr)
    → CacheIsValid m s
    → Ready s (p ∷ xs)
    → Number m s (flocons m x s) x p
flocons-Number m x s p xs valid r = elim (Option-cases (small_index m x s)) [
  | inl e ↦
      let (t, g, f) = alloc-Fresh m (flonum x) s r in
      record {
        end = t;
        result = p;
        returns = flocons_fresh m x s e ∙ g;
        bits = x;
        holds = f.holds;
        value = inl refl;
        extends = f.extends;
        shared = λ k small. absurd (let c = sym e ∙ small_index-IsSmall m x s k small in cc);
        fresh = λ large. (refl, refl);
      }
  | inr (k, e) ↦
      let (at, whole, lt) = small_index_lem m x s k e in
      record {
        end = s;
        result = get_or s.inums k 0;
        returns = flocons_cached m x s k e;
        bits = m.double.of_long (pos k);
        holds = valid k lt;
        value = inr (k, refl, at, whole);
        extends = Extends-refl s;
        shared = λ j small. flocons_cached m x s j (small_index-IsSmall m x s j small);
        fresh = λ large. absurd (large k (at, whole, small_index-nonneg m x s k e, lt));
      }
]

-- Small whole numbers are shared: the same cell, and no cell is taken.
pub flocons_shared :
    (m : Machine) (x y : Bits) (s : State) (k : ℕ)
    → small_index m x s ≡ some k
    → m.double.to_long y ≡ m.double.to_long x
    → m.double.eq (m.double.sub y (m.double.of_long (pos k))) (m.double.of_long (pos 0)) ≡ true
    → m.double.lt y (m.double.of_long (pos 0)) ≡ false
    → flocons m y s ≡ flocons m x s
unfolding small_index
flocons_shared m x y s k e same whole nonneg =
    let (at, w, lt) = small_index_lem m x s k e in
    flocons_cached m y s k (ground arith) ∙ sym (flocons_cached m x s k e)

number_or_run :
    (m : Machine) (message : String) (p : Ptr) (s : State) {a : Bits}
    → obj s p ≡ flonum a
    → number_or m message p s ≡ ok a s
unfolding number_or
number_or_run m message p s e = rw (e, number_or)

-- With a valid cache and a free cell, `plus` of two number cells returns a number cell with the sum
-- of their values, up to the cache, and changes no cell in use.
pub plus-Number :
    (m : Machine) (a b : Bits) (p q : Ptr) (s : State) (r : Ptr) (xs : List Ptr)
    → obj s p ≡ flonum a
    → obj s q ≡ flonum b
    → CacheIsValid m s
    → Ready s (r ∷ xs)
    → Number m s (plus m p q s) (m.double.add a b) r
unfolding plus
plus-Number m a b p q s r xs ep eq valid ready =
    rw
      (
        flonum-ne_nil s q eq,
        number_or_run m "wta(1st) to plus" p s ep,
        number_or_run m "wta(2nd) to plus" q s eq,
      )
      (flocons-Number m (m.double.add a b) s r xs valid ready)
