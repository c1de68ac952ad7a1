-- ===== src/Symbols/Intern.antt =====
-- On `gen_intern` of winsiod/slib.c: its search and its two ways to make a symbol.
use siod.Prelude.{
  ℕ, zero, suc, ◌*◌, ◌%◌, ◌≤◌, ◌<◌, bit_xor, ◌≡◌, refl, ◌∙◌, ap, true, false, Option, none, some,
  List, [], ◌∷◌, ltb, if◌then◌else◌, arith, length, get_or, set, Bool-cases, inl, inr,
}
use siod.Store.{Ptr, Bytes, nil, cons, symbol, State, obj, Run, ok}
use siod.Store.View.{obj-zero}
use siod.Machine.{Machine}
use siod.Alloc.Error.{cons_cell}
use siod.Symbols.{
  same_bytes, hash_from, bucket_in, bucket_of, find_symbol, enter_bucket, symcons, make_symbol,
  gen_intern,
}

-- The symbols of a bucket, with their names.
abbrev pub Names : Type 0
Names = List (Ptr × Bytes)

abbrev pub Bucket : State → Ptr → Names → Type 0
Bucket s l [] = l ≡ 0
Bucket s l ((p, pname) ∷ ns) =
    (d : Ptr) × (v : Ptr) × (obj s l ≡ cons p d) × (obj s p ≡ symbol pname v) × Bucket s d ns

abbrev pub named : Bytes → Names → Option Ptr
named name [] = none
named name ((p, pname) ∷ ns) = if same_bytes name pname then some p else named name ns

pub same_bytes_refl : (b : Bytes) → same_bytes b b ≡ true
same_bytes_refl [] = refl
same_bytes_refl (x ∷ xs) = ground (arith, same_bytes_refl xs)

pub same_bytes_eq : (a b : Bytes) → same_bytes a b ≡ true → a ≡ b
same_bytes_eq [] [] h = refl
same_bytes_eq [] (y ∷ ys) h = absurd (ground arith)
same_bytes_eq (x ∷ xs) [] h = absurd (ground arith)
same_bytes_eq (x ∷ xs) (y ∷ ys) h =
    let e : x ≡ y = ground arith in
    let es : xs ≡ ys = same_bytes_eq xs ys (ground arith) in λ i. e i ∷ es i

pub hash_from-lt : (n h : ℕ) (name : Bytes) → h < n → hash_from n h name < n
hash_from-lt n h [] lt = lt
hash_from-lt n h (c ∷ cs) lt = hash_from-lt n (bit_xor (h * 17) c % n) cs (omega arith)

pub get_or-set :
    {A : Type 0} (xs : List A) (i : ℕ) (v d : A) → i < length xs → get_or (set xs i v) i d ≡ v
get_or-set [] i v d lt = elim lt [ ]
get_or-set (x ∷ xs) zero v d lt = refl
get_or-set (x ∷ xs) (suc i) v d lt = get_or-set xs i v d (omega arith)

pub length-set : {A : Type 0} (xs : List A) (i : ℕ) (v : A) → length (set xs i v) ≡ length xs
length-set [] i v = refl
length-set (x ∷ xs) zero v = refl
length-set (x ∷ xs) (suc i) v = ap suc (length-set xs i v)

find_symbol-cons :
    (f : ℕ) (name pname : Bytes) (l p d v : Ptr) (s : State)
    → obj s l ≡ cons p d
    → obj s p ≡ symbol pname v
    → find_symbol (suc f) name l s
      ≡ (if same_bytes name pname then ok (some p) s else find_symbol f name d s)
unfolding find_symbol
find_symbol-cons f name pname l p d v s e g = rw (e, g, find_symbol)

pub find_symbol-named :
    (f : ℕ) (name : Bytes) (l : Ptr) (s : State) (ns : Names)
    → Bucket s l ns
    → length ns < f
    → find_symbol f name l s ≡ ok (named name ns) s
unfolding find_symbol
find_symbol-named zero name l s ns b lt = absurd (omega arith)
find_symbol-named (suc f) name l s [] b lt =
    let e : obj s l ≡ nil = ap (obj s) b ∙ obj-zero s in rw (e, find_symbol) (rw b refl)
find_symbol-named (suc f) name l s ((p, pname) ∷ ns) (d, v, e, g, b) lt =
    find_symbol-cons f name pname l p d v s e g ∙ (elim (Bool-cases (same_bytes name pname)) [
      | inl same ↦ rw same
      | inr other ↦ rw other (find_symbol-named f name d s ns b (omega arith))
    ])

pub bucket_in-set :
    (name : Bytes) (obarray : List Ptr) (q all : Ptr)
    → ltb 1 (length obarray) ≡ true
    → bucket_in name (set obarray (hash_from (length obarray) 0 name) q) all ≡ q
bucket_in-set name obarray q all hashed =
    let lt = hash_from-lt (length obarray) 0 name (ground arith) in
    let same = length-set obarray (hash_from (length obarray) 0 name) q in
    rw (same, hashed) (get_or-set obarray (hash_from (length obarray) 0 name) q 0 lt)

pub make_hashed :
    (m : Machine) (name : Bytes) (sl p q r : Ptr) (s t1 t2 t3 : State)
    → symcons m name s.symbols.unbound_marker s ≡ ok p t1
    → ltb 1 (length t1.obarray) ≡ true
    → cons_cell m p sl t1 ≡ ok q t2
    → cons_cell m p t2.oblistvar (enter_bucket name q t2) ≡ ok r t3
    → make_symbol m name sl s ≡ ok p (record t3 { oblistvar = r })
unfolding make_symbol
make_hashed m name sl p q r s t1 t2 t3 c1 h c2 c3 = rw (c1, h, c2, c3)

pub make_unhashed :
    (m : Machine) (name : Bytes) (sl p q : Ptr) (s t1 t2 : State)
    → symcons m name s.symbols.unbound_marker s ≡ ok p t1
    → ltb 1 (length t1.obarray) ≡ false
    → cons_cell m p t1.oblistvar t1 ≡ ok q t2
    → make_symbol m name sl s ≡ ok p (record t2 { oblistvar = q })
unfolding make_symbol
make_unhashed m name sl p q s t1 t2 c1 h c2 = rw (c1, h, c2)

pub gen_intern-new :
    (m : Machine) (name : Bytes) (s : State) (r : Run Ptr)
    → find_symbol m.fuel name (bucket_of name s) s ≡ ok none s
    → make_symbol m name (bucket_of name s) s ≡ r
    → gen_intern m name s ≡ r
unfolding gen_intern
gen_intern-new m name s r none_there e = rw none_there e

pub gen_intern-old :
    (m : Machine) (name : Bytes) (s : State) (p : Ptr)
    → find_symbol m.fuel name (bucket_of name s) s ≡ ok (some p) s
    → gen_intern m name s ≡ ok p s
unfolding gen_intern
gen_intern-old m name s p e = rw e

-- A symbol at the head of its bucket is found.
pub found_first :
    (m : Machine) (name : Bytes) (s : State) (q p d v : Ptr)
    → 1 ≤ m.fuel
    → bucket_of name s ≡ q
    → obj s q ≡ cons p d
    → obj s p ≡ symbol name v
    → gen_intern m name s ≡ ok p s
found_first m name s q p d v pos at e g = gen_intern-old m name s p (rw at (go m.fuel pos))
  where
    go : (f : ℕ) → 1 ≤ f → find_symbol f name q s ≡ ok (some p) s
    go zero le = absurd (omega arith)
    go (suc f) le = find_symbol-cons f name name q p d v s e g ∙ rw (same_bytes_refl name)
