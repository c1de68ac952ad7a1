-- ===== src/Printer/Datum.antt =====
-- What `lprin1g` of winsiod/slib.c prints of data without closures, functions and arrays: an
-- independent description.
use siod.Prelude.{ℕ, suc, ◌+◌, ◌≡◌, ◌∙◌, List, [], ◌∷◌, ◌++◌, if◌then◌else◌, codes, map}
use siod.Store.{Ptr, Bytes, Bits, cons, flonum, symbol, string, State, obj}
use siod.Machine.{Machine}
use siod.Alloc.{c_str}
use siod.Printer.{flonum_text, escape, is_plain}

pub data Datum : Type 0 where
  empty : Datum
  number : Bits → Datum
  -- The symbol at a cell, with its name.
  name : Ptr → Bytes → Datum
  text : Bytes → Datum
  pair : Datum → Datum → Datum

-- The cells from `p` on hold the data, and each has a property.
abbrev pub Shows : (Ptr → Type 0) → State → Ptr → Datum → Type 0
Shows P s p empty = p ≡ 0
Shows P s p (number x) = P p × (obj s p ≡ flonum x)
Shows P s p (name q b) = (p ≡ q) × P p × ((v : Ptr) × (obj s p ≡ symbol b v))
Shows P s p (text b) = P p × (obj s p ≡ string b)
Shows P s p (pair a d) =
    P p × ((x : Ptr) × (y : Ptr) × (obj s p ≡ cons x y) × Shows P s x a × Shows P s y d)

-- The cells with the property hold in one state what they hold in the other.
abbrev pub Same : (Ptr → Type 0) → State → State → Type 0
Same P s u = (a : Ptr) → P a → obj u a ≡ obj s a

pub Shows-Same :
    (P : Ptr → Type 0) (s u : State) (p : Ptr) (t : Datum)
    → Same P s u
    → Shows P s p t
    → Shows P u p t
Shows-Same P s u p empty f h = h
Shows-Same P s u p (number x) f (k, e) = (k, f p k ∙ e)
Shows-Same P s u p (name q b) f (at, k, (v, e)) = (at, k, (v, f p k ∙ e))
Shows-Same P s u p (text b) f (k, e) = (k, f p k ∙ e)
Shows-Same P s u p (pair a d) f (k, (x, y, e, g, h)) =
    (k, (x, y, f p k ∙ e, Shows-Same P s u x a f g, Shows-Same P s u y d f h))

-- The rounds that the printer takes at most.
abbrev pub size : Datum → ℕ
size (pair a d) = suc (size a + size d)
size _ = 2

abbrev pub text_chunks : Bytes → List Bytes
text_chunks b = (34 ∷ []) ∷ ((if is_plain b then b ∷ [] else map escape b) ++ ((34 ∷ []) ∷ []))

-- A tail that is no list.
abbrev pub dotted : List Bytes → List Bytes
dotted cs = codes " . " ∷ (cs ++ (codes ")" ∷ []))

-- The texts that are put one after another: for data, and for the tail of a list.
unfoldable mutual
  pub chunks : Machine → Datum → List Bytes
  chunks m empty = codes "()" ∷ []
  chunks m (number x) = flonum_text m x ∷ []
  chunks m (name q b) = b ∷ []
  chunks m (text b) = text_chunks (c_str b)
  chunks m (pair a d) = codes "(" ∷ (chunks m a ++ rest_chunks m d)

  pub rest_chunks : Machine → Datum → List Bytes
  rest_chunks m empty = codes ")" ∷ []
  rest_chunks m (number x) = dotted (flonum_text m x ∷ [])
  rest_chunks m (name q b) = dotted (b ∷ [])
  rest_chunks m (text b) = dotted (text_chunks (c_str b))
  rest_chunks m (pair a d) = codes " " ∷ (chunks m a ++ rest_chunks m d)
