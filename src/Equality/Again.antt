-- ===== src/Equality/Again.antt =====
-- On `print_to_string`, `read_from_string` and `equal` of winsiod/sliba.c, one after the other.
use siod.Prelude.{ℕ, ◌+◌, ◌≤◌, ◌≡◌, ◌∙◌, ap, true, false, ◌==◌, refl, arith, length, if◌then◌else◌}
use siod.Store.{Ptr, Bytes, string, State, obj, ok}
use siod.Machine.{Machine}
use siod.Symbols.Intern.{same_bytes_refl}
use siod.Printer.{print_to_string}
use siod.Printer.Datum.{Datum, empty, number, name, text, pair, Shows, size}
use siod.Printer.Into.{Apart}
use siod.Reader.{read_from_string}
use siod.Reader.Keep.{Fit}
use siod.Reader.Readable.{words, Readable, need}
use siod.Reader.Again.{read_from_string-print_to_string}
use siod.Equality.{equal}
use siod.Equality.Data.{Ordered, equal-same}
use siod.Equality.Alike.{same}

Readable-Ordered : (m : Machine) (s : State) (t : Datum) → Readable m s t → Ordered m t
Readable-Ordered m s empty r = tt
Readable-Ordered m s (number x) r = r.reflexive
Readable-Ordered m s (name q b) r = tt
Readable-Ordered m s (text b) r = tt
Readable-Ordered m s (pair a d) (r, r') = (Readable-Ordered m s a r, Readable-Ordered m s d r')

pub same_refl : (m : Machine) (t : Datum) → Ordered m t → same m t t ≡ true
same_refl m empty r = refl
same_refl m (number x) r = r
same_refl m (name q b) r = ground arith
same_refl m (text b) r = same_bytes_refl b
same_refl m (pair a d) (r, r') = rw (same_refl m a r, same_refl m d r')

-- What is read back from the printed text of data is `equal` to the data: under the conditions of the
-- round trip through a string, and where `t` is not `NIL`, `equal` of both returns `t`.
pub equal-read_from_string :
    (m : Machine) (t : Datum) (p str : Ptr) (b : Bytes) (s : State) (k : ℕ)
    → (s.symbols.sym_t == 0) ≡ false
    → obj s str ≡ string b
    → Shows (Apart str) s p t
    → Readable m s t
    → size t ≤ m.fuel
    → length (words m t) ≤ length b
    → Fit m s (need t + k)
    → (u : State) × (q : Ptr) × (v : State) × (print_to_string m p str 0 s ≡ ok str u)
      × (read_from_string m str u ≡ ok q v)
      × (equal m m.fuel p q v ≡ ok v.symbols.sym_t v)
equal-read_from_string m t p str b s k known at shows readable fuel room fit =
    let (u, printed, (q, v, run, copy, here, symbols, step, left)) =
      read_from_string-print_to_string m t p str b s k at shows readable fuel room fit in
    let ordered = Readable-Ordered m s t readable in
    let known' : (v.symbols.sym_t == 0) ≡ false = ap (λ y. y.sym_t == 0) symbols ∙ known in
    let told = equal-same m m.fuel p q t t v known' fuel ordered here copy in
    (
      u,
      q,
      v,
      printed,
      run,
      told ∙ ap (λ x. ok (if x then v.symbols.sym_t else 0) v) (same_refl m t ordered),
    )
