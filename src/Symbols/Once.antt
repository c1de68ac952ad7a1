-- ===== src/Symbols/Once.antt =====
-- On `gen_intern` of winsiod/slib.c, called twice.
use siod.Prelude.{
  ◌≤◌, ◌<◌, ◌≡◌, refl, sym, ◌∙◌, ap, true, false, some, List, [], ◌∷◌, ltb, arith, length, set,
  Bool-cases, Option-cases, inl, inr,
}
use siod.Store.{Ptr, Bytes, cons, symbol, State, obj, Run, ok}
use siod.Store.View.{same_obj}
use siod.Machine.{Machine}
use siod.Alloc.Fresh.{Ready, Extends, Extends-refl, Extends-trans, Fresh, alloc-Fresh}
use siod.Lists.Shape.{keep_pair, cons_cell-Fresh}
use siod.Gc.Sweep.{is_free_cell}
use siod.Symbols.{
  bucket_in, bucket_of, same_bytes, hash_from, enter_bucket, symcons, make_symbol, gen_intern,
}
use siod.Symbols.Intern.{
  Names, Bucket, named, same_bytes_eq, find_symbol-named, bucket_in-set, make_hashed, make_unhashed,
  gen_intern-new, gen_intern-old, found_first,
}

-- A run returns the symbol of a name: from then on the name gives this symbol again, and nothing
-- more is made.
pub record Interned (m : Machine) (name : Bytes) (s : State) (run : Run Ptr) : Type 0 where
  pub end : State
  pub result : Ptr
  pub value : Ptr
  pub returns : run ≡ ok result end
  pub is_symbol : obj end result ≡ symbol name value
  pub again : gen_intern m name end ≡ ok result end
  pub extends : Extends s end

pub keep_symbol :
    (s t : State) (p : Ptr) {name : Bytes} {v : Ptr}
    → Extends s t
    → obj s p ≡ symbol name v
    → obj t p ≡ symbol name v
keep_symbol s t p f e = f p (ap is_free_cell e) ∙ e

symcons-Fresh :
    (m : Machine) (name : Bytes) (v : Ptr) (s : State) {p : Ptr} {xs : List Ptr}
    → Ready s (p ∷ xs)
    → (t : State) × (symcons m name v s ≡ ok p t) × Fresh s t p (symbol name v) xs
unfolding symcons
symcons-Fresh m name v s r = alloc-Fresh m (symbol name v) s r

pub named-symbol :
    (s : State) (l p : Ptr) (name : Bytes) (ns : Names)
    → Bucket s l ns
    → named name ns ≡ some p
    → (v : Ptr) × (obj s p ≡ symbol name v)
named-symbol s l p name [] b e = absurd (ground arith)
named-symbol s l p name ((a, pname) ∷ ns) (d, v, g, h, b) e =
    elim (Bool-cases (same_bytes name pname)) [
      | inl same ↦
          let at : a ≡ p = ground arith in
          let eq = same_bytes_eq name pname same in
          (v, ap (obj s) (sym at) ∙ h ∙ ap (λ n. symbol n v) (sym eq))
      | inr other ↦ named-symbol s d p name ns b (ground arith)
    ]

-- A new symbol at `p`, entered in a bucket of the hash table with the pair at `q`.
pub record Entered (m : Machine) (name : Bytes) (s : State) (p q : Ptr) : Type 0 where
  pub end : State
  pub value : Ptr
  pub returns : make_symbol m name (bucket_of name s) s ≡ ok p end
  pub is_symbol : obj end p ≡ symbol name value
  pub pair : obj end q ≡ cons p (bucket_of name s)
  pub obarray : end.obarray ≡ set s.obarray (hash_from (length s.obarray) 0 name) q
  pub extends : Extends s end

module _ (m : Machine) (name : Bytes) (s : State) (pos : 1 ≤ m.fuel) where
  pub make_symbol-Entered :
      {p q r : Ptr} {xs : List Ptr}
      → Ready s (p ∷ q ∷ r ∷ xs)
      → ltb 1 (length s.obarray) ≡ true
      → Entered m name s p q
  make_symbol-Entered {p} {q} {r} ready hashed =
      let sl = bucket_of name s in
      let v = s.symbols.unbound_marker in
      let (t1, c1, f1) = symcons-Fresh m name v s ready in
      let (t2, c2, f2) = cons_cell-Fresh m p sl t1 f1.ready in
      let u2 = enter_bucket name q t2 in
      let u2-ready : Ready u2 (r ∷ _) = record {
        sweeping = f2.ready.sweeping;
        chain = f2.ready.chain;
      } in
      let (t3, c3, f3) = cons_cell-Fresh m p t2.oblistvar u2 u2-ready in
      let end = record t3 { oblistvar = r } in
      let same : t2.obarray ≡ s.obarray = f2.same_obarray ∙ f1.same_obarray in
      let h1 : ltb 1 (length t1.obarray) ≡ true =
        ap (λ o. ltb 1 (length o)) f1.same_obarray ∙ hashed in
      let into : Extends t2 end = λ a used.
        same_obj end t3 a refl
        ∙ f3.extends a (ap is_free_cell (same_obj u2 t2 a refl) ∙ used)
        ∙ same_obj u2 t2 a refl in
      record {
        end = end;
        returns = make_hashed m name sl p q r s t1 t2 t3 c1 h1 c2 c3;
        value = v;
        is_symbol = keep_symbol t2 end p into (keep_symbol t1 t2 p f2.extends f1.holds);
        pair = keep_pair t2 end q into f2.holds;
        obarray = f3.same_obarray ∙ ap (λ o. set o (hash_from (length o) 0 name) q) same;
        extends = Extends-trans s t2 end (Extends-trans s t1 t2 f1.extends f2.extends) into;
      }

  made_hashed :
      {p q r : Ptr} {xs : List Ptr}
      → Ready s (p ∷ q ∷ r ∷ xs)
      → ltb 1 (length s.obarray) ≡ true
      → Interned m name s (make_symbol m name (bucket_of name s) s)
  made_hashed {p} {q} {r} ready hashed =
      let e = make_symbol-Entered ready hashed in
      let at : bucket_of name e.end ≡ q =
        ap (λ o. bucket_in name o e.end.oblistvar) e.obarray
        ∙ bucket_in-set name s.obarray q e.end.oblistvar hashed in
      record {
        end = e.end;
        result = p;
        value = e.value;
        returns = e.returns;
        is_symbol = e.is_symbol;
        again = found_first m name e.end q p (bucket_of name s) e.value pos at e.pair e.is_symbol;
        extends = e.extends;
      }

  made_unhashed :
      {p q : Ptr} {xs : List Ptr}
      → Ready s (p ∷ q ∷ xs)
      → ltb 1 (length s.obarray) ≡ false
      → Interned m name s (make_symbol m name (bucket_of name s) s)
  made_unhashed {p} {q} ready plain =
      let sl = bucket_of name s in
      let v = s.symbols.unbound_marker in
      let (t1, c1, f1) = symcons-Fresh m name v s ready in
      let (t2, c2, f2) = cons_cell-Fresh m p t1.oblistvar t1 f1.ready in
      let end = record t2 { oblistvar = q } in
      let h1 : ltb 1 (length t1.obarray) ≡ false =
        ap (λ o. ltb 1 (length o)) f1.same_obarray ∙ plain in
      let h2 : ltb 1 (length t2.obarray) ≡ false =
        ap (λ o. ltb 1 (length o)) f2.same_obarray ∙ h1 in
      let into : Extends t1 end = λ a used. same_obj end t2 a refl ∙ f2.extends a used in
      let here : obj end p ≡ symbol name v = keep_symbol t1 end p into f1.holds in
      let pair : obj end q ≡ cons p t1.oblistvar = same_obj end t2 q refl ∙ f2.holds in
      let at : bucket_of name end ≡ q = rw h2 in
      record {
        end = end;
        result = p;
        value = v;
        returns = make_unhashed m name sl p q s t1 t2 c1 h1 c2;
        is_symbol = here;
        again = found_first m name end q p t1.oblistvar v pos at pair here;
        extends = Extends-trans s t1 end f1.extends into;
      }

-- Where the bucket of the name, or the list of all symbols if there are no buckets, is a list of
-- symbols shorter than the fuel, and three cells are free, `gen_intern` returns a symbol of this name,
-- an old one or a new one; changes no cell in use; and called again with this name it returns the
-- same symbol and changes nothing.
pub gen_intern-Interned :
    (m : Machine) (name : Bytes) (s : State) (ns : Names) {p q r : Ptr} {xs : List Ptr}
    → Bucket s (bucket_of name s) ns
    → length ns < m.fuel
    → Ready s (p ∷ q ∷ r ∷ xs)
    → Interned m name s (gen_intern m name s)
gen_intern-Interned m name s ns {p} {q} {r} b lt ready =
    let look = find_symbol-named m.fuel name (bucket_of name s) s ns b lt in
    elim (Option-cases (named name ns)) [
      | inl out ↦
          let absent = look ∙ ap (λ o. ok o s) out in
          let made : Interned m name s (make_symbol m name (bucket_of name s) s) =
            elim (Bool-cases (ltb 1 (length s.obarray))) [
              | inl hashed ↦ made_hashed m name s (omega arith) ready hashed
              | inr plain ↦ made_unhashed m name s (omega arith) ready plain
            ] in
          record {
            end = made.end;
            result = made.result;
            value = made.value;
            returns =
                gen_intern-new m name s (make_symbol m name (bucket_of name s) s) absent refl
                ∙ made.returns;
            is_symbol = made.is_symbol;
            again = made.again;
            extends = made.extends;
          }
      | inr (a, found) ↦
          let run = gen_intern-old m name s a (look ∙ ap (λ o. ok o s) found) in
          let (v, g) = named-symbol s (bucket_of name s) a name ns b found in
          record {
            end = s;
            result = a;
            value = v;
            returns = run;
            is_symbol = g;
            again = run;
            extends = Extends-refl s;
          }
    ]
