-- ===== src/Examples/Reading.antt =====
-- The reader and the printer of winsiod/slib.c on a small heap with a symbol table.
use siod.Prelude.{
  ◌+◌, ◌≡◌, ◌≤◌, refl, sym, ap, subst, All, inl, inr, false, List, [], ◌∷◌, ◌++◌, get_or, codes,
  arith, replicate, length,
}
use siod.Store.{
  Ptr, Bytes, Obj, nil, free_cell, cons, flonum, symbol, string, State, obj, ok, set_cell, Cmd,
}
use siod.Store.View.{same_obj}
use siod.Alloc.{digits_of, c_str}
use siod.Alloc.Fresh.{Ready}
use siod.Printer.{lprin1g, print_to_string, flonum_text, long_text, escape, is_plain}
use siod.Printer.Datum.{Datum, number, name, text, pair, Shows, chunks, rest_chunks}
use siod.Printer.Refinement.{emit, Keeps, lprin1g-chunks}
use siod.Printer.Into.{Apart, join, IsChar, print_to_string-join}
use siod.Reader.{lreadr, readtl, read_from_string}
use siod.Reader.Chars.{
  is_space, is_digit, ends_token, strchr, number_token, skip_minus, skip_digits, starts_digit,
  fraction,
}
use siod.Reader.Tokens.{Text, rfs}
use siod.Reader.Source.{rfs-Pushback, rfs_ahead}
use siod.Reader.Keep.{Known, Fit, Step}
use siod.Reader.Leaf.{Any, Whole, ReadOut}
use siod.Reader.Numeral.{IsPlain}
use siod.Reader.Readable.{words, Readable}
use siod.Reader.RoundTrip.{lreadr-words}
use siod.Reader.Again.{read_from_string-print_to_string}
use siod.Reader.Gaps.{Gap, done, blank, opens, inside, closes, readtl-gap, lreadr-comma}
use siod.Examples.{machine, memory, names}
use siod.Examples.Errors.{memory-Catching}
use siod.Alloc.Reports.{Reports}

-- The dot at 1, a symbol at 2, the list of both at 3, a number, a text, and at 7 a list of these
-- with a dot; a string with room at 9, and five free cells.
abbrev pub cells_read : List Obj
cells_read =
    nil
    ∷ symbol (codes ".") 0
    ∷ symbol (codes "ab") 0
    ∷ cons 1 4
    ∷ cons 2 0
    ∷ flonum 12
    ∷ string (34 ∷ [])
    ∷ cons 2 8
    ∷ cons 5 6
    ∷ string (replicate 20 0)
    ∷ free_cell 11
    ∷ free_cell 12
    ∷ free_cell 13
    ∷ free_cell 14
    ∷ free_cell 0
    ∷ []

abbrev pub reading : State
reading = record memory {
  cells = λ p. get_or cells_read p (free_cell 0);
  freelist = 10;
  oblistvar = 3;
  symbols = record names { sym_dot = 1; eof_val = 2 };
}

abbrev pub listed : Datum
listed = pair (name 2 (codes "ab")) (pair (number 12) (text (34 ∷ [])))

abbrev shown : Bytes
shown = codes "(ab 12 . \"\\\"\")"

pub listed_words : words machine listed ≡ shown
unfolding chunks rest_chunks flonum_text long_text digits_of escape is_plain c_str
listed_words = refl

pub listed-Shows : Shows (Apart 9) reading 7 listed
unfolding obj
listed-Shows =
    (refl, (2, 8, refl, (refl, refl, (0, refl)), (refl, (5, 6, refl, (refl, refl), (refl, refl)))))

pub reading-Ready : Ready reading (10 ∷ 11 ∷ 12 ∷ 13 ∷ 14 ∷ [])
unfolding obj
reading-Ready = record {
  sweeping = refl;
  chain = (
    refl,
    refl,
    (
      11,
      refl,
      (
        refl,
        refl,
        (
          12,
          refl,
          (refl, refl, (13, refl, (refl, refl, (14, refl, (refl, refl, (0, refl, refl)))))),
        ),
      ),
    ),
  );
}

dot-Known : Known machine reading (codes ".") 1
unfolding obj
dot-Known = (
  ((1, codes ".") ∷ (2, codes "ab") ∷ []),
  (4, 0, refl, refl, (0, 0, refl, refl, refl)),
  refl,
  omega arith,
)

ab-Known : Known machine reading (codes "ab") 2
unfolding obj
ab-Known = (
  ((1, codes ".") ∷ (2, codes "ab") ∷ []),
  (4, 0, refl, refl, (0, 0, refl, refl, refl)),
  refl,
  omega arith,
)

pub reading-Fit : Fit machine reading (4 + 1)
reading-Fit = record {
  free = 10 ∷ 11 ∷ 12 ∷ 13 ∷ 14 ∷ [];
  ready = reading-Ready;
  enough = omega arith;
  cache = λ k lt. absurd (omega arith);
  dot = dot-Known;
}

ab-IsPlain : IsPlain (codes "ab")
unfolding is_space ends_token strchr
ab-IsPlain = record {
  first = 97;
  others = 98 ∷ [];
  parts = refl;
  inside = ((refl, refl), ((refl, refl), tt));
  no_sharp = refl;
}

twelve-Whole : Whole machine 12
unfolding long_text digits_of
twelve-Whole = record { exact = refl; reflexive = refl; atof = refl; short = omega arith }

pub listed-Readable : Readable machine reading listed
unfolding number_token skip_minus skip_digits starts_digit fraction is_digit
listed-Readable = (
  (ab-IsPlain, refl, omega arith, ab-Known, refl),
  (twelve-Whole, (((refl, omega arith), tt), omega arith)),
)

-- Each text is put in front of those before it.
abbrev put_out : Bytes → Cmd (Unit {0})
put_out b s = ok tt (record s { out = b ∷ s.out })

pub listed-all : Shows Any reading 7 listed
unfolding obj
listed-all = (tt, (2, 8, refl, (refl, tt, (0, refl)), (tt, (5, 6, refl, (tt, refl), (tt, refl)))))

put_out-Keeps : Keeps put_out Any
put_out-Keeps b s u e a h = ground (arith, same_obj s u a)

lprin1g-chunks_example :
    lprin1g machine put_out 8 7 reading ≡ emit put_out (chunks machine listed) reading
lprin1g-chunks_example =
    lprin1g-chunks machine put_out Any 8 listed 7 reading put_out-Keeps (omega arith) listed-all

listed-IsChar : All IsChar (join (chunks machine listed))
listed-IsChar = subst (All IsChar) (sym listed_words) all_chars
  where
    all_chars : All IsChar shown
    all_chars = (
      refl,
      (
        refl,
        (
          refl,
          (
            refl,
            (refl, (refl, (refl, (refl, (refl, (refl, (refl, (refl, (refl, (refl, tt)))))))))),
          ),
        ),
      ),
    )

pub room : length (words machine listed) ≤ 20
room = subst (λ w. length w ≤ 20) (sym listed_words) (omega arith)

print_to_string-join_example :
    (w : Bytes) × (print_to_string machine 7 9 0 reading ≡ ok 9 (set_cell 9 (string w) reading))
    × (c_str w ≡ [] ++ join (chunks machine listed))
    × (length w ≡ 20)
unfolding obj
print_to_string-join_example =
    print_to_string-join machine 7 9 0 (replicate 20 0) reading listed refl listed-Shows
      (omega arith) listed-IsChar (omega (arith, room))

read_from_string-print_to_string_example :
    (u : State) × (print_to_string machine 7 9 0 reading ≡ ok 9 u)
    × ((q : Ptr) × (v : State) × (read_from_string machine 9 u ≡ ok q v)
        × Shows Any v q listed
        × Shows Any v 7 listed
        × (v.symbols ≡ reading.symbols)
        × Step u v
        × Fit machine v 1)
unfolding obj
read_from_string-print_to_string_example =
    read_from_string-print_to_string machine listed 7 9 (replicate 20 0) reading 1 refl listed-Shows
      listed-Readable (omega arith) room reading-Fit

shown_ahead : rfs_ahead ([], shown ++ (32 ∷ 41 ∷ [])) ≡ words machine listed ++ (32 ∷ 41 ∷ [])
unfolding rfs_ahead c_str
shown_ahead = ap (λ w. w ++ (32 ∷ 41 ∷ [])) (sym listed_words)

lreadr-words_example :
    ReadOut machine rfs rfs-Pushback reading
      (lreadr machine rfs 8 ([], shown ++ (32 ∷ 41 ∷ [])) reading)
      listed
      (32 ∷ 41 ∷ [])
      1
lreadr-words_example =
    lreadr-words machine rfs rfs-Pushback 8 listed ([], shown ++ (32 ∷ 41 ∷ [])) reading
      (32 ∷ 41 ∷ []) 1 (omega arith) (omega arith) listed-Readable shown_ahead
      (inr (inl (41 ∷ [], refl))) reading-Fit

-- A blank, and a comment with its line end.
gap : Gap false (32 ∷ 59 ∷ 120 ∷ 10 ∷ [])
unfolding is_space
gap = blank 32 _ refl (opens _ (inside 120 _ refl (closes [] done)))

readtl-gap_example :
    (g : Text) × (readtl machine rfs ([], 32 ∷ 59 ∷ 120 ∷ 10 ∷ 97 ∷ []) reading
      ≡ lreadr machine rfs 20 g reading)
    × (rfs_ahead g ≡ 97 ∷ [])
unfolding rfs_ahead c_str is_space
readtl-gap_example =
    readtl-gap machine rfs rfs-Pushback (32 ∷ 59 ∷ 120 ∷ 10 ∷ []) 97 []
      ([], 32 ∷ 59 ∷ 120 ∷ 10 ∷ 97 ∷ []) reading gap (omega arith) refl refl

lreadr-comma_example :
    Reports memory 0
      (codes "the currently assigned stack limit has been exceded")
      0
      (lreadr machine rfs 3 ([], 44 ∷ []) memory)
lreadr-comma_example = lreadr-comma machine 3 [] memory [] (omega arith) memory-Catching
