-- ===== src/Lib.antt =====
-- SIOD, a small Scheme: the interpreter core of winsiod/slib.c and the list, number and byte
-- functions of winsiod/sliba.c and winsiod/slibu.c, with the types of winsiod/siod.h and
-- winsiod/siodp.h.
--
-- The parts and how they meet. A program is data in cells. `leval` walks a form and looks variables
-- up in environments, which are lists of frames in the same cells; the built-in functions read,
-- build and change lists; whatever builds takes a cell from the free list (`NEWCELL`), and an empty
-- free list starts a collection; whatever fails calls `err`, which jumps to a catch frame or to the
-- top level and itself allocates the value that the frame returns.
--
--   Prelude          shared names: numbers, tests, lists, integers
--   Store            struct obj, the globals of winsiod/slib.c, the accessor macros, runs of C code
--   Machine          what the code takes from outside: double, the C stack, function pointers
--   Gc               gc_mark and array_gc_mark; Gc.Sweep: gc_sweep, looks_pointerp;
--                    Gc.Collect: gc_mark_and_sweep with its roots and its message
--   Alloc            NEWCELL, gc_for_newcell, allocate_aheap; Alloc.Error: err, gc_fatal_error,
--                    cons, strcons, get_c_string
--   Lists            car to cdddr, memq, assq, reverse, nreverse, copy_list, delq, last, butlast,
--                    nconc, nlength, make_list, append2, append, nth, getprop
--   Eval             leval; Eval.Env: extend_env, envlookup, setvar, symbol_value;
--                    Eval.Apply: lapply, funcall1, funcall2, mapcar1, lsubset, ass;
--                    Eval.Forms and Eval.Control: the special forms;
--                    Eval.Knot: leval with the built-in functions
--   Copying          gc_relocate, scan_registers, get_newspace, scan_newspace, gc_stop_and_copy
--   Symbols          symcons, gen_intern, intern
--   Number           flocons and the arithmetic of winsiod/slib.c
--   Arrays           aref1, aset1; Arrays.Make: arcons
--   Printer          lprin1g, array_prin1, file_prin1, pts_puts, print_to_string
--   Reader           readtl, lreadr, lreadparen, lreadsharp, read_from_string;
--                    Reader.Tokens: flush_ws, lreadtk, lreadstring, rfs_getc, rfs_ungetc;
--                    Reader.Chars: the tests on characters and on the form of a number
--   Equality         equal; Equality.Sxhash: c_sxhash; Equality.Href: assoc, assv, href_index,
--                    href, hset
--   Strings          string_append, substring, string_trim and the other functions on strings,
--                    symbolconc; Strings.Chars: safe_strcpy, safe_strcat
--   Macros           let_macro, letstar_macro, letrec_macro, listn
--   Arguments        mapcar2, mapcar, member, memv, lref_default, larg_default, lkey_default
--   Text             base64encode, base64decode, hexstr, hexstr2bytes; Text.Url: url_encode and
--                    url_decode of winsiod/slibu.c
--   Examples         a small heap on which the theorems are run
--
-- State. An address is the number of a cell, `NIL` is 0, and heap `j` holds the cells from
-- `1 + j * heap_size` on. The type code and the union are one data type, the mark is a map of its
-- own; a cell holds one object, so a store through one pointer is seen through every other. The C
-- globals are the fields of a record. A C function is a function from this state to a run: it
-- returns, jumps to the catch frame with a number of frames outside it, jumps to `errjmp`, exits,
-- or is undefined (`fault`: an access to a member that the type code does not have).
--
-- Fuel. Each loop and recursion over a list has `fuel` rounds of the machine and ends in
-- `out_of_fuel` beyond; the theorems ask for fuel above the length of the list and show that the
-- function then returns. The mark phase of a collection has one more than the number of cells,
-- which is enough: each call marks a cell that carried no mark. The sweep is a recursion on the
-- size of a heap. The scan of a new space has one round more than the space has cells. The
-- rounds of `leval` and the depth of its recursion are bounded in the same way.
--
-- Reader and printer. A source of characters is a record of `getc` and `ungetc`, as in `struct
-- gen_readio`, and the theorems ask for a text ahead of it; the source of `read_from_string` is shown
-- to have one. The target of the printer is the function `puts_fcn`. `atof`, `%g` and `%p` are
-- parameters. The depth of the reader and the printer is bounded by fuel, and the number of parts of
-- the data is enough.
--
-- Numbers. A `double` is a bit pattern, and its operations are parameters. Bytes are numbers below
-- 256, and what C shifts and masks is written with quotients, remainders and `bit_or`.
--
-- Not modelled: the stack check but for that of lreadr, where the rounds are the calls that the
-- stack has room for; what the callers of err do where it returns, which takes a fatal_exit_hook
-- that returns while no jump is allowed (such a run is undefined here); the polling of
-- interrupts, the time that the statistics print (a parameter), the release of C buffers and
-- files when a cell is swept, user types and their hooks, the copy of the name of a new symbol,
-- the order in which C evaluates the arguments of a call where it leaves it open (left to right
-- here, and in the reader and the macros the last first). The read hooks, files as sources and
-- targets of characters, free_oldspace, sxhash, lqsort, the numbers as texts, startup, the
-- operating system (the rest of winsiod/slibu.c) and the other programs of the repository are
-- outside.
pub mod Prelude
pub mod Store
pub mod Machine
pub mod Gc
pub mod Alloc
pub mod Lists
pub mod Eval
pub mod Symbols
pub mod Number
pub mod Reader
pub mod Printer
pub mod Arrays
pub mod Copying
pub mod Equality
pub mod Strings
pub mod Macros
pub mod Arguments
pub mod Text
pub mod Examples
