-- ===== src/Lib.antt =====
-- Verification library of luajit-rs, an implementation of Lua with LuaJIT's bytecode in Rust.
--
-- The program. crates/luajit-rs is the library: compiler (lexer, parser and code generator, the
-- bytecode format, dump and undump), vm (the interpreter), runtime (values, tables, strings, states
-- and the collectors), jit (recorder, IR optimisations, machine code), ffi, util and stdlib (the Lua
-- libraries over engines of their own, such as pattern). The compiler emits bytecode words that the
-- interpreter and the recorder decode; the string library calls the pattern engine with byte slices.
--
-- The files. Base holds the shared names: Base/Tests the Boolean tests, Base/Lists lists indexed by
-- native numbers, Base/Outcome the result of code that may panic, Base/Bits bitwise operations,
-- Base/Int signed integers.
--
-- Pattern models crates/luajit-rs/src/stdlib/pattern (class.rs, engine.rs, mod.rs). Pattern/Class
-- has the classes and sets (match_class, matchset, singlematch, element_end), Pattern/Validate
-- is_plain_pattern and validate_pattern, Pattern/State the MatchState, Pattern/Repeat
-- count_max_repetition, Pattern/Match the backtracking matcher (match_impl and the functions it
-- calls), Pattern/Plain find_bytes_in_slice, Pattern/Find find and find_assume_valid, Pattern/FindAll
-- find_all_matches, Pattern/Gsub gsub and its replacement texts. Bytes are numbers. The text is a list
-- with indices into it; an index into the pattern is the rest of the pattern from there on, so that a
-- read past its end is a panic. A capture is a record, and the 32 slots are a list. A Rust panic (an
-- index out of bounds, an unsigned underflow) is the value `panic` of Run, and the errors that the
-- code returns are values of PatternError. Pattern/Safe and Pattern/Invariant hold the predicates of
-- the proofs, Pattern/Total the proofs about the matcher and the loops around it.
-- Fuel: match_impl counts its depth and stops at MAXCCALLS_PATTERN, so that the limit plus two is
-- enough for every call; the loops of gsub and of the plain fast paths advance in every round, and
-- that of find_all_matches in every second round, which bounds their fuel by the length of the text.
-- The loops inside match_impl are structural on the rest of the text or of the pattern.
--
-- Compiler/Bc models crates/luajit-rs/src/compiler/bc.rs: Op the opcodes and their numbers, Mode the
-- instruction table and its packed form, Ins the fields of an instruction word. Words are numbers below 2 ^ 32, and a shift drops what leaves them, as in Rust. from_u32
-- panics on a number that is no opcode, as its assertion does in debug builds.
--
-- Compiler/Dump models crates/luajit-rs/src/compiler/dump.rs and undump.rs, with the prototypes of
-- crates/luajit-rs/src/runtime/proto.rs: Proto the data, Writer the writers, which return the bytes
-- they append, Reader the readers, which return a value, the interner's next state and the rest of the
-- data, or panic past its end. The string interner is the interface Interner, with what the code
-- relies on as its laws: an id that intern returns stands for the string, and other ids keep theirs.
-- from_utf8_lossy is a parameter. The fuel of the reader bounds the nesting of prototypes, and the
-- length of the data is enough, since a child takes a byte. Same says what of a prototype comes back.
-- Ends is about the fuel of the reader, and Header about the header of a chunk.
--
-- Sort models crates/luajit-rs/src/stdlib/sort.rs: Sort/Intro has introsort, introsort_impl, partition,
-- insertion_sort, heapsort and sift_down, over the slice operations of Sort/Slice and the computations
-- of Sort/Exec, which return, raise a Lua error, panic or run out of fuel. cmp_apply, which calls the
-- interpreter, is a parameter: a function of the Lua state and two values to a state and an answer or
-- an error. Recursion follows the depth of introsort_impl; the loops of partition and sift_down run on
-- fuel for the width of the range, since their indices close in on each other or move down the heap.
-- Sort/Moved is about rearranged slices, Sort/Total about the code on every comparison.
--
-- Gc models crates/luajit-rs/src/runtime/gc_gen/header.rs: Gc/Header has the bits, ages and kinds, the
-- tests, and the methods that set a cell, which return the changed header; Gc/Header/Colours is about
-- them, by evaluation on all bytes (Gc/Header/Bytes). The list and the collector are not modelled.
--
-- Runtime/Table models crates/luajit-rs/src/runtime/table.rs. A value is an element of a type of which
-- Table/Values says what the code asks (bit equality, hash, conversion to an exact integer), as a
-- record of operations with the laws that they obey; a table is the record of State, and the address
-- that mirrors the array and the collector's pointers are left out. Find has the lookups, Count the
-- sizing of rehash, Insert the writes, Traverse next. set calls itself through rehash and resize: its
-- fuel bounds the rounds of its loop and the depth of these calls, and two is enough below 2 ^ 26
-- entries, because the sizes that rehash chooses have a node for each entry outside the array and for
-- the key. A chain is at most as long as the hash part, which bounds the walks.
-- The proofs: Chains is the invariant of the chains, Brent the three ways of Brent's variation; Nodes
-- the node vector as a function; Valid the invariant of a table, and lookups; Placed, Search, NewKey
-- and TryNewKey are about new keys; Assign and SetRound about a round of set, SetAll about a series of
-- writes, Resized, Entries, Contents and Resize about
-- resize, Log, Bins, Counted, CountArray and Rehash about
-- rehash. Map has the abstract view, a map from keys to values, and Integers, Strings, Next
-- and Dup the operations around set. Length has len: its two searches have rounds for fuel, 32 for the doubling
-- and 2 ^ 26 + 1 for the linear one, which by Pigeons has no more indices in a row to read than the
-- table has entries; Border is the binary search, Indices what the table gives for small
-- indices, and Len the length. The weak tables of the collector
-- are not modelled.
--
-- Not modelled: everything that the list above does not name. Input and output, FFI and machine code
-- depend on the operating system, on C or on a processor; floating point has no counterpart here; the
-- interpreter, the recorder and the parser depend on those and on the values.
-- The models leave out allocation failure, and lengths near the limits of usize. The depth of %b in
-- match_balanced, an i32, is a natural number: the two agree on texts of fewer than 2 ^ 31 bytes. The
-- counts of keys in a table, u32, are natural numbers too, which agree below 2 ^ 31 keys.
pub mod Base
pub mod Pattern
pub mod Compiler
pub mod Sort
pub mod Gc
pub mod Runtime
