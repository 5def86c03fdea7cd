-- ===== src/Compiler/Dump/Tests.antt =====
-- A chunk dumped from one interner and read into another.
use luajit_rs.Base.{
  ℕ, zero, suc, ◌<◌, ◌≡◌, refl, arith, List, [], ◌∷◌, ◌++◌, some, none, length, get_elem?, take,
  Run, ok, panic, no_fuel, Bool, true, ltb, ltb→lt, ◌&&◌, subst, ◌^◌,
}
use luajit_rs.Compiler.Dump.Proto.{Body, str, child, table, nil, cons, Proto, proto, Interner}
use luajit_rs.Compiler.Dump.Writer.{
  w_le, w_all, w_names, w_counts, w_arrays, write_string, write_source, write_kgc, write_proto,
  dump,
}
use luajit_rs.Compiler.Dump.Reader.{
  read_u8, read_le, read_bytes, read_many, read_kstrv, read_string, read_source, read_name,
  read_kgc, read_kgcs, read_body, read_proto, Blank, Loaded, loaded, version_mismatch, undump,
}
use luajit_rs.Compiler.Dump.Same.{
  AllBelow, Fits, Writable, writable, writable_nil, writable_cons, writable_str, writable_child,
  writable_table, Same,
}
use luajit_rs.Compiler.Dump.Chunk.{undump-dump}
use luajit_rs.Compiler.Dump.Header.{Outcome, undump-Outcome}

some-inj : {A : Type 0} {a b : A} → some a ≡ some b → a ≡ b
some-inj e = cc

get_elem?-last : (s : List (List ℕ)) (b : List ℕ) → get_elem? (s ++ b ∷ []) (length s) ≡ some b
get_elem?-last [] b = refl
get_elem?-last (x ∷ s) b = get_elem?-last s b

get_elem?-append :
    (s : List (List ℕ)) (b : List ℕ) (x : ℕ) (v : List ℕ)
    → get_elem? s x ≡ some v
    → get_elem? (s ++ b ∷ []) x ≡ some v
get_elem?-append [] b x v h = cc
get_elem?-append (y ∷ s) b zero v h = h
get_elem?-append (y ∷ s) b (suc x) v h = get_elem?-append s b x v h

-- every string is appended
abbrev pool : Interner (List (List ℕ))
pool = record {
  get = get_elem?;
  intern = λ s b. (length s, s ++ b ∷ []);
  get-intern = get_elem?-last;
  get-kept = get_elem?-append;
}

-- a table is the number of its entries
abbrev blank : Blank ℕ ℕ
blank = record { new_table = 0; new_cdata = 0 }

abbrev own_strings : List (List ℕ)
own_strings = (104 ∷ 105 ∷ []) ∷ (120 ∷ []) ∷ []

abbrev inner : Body
inner = record {
  bc = 0x02030142 ∷ [];
  lines = 2 ∷ [];
  kn = [];
  kstrv = [];
  uv = 0x8001 ∷ [];
  flags = 1;
  numparams = 2;
  framesize = 3;
  firstline = 2;
  numline = 1;
  uvnames = (120 ∷ []) ∷ [];
  varnames = [];
  source = none;
}

abbrev outer : Body
outer = record {
  bc = 7 ∷ 0xff000058 ∷ [];
  lines = 1 ∷ 3 ∷ [];
  kn = 0x3ff0000000000000 ∷ [];
  kstrv = none ∷ [];
  uv = [];
  flags = 2;
  numparams = 0;
  framesize = 4;
  firstline = 0;
  numline = 9;
  uvnames = [];
  varnames = (0, 0, 1, 120 ∷ []) ∷ [];
  source = some 0;
}

abbrev program : Proto ℕ ℕ
program = proto outer (cons (str 1) (cons (child (proto inner nil)) (cons (table 5) nil)))

-- the same program as it comes back, in an interner that already has a string
abbrev program' : Proto ℕ ℕ
program' =
    proto (record outer { kstrv = []; varnames = []; source = some 1 })
      (cons (str 2) (cons (child (proto inner nil)) (cons (table 0) nil)))

abbrev dumped : List ℕ
dumped = 27 ∷ 76 ∷ 74 ∷ 1 ∷ 0 ∷ 2 ∷ 0 ∷ 0 ∷ 4 ∷ 2 ∷ 0 ∷ 0 ∷ 0 ∷ 3 ∷ 0 ∷ 0 ∷ 0 ∷ []

-- the code that the runs unfold
running : Unit {0}
unfolding w_le w_all w_names w_counts w_arrays write_string write_source write_kgc write_proto dump
    read_u8 read_le read_bytes read_many read_kstrv read_string read_source read_name read_kgc
    read_kgcs read_body read_proto undump
running = tt

abbrev after_header : Run (List ℕ) → List ℕ
after_header (ok bytes) = take 17 bytes
after_header panic = []
after_header no_fuel = []

abbrev and_back : Run (List ℕ) → Run (Loaded ℕ ℕ (List (List ℕ)))
unfolding running
and_back (ok bytes) = undump pool blank (λ b. b) bytes ((65 ∷ []) ∷ [])
and_back panic = panic
and_back no_fuel = no_fuel

dump-program : after_header (dump ℕ ℕ (get_elem? own_strings) program) ≡ dumped
unfolding running
dump-program = refl

undump-program :
    and_back (dump ℕ ℕ (get_elem? own_strings) program)
    ≡ ok (loaded program' ((65 ∷ []) ∷ own_strings))
unfolding running
undump-program = refl

check : ℕ → List ℕ → Bool
check m [] = true
check m (v ∷ vs) = ltb v m && check m vs

check-AllBelow : (m : ℕ) (vs : List ℕ) → check m vs ≡ true → AllBelow m vs
unfolding check
check-AllBelow m [] h i v e = cc
check-AllBelow m (x ∷ vs) h zero v e = subst (λ t. t < m) (some-inj e) (ltb→lt x m (ground arith))
check-AllBelow m (x ∷ vs) h (suc i) v e = check-AllBelow m vs (ground arith) i v e

inner-Fits : Fits (λ b. b) inner
unfolding check
inner-Fits = record {
  flags = omega arith;
  firstline = omega arith;
  numline = omega arith;
  bc_len = omega arith;
  lines_len = refl;
  kn_len = omega arith;
  uv_len = omega arith;
  uvnames_len = omega arith;
  bc = check-AllBelow _ inner.bc refl;
  lines = check-AllBelow _ inner.lines refl;
  kn = check-AllBelow _ inner.kn refl;
  uv = check-AllBelow _ inner.uv refl;
  uvnames = short;
}
  where
    short :
        (i : ℕ) (b : List ℕ)
        → get_elem? ((120 ∷ []) ∷ []) i ≡ some b
        → (length b < 256 ^ 2) × (b ≡ b)
    short zero b e = (subst (λ t. length t < 256 ^ 2) (some-inj e) (omega arith), refl)
    short (suc i) b e = cc

outer-Fits : Fits (λ b. b) outer
unfolding check
outer-Fits = record {
  flags = omega arith;
  firstline = omega arith;
  numline = omega arith;
  bc_len = omega arith;
  lines_len = refl;
  kn_len = omega arith;
  uv_len = omega arith;
  uvnames_len = omega arith;
  bc = check-AllBelow _ outer.bc refl;
  lines = check-AllBelow _ outer.lines refl;
  kn = check-AllBelow _ outer.kn refl;
  uv = check-AllBelow _ outer.uv refl;
  uvnames = λ i b e. cc;
}

program-Writable : Writable (λ b. b) (get_elem? own_strings) program
program-Writable =
    writable outer-Fits (104 ∷ 105 ∷ [], refl, omega arith) (omega arith)
      (writable_cons (writable_str (120 ∷ [], refl, omega arith)) (
        writable_cons (writable_child (writable inner-Fits tt (omega arith) writable_nil))
          (writable_cons writable_table writable_nil)))

undump-dump_example :
    (bytes : List ℕ) × (dump ℕ ℕ (get_elem? own_strings) program ≡ ok bytes)
    × (q : Proto ℕ ℕ) × (s' : List (List ℕ)) × (undump pool blank (λ b. b) bytes []
        ≡ ok (loaded q s'))
    × Same blank (get_elem? own_strings) (get_elem? s') program q
undump-dump_example =
    undump-dump pool blank (λ b. b) (get_elem? own_strings) program [] program-Writable

undump-other_version :
    undump pool blank (λ b. b) (27 ∷ 76 ∷ 74 ∷ 2 ∷ 0 ∷ []) [] ≡ ok (version_mismatch 2)
unfolding running
undump-other_version = refl

-- a chunk that ends behind its header
undump-no_body : undump pool blank (λ b. b) (27 ∷ 76 ∷ 74 ∷ 1 ∷ 0 ∷ []) [] ≡ panic
unfolding running
undump-no_body = refl

undump-Outcome_example :
    Outcome pool blank
      (λ b. b)
      (27 ∷ 76 ∷ 74 ∷ 2 ∷ 0 ∷ [])
      (undump pool blank (λ b. b) (27 ∷ 76 ∷ 74 ∷ 2 ∷ 0 ∷ []) [])
undump-Outcome_example = undump-Outcome pool blank (λ b. b) (27 ∷ 76 ∷ 74 ∷ 2 ∷ 0 ∷ []) []
