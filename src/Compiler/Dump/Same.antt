-- ===== src/Compiler/Dump/Same.antt =====
-- What crates/luajit-rs/src/compiler/dump.rs can write, and what of it undump.rs brings back.
use luajit_rs.Base.{ℕ, ◌^◌, ◌<◌, ◌≡◌, List, [], Option, some, none, length, get_elem?}
use luajit_rs.Compiler.Dump.Proto.{
  Body, Kgc, str, child, child_ref, table, table_ref, cdata, Kgcs, nil, cons, Proto, proto,
  length_kgcs,
}
use luajit_rs.Compiler.Dump.Reader.{Blank}

-- Every element of a list is below a bound.
abbrev pub AllBelow : ℕ → List ℕ → Type 0
AllBelow m vs = (i v : ℕ) → get_elem? vs i ≡ some v → v < m

-- The fields and counts fit the integers that they are written as, there is a line for each
-- instruction, and the names are valid for `from_utf8_lossy`.
pub record Fits (from_utf8_lossy : List ℕ → List ℕ) (b : Body) : Type 0 where
  pub flags : b.flags < 256 ^ 2
  pub firstline : b.firstline < 256 ^ 4
  pub numline : b.numline < 256 ^ 4
  pub bc_len : length b.bc < 256 ^ 4
  pub lines_len : length b.lines ≡ length b.bc
  pub kn_len : length b.kn < 256 ^ 4
  pub uv_len : length b.uv < 256 ^ 4
  pub uvnames_len : length b.uvnames < 256 ^ 4
  pub bc : AllBelow (256 ^ 4) b.bc
  pub lines : AllBelow (256 ^ 4) b.lines
  pub kn : AllBelow (256 ^ 8) b.kn
  pub uv : AllBelow (256 ^ 2) b.uv
  pub uvnames :
      (i : ℕ) (name : List ℕ)
      → get_elem? b.uvnames i ≡ some name
      → (length name < 256 ^ 2) × (from_utf8_lossy name ≡ name)

-- an id whose string can be written
abbrev pub IsString : (ℕ → Option (List ℕ)) → ℕ → Type 0
IsString get x = (v : List ℕ) × (get x ≡ some v) × (length v < 256 ^ 4)

abbrev pub IsSource : (ℕ → Option (List ℕ)) → Option ℕ → Type 0
IsSource get none = Unit {0}
IsSource get (some x) = IsString get x

mutual
  pub data WritableKgc {T C : Type 0} (lossy : List ℕ → List ℕ) (get : ℕ → Option (List ℕ))
      : Kgc T C → Type 0 where
    writable_str : {x : ℕ} → IsString get x → WritableKgc lossy get (str x)
    writable_child : {p : Proto T C} → Writable lossy get p → WritableKgc lossy get (child p)
    writable_ref : {p : Proto T C} → Writable lossy get p → WritableKgc lossy get (child_ref p)
    writable_table : {t : T} → WritableKgc lossy get (table t)
    writable_table_ref : {t : T} → WritableKgc lossy get (table_ref t)
    writable_cdata : {c : C} → WritableKgc lossy get (cdata c)

  pub data WritableKgcs {T C : Type 0} (lossy : List ℕ → List ℕ) (get : ℕ → Option (List ℕ))
      : Kgcs T C → Type 0 where
    writable_nil : WritableKgcs lossy get nil
    writable_cons :
        {k : Kgc T C} {ks : Kgcs T C}
        → WritableKgc lossy get k
        → WritableKgcs lossy get ks
        → WritableKgcs lossy get (cons k ks)

  pub data Writable {T C : Type 0} (lossy : List ℕ → List ℕ) (get : ℕ → Option (List ℕ))
      : Proto T C → Type 0 where
    writable :
        {b : Body} {ks : Kgcs T C}
        → Fits lossy b
        → IsSource get b.source
        → length_kgcs ks < 256 ^ 4
        → WritableKgcs lossy get ks
        → Writable lossy get (proto b ks)

-- Two ids that stand for one string, each in its own interner.
abbrev pub SameString : (ℕ → Option (List ℕ)) → (ℕ → Option (List ℕ)) → ℕ → ℕ → Type 0
SameString get get' x y = (v : List ℕ) × (get x ≡ some v) × (get' y ≡ some v)

abbrev pub SameSource : (ℕ → Option (List ℕ)) → (ℕ → Option (List ℕ)) → Option ℕ → Option ℕ → Type 0
SameSource get get' none none = Unit {0}
SameSource get get' (some x) (some y) = SameString get get' x y
SameSource get get' none (some y) = ⊥
SameSource get get' (some x) none = ⊥

-- what a dump keeps of a prototype's own fields
abbrev pub kept : Body → Option ℕ → Body
kept b source = record b { kstrv = []; varnames = []; source = source }

-- A prototype and the one that reading brings back: the strings are the same, a registered child is
-- a child again, tables and C data come back blank, and `kstrv` and `varnames` empty.
mutual
  pub data SameKgc {T C : Type 0} (blank : Blank T C) (get get' : ℕ → Option (List ℕ))
      : Kgc T C → Kgc T C → Type 0 where
    same_str : {x y : ℕ} → SameString get get' x y → SameKgc blank get get' (str x) (str y)
    same_child :
        {p q : Proto T C} → Same blank get get' p q → SameKgc blank get get' (child p) (child q)
    same_ref :
        {p q : Proto T C} → Same blank get get' p q → SameKgc blank get get' (child_ref p) (child q)
    lost_table : {t : T} → SameKgc blank get get' (table t) (table blank.new_table)
    lost_table_ref : {t : T} → SameKgc blank get get' (table_ref t) (table blank.new_table)
    lost_cdata : {c : C} → SameKgc blank get get' (cdata c) (cdata blank.new_cdata)

  pub data SameKgcs {T C : Type 0} (blank : Blank T C) (get get' : ℕ → Option (List ℕ))
      : Kgcs T C → Kgcs T C → Type 0 where
    same_nil : SameKgcs blank get get' nil nil
    same_cons :
        {k k' : Kgc T C} {ks ks' : Kgcs T C}
        → SameKgc blank get get' k k'
        → SameKgcs blank get get' ks ks'
        → SameKgcs blank get get' (cons k ks) (cons k' ks')

  pub data Same {T C : Type 0} (blank : Blank T C) (get get' : ℕ → Option (List ℕ))
      : Proto T C → Proto T C → Type 0 where
    same :
        {b : Body} {source : Option ℕ} {ks ks' : Kgcs T C}
        → SameSource get get' b.source source
        → SameKgcs blank get get' ks ks'
        → Same blank get get' (proto b ks) (proto (kept b source) ks')

-- The strings of all ids are kept.
abbrev pub Grows : (ℕ → Option (List ℕ)) → (ℕ → Option (List ℕ)) → Type 0
Grows get get' = (x : ℕ) (v : List ℕ) → get x ≡ some v → get' x ≡ some v

module _ {T C : Type 0} (blank : Blank T C) (get : ℕ → Option (List ℕ))
    {get' get'' : ℕ → Option (List ℕ)} (grows : Grows get' get'') where
  pub SameSource-grows : (o o' : Option ℕ) → SameSource get get' o o' → SameSource get get'' o o'
  SameSource-grows none none h = tt
  SameSource-grows (some x) (some y) (v, e, e') = (v, e, grows y v e')
  SameSource-grows none (some y) h = elim h [ ]
  SameSource-grows (some x) none h = elim h [ ]

  mutual
    pub SameKgc-grows :
        {k k' : Kgc T C} → SameKgc blank get get' k k' → SameKgc blank get get'' k k'
    SameKgc-grows (same_str (v, e, e')) = same_str (v, e, grows _ v e')
    SameKgc-grows (same_child h) = same_child (Same-grows h)
    SameKgc-grows (same_ref h) = same_ref (Same-grows h)
    SameKgc-grows lost_table = lost_table
    SameKgc-grows lost_table_ref = lost_table_ref
    SameKgc-grows lost_cdata = lost_cdata

    pub SameKgcs-grows :
        {ks ks' : Kgcs T C} → SameKgcs blank get get' ks ks' → SameKgcs blank get get'' ks ks'
    SameKgcs-grows same_nil = same_nil
    SameKgcs-grows (same_cons h h') = same_cons (SameKgc-grows h) (SameKgcs-grows h')

    pub Same-grows : {p q : Proto T C} → Same blank get get' p q → Same blank get get'' p q
    Same-grows (same h h') = same (SameSource-grows _ _ h) (SameKgcs-grows h')
