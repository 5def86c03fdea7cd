-- ===== src/Compiler/Dump/Proto.antt =====
-- `Proto` and `KGc` of crates/luajit-rs/src/runtime/proto.rs, and what dumping uses of the string
-- interner. Tables and C data are types of their own, `T` and `C`; a number constant is the bit
-- pattern of its f64; a value of `kstrv` is nil or its bits.
use luajit_rs.Base.{ℕ, suc, List, Option, some, ◌≡◌}

pub record Body : Type 0 where
  pub bc : List ℕ
  pub lines : List ℕ
  pub kn : List ℕ
  pub kstrv : List (Option ℕ)
  pub uv : List ℕ
  pub flags : ℕ
  pub numparams : ℕ
  pub framesize : ℕ
  pub firstline : ℕ
  pub numline : ℕ
  pub uvnames : List (List ℕ)
  pub varnames : List (ℕ × ℕ × ℕ × List ℕ)
  pub source : Option ℕ

mutual
  pub data Kgc (T C : Type 0) : Type 0 where
    str : ℕ → Kgc T C
    child : Proto T C → Kgc T C
    child_ref : Proto T C → Kgc T C
    table : T → Kgc T C
    table_ref : T → Kgc T C
    cdata : C → Kgc T C

  pub data Kgcs (T C : Type 0) : Type 0 where
    nil : Kgcs T C
    cons : Kgc T C → Kgcs T C → Kgcs T C

  pub data Proto (T C : Type 0) : Type 0 where
    proto : Body → Kgcs T C → Proto T C

module _ {T C : Type 0} where
  abbrev pub length_kgcs : Kgcs T C → ℕ
  length_kgcs nil = 0
  length_kgcs (cons k ks) = suc (length_kgcs ks)

-- The string interner as dumping uses it: `get` of an id, and `intern`, which returns the id of a
-- string and leaves the strings of all other ids as they were.
pub record Interner (I : Type 0) : Type 0 where
  pub get : I → ℕ → Option (List ℕ)
  pub intern : I → List ℕ → ℕ × I
  pub get-intern : (s : I) (b : List ℕ) → get (intern s b).1 (intern s b).0 ≡ some b
  pub get-kept :
      (s : I) (b : List ℕ) (x : ℕ) (v : List ℕ) → get s x ≡ some v → get (intern s b).1 x ≡ some v
