-- ===== src/Compiler/Dump/Reader.antt =====
-- crates/luajit-rs/src/compiler/undump.rs. The reader's position is the rest of the data from there
-- on; a slice past the end is a panic.
use luajit_rs.Base.{
  ℕ, zero, suc, ◌+◌, ◌*◌, Bool, ◌||◌, not, List, [], ◌∷◌, Option, some, none, length, ltb, ◌==◌,
  if◌then◌else◌, drop, Run, ok, panic, no_fuel,
}
use luajit_rs.Compiler.Dump.Proto.{
  Kgc, str, child, table, cdata, Kgcs, nil, cons, Proto, proto, Interner,
}
use luajit_rs.Compiler.Dump.Writer.{version}

-- a computation on the interner and the rest of the data
abbrev pub P : Type 0 → Type 0 → Type 0
P I A = I → List ℕ → Run (A × I × List ℕ)

abbrev pub read_on : {I A B : Type 0} → Run (A × I × List ℕ) → (A → P I B) → Run (B × I × List ℕ)
read_on (ok (a, s, bytes)) f = f a s bytes
read_on panic f = panic
read_on no_fuel f = no_fuel

infixl 5 ◌>>=◌ ◌>>◌
abbrev pub ◌>>=◌ : {I A B : Type 0} → P I A → (A → P I B) → P I B
◌>>=◌ m f s bytes = read_on (m s bytes) f

abbrev pub ◌>>◌ : {I A B : Type 0} → P I A → P I B → P I B
m >> k = m >>= λ _. k

abbrev pub pure : {I A : Type 0} → A → P I A
pure a s bytes = ok (a, s, bytes)

module _ {I : Type 0} where
  unfoldable pub read_u8 : P I ℕ
  read_u8 s [] = panic
  read_u8 s (b ∷ bytes) = ok (b, s, bytes)

  -- `from_le_bytes` of the next `n` bytes: read_u16, read_u32 and read_f64
  unfoldable pub read_le : ℕ → P I ℕ
  unfolding read_u8
  read_le zero = pure 0
  read_le (suc n) = do b ← read_u8; v ← read_le n; pure (b + 256 * v)

  unfoldable pub read_bytes : ℕ → P I (List ℕ)
  unfolding read_u8
  read_bytes zero = pure []
  read_bytes (suc n) = do b ← read_u8; bs ← read_bytes n; pure (b ∷ bs)

  -- `for _ in 0..count { v.push(read()) }`
  unfoldable pub read_many : {A : Type 0} → ℕ → P I A → P I (List A)
  read_many zero read = pure []
  read_many (suc n) read = do a ← read; as' ← read_many n read; pure (a ∷ as')

  unfoldable pub read_kstrv : P I (Option ℕ)
  unfolding read_le
  read_kstrv = do raw ← read_le 4; pure (if raw == 0xffffffff then none else some raw)

-- what the code reads a table and a C data constant as
pub record Blank (T C : Type 0) : Type 0 where
  pub new_table : T
  pub new_cdata : C

pub data Loaded (T C I : Type 0) : Type 0 where
  loaded : Proto T C → I → Loaded T C I
  not_a_chunk : Loaded T C I
  version_mismatch : ℕ → Loaded T C I

module _ {I T C : Type 0} (strs : Interner I) (blank : Blank T C)
    (from_utf8_lossy : List ℕ → List ℕ) where
  open strs use {intern}

  -- a length, that many bytes, and `strs.intern` of them
  unfoldable pub read_string : P I ℕ
  unfolding read_le read_bytes
  read_string = do
    len ← read_le 4
    bytes ← read_bytes len
    λ s rest. let (sid, s') = intern s bytes in ok (sid, s', rest)

  unfoldable pub read_source : P I (Option ℕ)
  unfolding read_u8 read_string
  read_source = do
    has_source ← read_u8
    if has_source == 0 then pure none else (read_string >>= λ sid. pure (some sid))

  unfoldable pub read_name : P I (List ℕ)
  unfolding read_le read_bytes
  read_name = do len ← read_le 2; bytes ← read_bytes len; pure (from_utf8_lossy bytes)

  -- `read_kgc`, where `again` is `read_proto`
  unfoldable pub read_kgc : P I (Proto T C) → P I (Kgc T C)
  unfolding read_u8 read_string
  read_kgc again = do
    tag ← read_u8
    if tag == 0
        then (read_string >>= λ sid. pure (str sid))
        else if tag == 1
        then (again >>= λ p. pure (child p))
        else if tag == 2
        then pure (table blank.new_table)
        else if tag == 3
        then pure (cdata blank.new_cdata)
        else λ s rest. panic

  unfoldable pub read_kgcs : P I (Proto T C) → ℕ → P I (Kgcs T C)
  unfolding read_kgc
  read_kgcs again zero = pure nil
  read_kgcs again (suc n) = do k ← read_kgc again; ks ← read_kgcs again n; pure (cons k ks)

  unfoldable pub read_body : P I (Proto T C) → P I (Proto T C)
  unfolding read_le read_u8 read_source read_many read_kstrv read_name read_kgcs
  read_body again = do
    flags ← read_le 2
    numparams ← read_u8
    framesize ← read_u8
    bc_len ← read_le 4
    kgc_len ← read_le 4
    kn_len ← read_le 4
    kstrv_len ← read_le 4
    uv_len ← read_le 4
    uvnames_len ← read_le 4
    firstline ← read_le 4
    numline ← read_le 4
    source ← read_source
    bc ← read_many bc_len (read_le 4)
    lines ← read_many bc_len (read_le 4)
    kn ← read_many kn_len (read_le 8)
    kstrv ← read_many kstrv_len read_kstrv
    uv ← read_many uv_len (read_le 2)
    uvnames ← read_many uvnames_len read_name
    kgc ← read_kgcs again kgc_len
    pure (
        proto
          (record {
            bc = bc;
            lines = lines;
            kn = kn;
            kstrv = kstrv;
            uv = uv;
            flags = flags;
            numparams = numparams;
            framesize = framesize;
            firstline = firstline;
            numline = numline;
            uvnames = uvnames;
            varnames = [];
            source = source;
          })
          kgc)

  -- The fuel bounds the nesting of prototypes.
  unfoldable pub read_proto : ℕ → P I (Proto T C)
  unfolding read_body
  read_proto zero = λ s bytes. no_fuel
  read_proto (suc fuel) = read_body (read_proto fuel)

  abbrev starts_with_magic : List ℕ → Bool
  starts_with_magic (a ∷ b ∷ c ∷ _) =
      if a == 0x1b then (if b == 0x4c then c == 0x4a else Bool.false) else Bool.false
  starts_with_magic _ = Bool.false

  abbrev pub finished : Run (Proto T C × I × List ℕ) → Run (Loaded T C I)
  finished (ok (p, s, rest)) = ok (loaded p s)
  finished panic = panic
  finished no_fuel = no_fuel

  -- A child takes at least one byte, so that the length of the data bounds the nesting.
  unfoldable pub undump : List ℕ → I → Run (Loaded T C I)
  unfolding read_proto
  undump bytes s =
      if ltb (length bytes) 5 || not (starts_with_magic bytes)
      then ok not_a_chunk
      else elim (drop 3 bytes) [
        | v ∷ flags ∷ rest ↦
            if v == version
            then finished (read_proto (length bytes) s rest)
            else ok (version_mismatch v)
        | _ ↦ panic
      ]
