-- ===== src/Compiler/Dump/Header.antt =====
-- What `undump` of crates/luajit-rs/src/compiler/undump.rs makes of the header of a chunk.
use luajit_rs.Base.{
  ℕ, ◌≡◌, ◌≢◌, ap, ◌∙◌, arith, false, List, [], ◌∷◌, length, ltb, ◌==◌, Run, ok, panic, no_fuel,
  Bool-cases, inl, inr,
}
use luajit_rs.Compiler.Dump.Proto.{Proto, Interner}
use luajit_rs.Compiler.Dump.Writer.{version}
use luajit_rs.Compiler.Dump.Reader.{
  Blank, Loaded, loaded, not_a_chunk, version_mismatch, read_proto, finished, undump,
}
use luajit_rs.Compiler.Dump.Ends.{Left, read_proto-Reads}

-- The data is the magic bytes, the version `v`, a byte of flags, and more.
abbrev pub Headed : ℕ → List ℕ → Type 0
Headed v bytes = (flags : ℕ) × (rest : List ℕ) × (bytes ≡ 0x1b ∷ 0x4c ∷ 0x4a ∷ v ∷ flags ∷ rest)

module _ {I T C : Type 0} (strs : Interner I) (blank : Blank T C)
    (from_utf8_lossy : List ℕ → List ℕ) where
  -- which data may have which result
  abbrev pub Outcome : List ℕ → Run (Loaded T C I) → Type 0
  Outcome bytes (ok (loaded p s)) = Headed version bytes
  Outcome bytes (ok not_a_chunk) = (v : ℕ) → ¬ Headed v bytes
  Outcome bytes (ok (version_mismatch v)) = (v ≢ version) × Headed v bytes
  Outcome bytes panic = Headed version bytes
  Outcome bytes no_fuel = ⊥

  from_body :
      (bytes : List ℕ) (r : Run (Proto T C × I × List ℕ)) (n : ℕ)
      → Headed version bytes
      → Left n r
      → Outcome bytes (finished strs blank from_utf8_lossy r)
  from_body bytes (ok (p, s, rest)) n h left = h
  from_body bytes panic n h left = h
  from_body bytes no_fuel n h left = left

  -- at least five bytes
  long :
      (a b c v flags : ℕ) (rest : List ℕ) (s : I)
      → Outcome
          (a ∷ b ∷ c ∷ v ∷ flags ∷ rest)
          (undump strs blank from_utf8_lossy (a ∷ b ∷ c ∷ v ∷ flags ∷ rest) s)
  unfolding undump
  long a b c v flags rest s =
      let bytes = a ∷ b ∷ c ∷ v ∷ flags ∷ rest in
      let fits : ltb (length bytes) 5 ≡ false = ground arith in
      elim (Bool-cases (a == 0x1b)) [
        | inr e ↦ rw (fits, e) (λ w (f, r, q). ground arith)
        | inl ea ↦ elim (Bool-cases (b == 0x4c)) [
          | inr e ↦ rw (fits, ea, e) (λ w (f, r, q). ground arith)
          | inl eb ↦ elim (Bool-cases (c == 0x4a)) [
            | inr e ↦ rw (fits, ea, eb, e) (λ w (f, r, q). ground arith)
            | inl ec ↦
                let magic : bytes ≡ 0x1b ∷ 0x4c ∷ 0x4a ∷ v ∷ flags ∷ rest = ground arith in
                elim (Bool-cases (v == version)) [
                  | inr e ↦ rw (fits, ea, eb, ec, e) ((λ q. ground arith), (flags, rest, magic))
                  | inl e ↦
                      let same : v ≡ version = ground arith in
                      rw (fits, ea, eb, ec, e)
                        (from_body bytes
                          (read_proto strs blank from_utf8_lossy (length bytes) s rest)
                          (length rest)
                          (
                            flags,
                            rest,
                            magic ∙ ap (λ (w : ℕ). 0x1b ∷ 0x4c ∷ 0x4a ∷ w ∷ flags ∷ rest) same,
                          )
                          (read_proto-Reads strs blank from_utf8_lossy (length bytes) s rest
                            (omega arith)))
                ]
          ]
        ]
      ]

  -- For every data and interner `undump` stays within its fuel, and its result tells the header: what is
  -- loaded, or panics in the body, begins with the magic bytes, this version and a byte of flags; a
  -- version mismatch is returned for the magic bytes with that other version and a byte behind it; and
  -- data that are no chunk have no such beginning with any version.
  pub undump-Outcome :
      (bytes : List ℕ) (s : I) → Outcome bytes (undump strs blank from_utf8_lossy bytes s)
  unfolding undump
  undump-Outcome [] s = λ v (f, r, q). cc
  undump-Outcome (a ∷ []) s = λ v (f, r, q). cc
  undump-Outcome (a ∷ b ∷ []) s = λ v (f, r, q). cc
  undump-Outcome (a ∷ b ∷ c ∷ []) s = λ v (f, r, q). cc
  undump-Outcome (a ∷ b ∷ c ∷ v ∷ []) s = λ w (f, r, q). cc
  undump-Outcome (a ∷ b ∷ c ∷ v ∷ flags ∷ rest) s = long a b c v flags rest s
