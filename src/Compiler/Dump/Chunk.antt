-- ===== src/Compiler/Dump/Chunk.antt =====
-- Whole chunks, `dump` and `undump` of crates/luajit-rs/src/compiler/dump.rs and undump.rs.
use luajit_rs.Base.{
  ℕ, ◌≡◌, refl, sym, ◌∙◌, subst, arith, List, [], ◌∷◌, append-nil, Option, length, ltb, ok, false,
}
use luajit_rs.Compiler.Dump.Proto.{Proto, Interner}
use luajit_rs.Compiler.Dump.Writer.{dump}
use luajit_rs.Compiler.Dump.Reader.{Blank, read_proto, loaded, undump}
use luajit_rs.Compiler.Dump.Same.{Writable, Same}
use luajit_rs.Compiler.Dump.Trip.{nesting}
use luajit_rs.Compiler.Dump.RoundTrip.{proto-round}

ok-inj : {a b : List ℕ} → ok a ≡ ok b → a ≡ b
ok-inj e = cc

module _ {I T C : Type 0} (strs : Interner I) (blank : Blank T C)
    (from_utf8_lossy : List ℕ → List ℕ) where
  -- the bytes of a chunk
  abbrev chunk : List ℕ → List ℕ
  chunk b = 0x1b ∷ 0x4c ∷ 0x4a ∷ 1 ∷ 0 ∷ b

  chunk-loaded :
      (b : List ℕ) (s s' : I) (q : Proto T C)
      → read_proto strs blank from_utf8_lossy (length (chunk b)) s b ≡ ok (q, s', [])
      → undump strs blank from_utf8_lossy (chunk b) s ≡ ok (loaded q s')
  unfolding undump
  chunk-loaded b s s' q h =
      let long : ltb (length (chunk b)) 5 ≡ false = ground arith in rw (long, h) refl

  -- A prototype whose fields and counts fit what they are written as, and whose strings the interner
  -- has, is dumped without a panic, and undumping the bytes in any interner ends without a panic or
  -- an error. What comes back is the prototype: the same code, lines, numbers, upvalues and names of
  -- upvalues, the same strings and the same children, with blank tables and C data in place of its own,
  -- and with the fields `kstrv` and `varnames` empty.
  pub undump-dump :
      (get : ℕ → Option (List ℕ)) (p : Proto T C) (s : I)
      → Writable from_utf8_lossy get p
      → (bytes : List ℕ) × (dump T C get p ≡ ok bytes)
        × (q : Proto T C) × (s' : I) × (undump strs blank from_utf8_lossy bytes s
            ≡ ok (loaded q s'))
        × Same blank get (strs.get s') p q
  unfolding dump undump
  undump-dump get p s h =
      let t = proto-round strs blank from_utf8_lossy get (nesting p) (omega arith) h in
      let u =
        proto-round strs blank from_utf8_lossy get (length (chunk t.bytes)) (omega (arith, t.long))
          h in
      let same_bytes : u.bytes ≡ t.bytes = ok-inj (sym u.written ∙ t.written) in
      let (q, s', parses, grows, related) = u.back s in
      let read =
        subst
          (λ bs.
            read_proto strs blank from_utf8_lossy (length (chunk t.bytes)) s bs ≡ ok (q, s', []))
          (append-nil u.bytes ∙ same_bytes) (parses.run []) in
      (chunk t.bytes, rw t.written refl, q, s', chunk-loaded t.bytes s s' q read, related)
