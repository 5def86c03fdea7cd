-- ===== src/Compiler/Dump/RoundTrip.antt =====
-- Whole prototypes and chunks of crates/luajit-rs/src/compiler/dump.rs and undump.rs.
use luajit_rs.Base.{
  ℕ, zero, suc, ◌^◌, ◌≤◌, ◌<◌, refl, subst, arith, List, [], ◌∷◌, ◌++◌, Option, length,
}
use luajit_rs.Compiler.Dump.Proto.{Body, Kgc, Kgcs, nil, Proto, proto, length_kgcs, Interner}
use luajit_rs.Compiler.Dump.Writer.{
  w_le, w_all, w_names, w_counts, w_arrays, write_kgc, write_kgcs, write_proto,
}
use luajit_rs.Compiler.Dump.Reader.{
  Blank, P, ◌>>=◌, pure, read_u8, read_le, read_many, read_kstrv, read_source, read_name, read_kgc,
  read_kgcs, read_body, read_proto,
}
use luajit_rs.Compiler.Dump.Same.{
  IsSource, Fits, WritableKgc, writable_str, writable_child, writable_ref, writable_table,
  writable_table_ref, writable_cdata, WritableKgcs, writable_nil, writable_cons, Writable, writable,
  kept, SameKgc, lost_table, lost_table_ref, lost_cdata, SameKgcs, same_nil, Same, same,
  SameSource-grows,
}
use luajit_rs.Compiler.Dump.Parses.{
  Parses, Parses-bind, Parses-map, read_u8-Parses, read_le-Parses, read_all-Parses,
  read_names-Parses,
}
use luajit_rs.Compiler.Dump.Trip.{
  nesting_kgc, nesting_kgcs, nesting, le-append, Trip, source-Trip, kgc-str, kgc-child, kgc-blank,
  kgcs-cons,
}

-- a dump has no entries of `kstrv`
no_kstrv : {I : Type 0} (s : I) → Parses (read_many 0 read_kstrv) s [] [] s
unfolding read_many
no_kstrv s = record { run = λ rest. refl }

module _ {I T C : Type 0} (strs : Interner I) (blank : Blank T C) (lossy : List ℕ → List ℕ)
    (get : ℕ → Option (List ℕ)) where
  abbrev ProtoTrip : ℕ → Proto T C → ℕ → Type 0
  ProtoTrip f p n =
      Trip strs blank lossy get (read_proto strs blank lossy f) (write_proto T C get p)
        (λ g q. Same blank get g p q) n

  counts-long :
      (b : Body) (k n : ℕ) (rest : List ℕ) → n ≤ length rest → suc n ≤ length (w_counts b k rest)
  unfolding w_counts w_le
  counts-long b k n rest h = omega arith

  arrays-long : (b : Body) (n : ℕ) (rest : List ℕ) → n ≤ length rest → n ≤ length (w_arrays b rest)
  unfolding w_arrays
  arrays-long b n rest h = le-append (w_all 4 b.bc) _ (
      le-append (w_all 4 b.lines) _ (
        le-append (w_all 8 b.kn) _
          (le-append (w_all 2 b.uv) _ (le-append (w_names b.uvnames) _ h))))

  body-Parses :
      (b : Body) (ks : Kgcs T C) (again : P I (Proto T C)) {s s' s'' : I} {sb kb : List ℕ}
      {source : Option ℕ} {ks' : Kgcs T C}
      → Fits lossy b
      → length_kgcs ks < 256 ^ 4
      → Parses (read_source strs blank lossy) s sb source s'
      → Parses (read_kgcs strs blank lossy again (length_kgcs ks)) s' kb ks' s''
      → Parses
          (read_body strs blank lossy again)
          s
          (w_counts b (length_kgcs ks) (sb ++ w_arrays b kb))
          (proto (kept b source) ks')
          s''
  unfolding read_body w_counts w_arrays
  body-Parses b ks again {s} {s'} {source = source} fits few p p' =
      Parses-bind (read_le 2) _ {bs = w_le 2 b.flags} (read_le-Parses 2 s b.flags fits.flags) (
        Parses-bind read_u8 _ {bs = b.numparams ∷ []} (read_u8-Parses s b.numparams) (
          Parses-bind read_u8 _ {bs = b.framesize ∷ []} (read_u8-Parses s b.framesize) (
            count (length b.bc) fits.bc_len (
              count (length_kgcs ks) few (
                count (length b.kn) fits.kn_len (
                  count 0 (omega arith) (
                    count (length b.uv) fits.uv_len (
                      count (length b.uvnames) fits.uvnames_len (
                        count b.firstline fits.firstline (
                          count b.numline fits.numline (
                            Parses-bind _ _ p (
                              Parses-bind _ _ {bs = w_all 4 b.bc}
                                (read_all-Parses 4 s' b.bc fits.bc)
                                (Parses-bind _ _ {bs = w_all 4 b.lines} lines (
                                  Parses-bind _ _ {bs = w_all 8 b.kn}
                                    (read_all-Parses 8 s' b.kn fits.kn)
                                    (Parses-bind (read_many 0 read_kstrv) tail {bs = []}
                                      (no_kstrv s')
                                      (Parses-bind _ _ {bs = w_all 2 b.uv}
                                        (read_all-Parses 2 s' b.uv fits.uv)
                                        (Parses-bind _ _ {bs = w_names b.uvnames}
                                          (read_names-Parses strs blank lossy s' b.uvnames
                                            fits.uvnames)
                                          (Parses-map _ _ p'))))))))))))))))))
    where
      tail : List (Option ℕ) → P I (Proto T C)
      tail kstrv = read_many (length b.uv) (read_le 2) >>= λ uv.
          read_many (length b.uvnames) (read_name strs blank lossy) >>= λ uvnames.
          read_kgcs strs blank lossy again (length_kgcs ks) >>= λ kgc.
          pure (proto (record (kept b source) { kstrv = kstrv; uv = uv; uvnames = uvnames }) kgc)

      lines : Parses (read_many (length b.bc) (read_le 4)) s' (w_all 4 b.lines) b.lines s'
      lines =
          subst (λ n. Parses (read_many n (read_le 4)) s' (w_all 4 b.lines) b.lines s')
            fits.lines_len (read_all-Parses 4 s' b.lines fits.lines)

      count :
          {B : Type 0} {f : ℕ → P I B} {s s' : I} {cs : List ℕ} {r : B} (v : ℕ)
          → v < 256 ^ 4
          → Parses (f v) s cs r s'
          → Parses (read_le 4 >>= f) s (w_le 4 v ++ cs) r s'
      count v h k = Parses-bind (read_le 4) _ (read_le-Parses 4 _ v h) k

  body-Trip :
      (b : Body) (ks : Kgcs T C) (f : ℕ)
      → Fits lossy b
      → IsSource get b.source
      → length_kgcs ks < 256 ^ 4
      → Trip strs blank lossy get
          (read_kgcs strs blank lossy (read_proto strs blank lossy f) (length_kgcs ks))
          (write_kgcs T C get ks)
          (λ g ks'. SameKgcs blank get g ks ks')
          (nesting_kgcs ks)
      → ProtoTrip (suc f) (proto b ks) (suc (nesting_kgcs ks))
  unfolding write_proto read_proto read_body w_counts w_arrays
  body-Trip b ks f fits src few t =
      let u = source-Trip strs blank lossy get b.source src in
      record {
        bytes = w_counts b (length_kgcs ks) (u.bytes ++ w_arrays b t.bytes);
        written = rw (u.written, t.written) refl;
        long =
            counts-long b (length_kgcs ks) _ _
              (le-append u.bytes _ (arrays-long b _ t.bytes t.long));
        back = λ s.
            let (source, s', p, g, q) = u.back s in
            let (ks', s'', p', g', q') = t.back s' in
            (
              proto (kept b source) ks',
              s'',
              body-Parses b ks _ fits few p p',
              λ y v h. g' y v (g y v h),
              same (SameSource-grows blank get g' _ _ q) q',
            );
      }

  mutual
    unfolding nesting nesting_kgc nesting_kgcs write_kgcs write_kgc read_kgcs read_kgc read_u8

    kgc-round :
        (f : ℕ) {k : Kgc T C}
        → nesting_kgc k ≤ f
        → WritableKgc lossy get k
        → Trip strs blank lossy get
            (read_kgc strs blank lossy (read_proto strs blank lossy f))
            (write_kgc T C get k)
            (λ g k'. SameKgc blank get g k k')
            (nesting_kgc k)
    kgc-round f le (writable_str h) = kgc-str strs blank lossy get _ _ h
    kgc-round f le (writable_child h) =
        (kgc-child strs blank lossy get _ _ _ (proto-round f le h)).0
    kgc-round f le (writable_ref h) = (kgc-child strs blank lossy get _ _ _ (proto-round f le h)).1
    kgc-round f le writable_table =
        kgc-blank strs blank lossy get 2 _ _ _ refl (λ s bs. refl) (λ g. lost_table)
    kgc-round f le writable_table_ref =
        kgc-blank strs blank lossy get 2 _ _ _ refl (λ s bs. refl) (λ g. lost_table_ref)
    kgc-round f le writable_cdata =
        kgc-blank strs blank lossy get 3 _ _ _ refl (λ s bs. refl) (λ g. lost_cdata)

    kgcs-round :
        (f : ℕ) {ks : Kgcs T C}
        → nesting_kgcs ks ≤ f
        → WritableKgcs lossy get ks
        → Trip strs blank lossy get
            (read_kgcs strs blank lossy (read_proto strs blank lossy f) (length_kgcs ks))
            (write_kgcs T C get ks)
            (λ g ks'. SameKgcs blank get g ks ks')
            (nesting_kgcs ks)
    kgcs-round f le writable_nil = record {
      bytes = [];
      written = refl;
      long = omega arith;
      back = λ s. (nil, s, record { run = λ rest. refl }, λ y v h. h, same_nil);
    }
    kgcs-round f le (writable_cons h h') =
        kgcs-cons strs blank lossy get _ _ _ _ _ (kgc-round f (omega arith) h)
          (kgcs-round f (omega arith) h')

    pub proto-round :
        (f : ℕ) {p : Proto T C} → nesting p ≤ f → Writable lossy get p → ProtoTrip f p (nesting p)
    proto-round zero le (writable fits src few h) = absurd (omega arith)
    proto-round (suc f) le (writable fits src few h) =
        body-Trip _ _ f fits src few (kgcs-round f (omega arith) h)
