-- ===== src/Runtime/Table/Rehash.antt =====
-- `rehash` of crates/luajit-rs/src/runtime/table.rs: the new sizes have room for every entry and for the
-- key that called for it.
use luajit_rs.Base.{
  ℕ, zero, suc, ◌+◌, ◌-◌, ◌^◌, ◌≤◌, ◌<◌, ◌≡◌, inl, inr, refl, ◌∙◌, arith, false, List, [], ◌∷◌, ltb,
  Bool-cases, length, get_or, drop, replicate, ok, ◌>>=◌, sub, Returns,
}
use luajit_rs.Runtime.Table.Values.{Values}
use luajit_rs.Runtime.Table.State.{max_asize, Table, hsize2hbits, has_hpart}
use luajit_rs.Runtime.Table.Find.{get}
use luajit_rs.Runtime.Table.Count.{
  count_values, count_array, count_nodes, count_hash, count_all, no_bins, best_asize,
}
use luajit_rs.Runtime.Table.Insert.{dropped, entries, resize, rehash, set_depth}
use luajit_rs.Runtime.Table.Nodes.{keyed}
use luajit_rs.Runtime.Table.Valid.{Valid}
use luajit_rs.Runtime.Table.SetRound.{cost}
use luajit_rs.Runtime.Table.SetAll.{costs, cost-congr}
use luajit_rs.Runtime.Table.Resized.{room}
use luajit_rs.Runtime.Table.Contents.{length-nil, dropped_of}
use luajit_rs.Runtime.Table.Resize.{Resizes, resize_lem}
use luajit_rs.Runtime.Table.Log.{pow_mono, hsize2hbits-room}
use luajit_rs.Runtime.Table.Bins.{first, asize_of, Best, best_asize-ok}
use luajit_rs.Runtime.Table.Counted.{Counts, Counts-trans, count_int-Counts, count_nodes-Counts}
use luajit_rs.Runtime.Table.CountArray.{count_array-Counts}

first-zeros : (m n : ℕ) → first m (replicate n 0) ≡ 0
first-zeros zero n = refl
first-zeros (suc m) zero = refl
first-zeros (suc m) (suc n) = omega (arith, first-zeros m n)

module _ {V : Type 0} (values : Values V) where
  open values use {is_nil, normalize_key}

  -- the entries of a table
  abbrev pub population : Table V → ℕ
  population t = count_values values t.array + length (entries values t.node)

  length-dropped : (i : ℕ) (vs : List V) → length (dropped values i vs) ≡ count_values values vs
  unfolding dropped count_values
  length-dropped i [] = refl
  length-dropped i (v ∷ vs) = ground (arith, length-dropped (i + 1) vs)

  pub costs-le : (s : Table V) (es : List (V × V)) → costs values s es ≤ length es
  costs-le s [] = omega arith
  costs-le s ((key, x) ∷ es) = ground (arith, costs-le s es)

  count_hash-nodes :
      (t : Table V) (bins : List ℕ)
      → Valid values t
      → count_hash values t bins ≡ count_nodes values t.node bins
  unfolding count_hash count_nodes has_hpart
  count_hash-nodes t bins v = elim (Bool-cases (ltb 0 t.hmask)) [
    | inl h ↦ rw h refl
    | inr h ↦ rw (h, length-nil t.node (ground (arith, v.node_len))) refl
  ]

  -- what `count_all` counts, for the array that the first `m` bins fill
  All : ℕ → Table V → V → ℕ × ℕ × List ℕ → Type 0
  All m t extra r =
      (r.0 ≡ suc (population t))
      × Counts m no_bins r.2 r.1 (suc (population t)) (
          count_values values (drop (asize_of m) t.array)
          + costs values (record t { asize = asize_of m }) (entries values t.node)
          + cost values (record t { asize = asize_of m }) extra)

  count_all-All :
      (m : ℕ) (t : Table V) (extra : V) → Valid values t → All m t extra (count_all values t extra)
  unfolding count_all All
  count_all-All m t extra v =
      let sized : Table V = record t { asize = asize_of m } in
      let (in_array, a) = count_array-Counts values m t no_bins v.array_len v.asize_le refl in
      let bins = (count_array values t no_bins).1 in
      let (h, in_nodes) = count_nodes-Counts values sized m t.node bins refl a.width in
      let e =
        count_int-Counts values sized m extra (count_nodes values t.node bins).2 refl
          (h.width ∙ a.width) in
      let q = Counts-trans (Counts-trans a h) e in
      rw (count_hash-nodes t bins v) (
        omega arith,
        record {
          width = q.width;
          sums = omega (arith, q.sums);
          firsts = omega (arith, q.firsts);
          top = q.top;
        },
      )

  -- `t'` has the entries of `t`, and room for the key.
  pub record Rehashed (t t' : Table V) (extra : V) : Type 0 where
    pub valid : Valid values t'
    pub metatable : t'.metatable ≡ t.metatable
    pub has_room : keyed is_nil t'.node + cost values t' extra ≤ length t'.node
    pub reads : (k : V) → is_nil k ≡ false → normalize_key k ≡ k → get values t' k ≡ get values t k

  Resizes-Rehashed :
      (t t' : Table V) (extra : V) (asize hbits hash : ℕ)
      → Resizes values t t' asize hbits
      → costs values (record t { asize = asize }) (dropped_of values t asize)
          + costs values (record t { asize = asize }) (entries values t.node)
          + cost values (record t { asize = asize }) extra
        ≤ hash
      → hash ≤ room hbits
      → Rehashed t t' extra
  Resizes-Rehashed t t' extra asize hbits hash z le fits = record {
    valid = z.valid;
    metatable = z.metatable;
    has_room = omega (
      arith,
      z.used,
      z.width,
      cost-congr values (record t { asize = asize }) t' extra z.new_asize,
    );
    reads = z.reads;
  }

  Best-fits :
      {bins : List ℕ} {na asize : ℕ}
      → length bins ≡ 28
      → get_or bins 27 0 ≡ 0
      → (b : Best bins na asize) → asize ≤ max_asize
  Best-fits width top b = ground (arith, pow_mono b.m 27, b.last 27)

  costs-dropped :
      (s t : Table V) (asize : ℕ)
      → costs values s (dropped_of values t asize) ≤ count_values values (drop asize t.array)
  costs-dropped s t asize =
      omega
        (arith, costs-le s (dropped_of values t asize), length-dropped asize (drop asize t.array))

  -- the entries outside the new array and the key are as many as the nodes asked for
  outside-le :
      (t : Table V) (extra : V) (r : ℕ × ℕ × List ℕ) (m na asize : ℕ)
      → All m t extra r
      → na ≡ first m r.2
      → asize ≡ asize_of m
      → costs values (record t { asize = asize }) (dropped_of values t asize)
          + costs values (record t { asize = asize }) (entries values t.node)
          + cost values (record t { asize = asize }) extra
        ≤ r.0 - na
  unfolding All
  outside-le t extra r m na asize (total, c) taken size = rw size (
      omega (
        arith,
        costs-dropped (record t { asize = asize_of m }) t (asize_of m),
        c.firsts,
        first-zeros m 28,
      ))

  -- the sizes that counts of a table give
  counted-Rehashed :
      (fuel : ℕ) (t : Table V) (extra : V) (r : ℕ × ℕ × List ℕ)
      → Valid values t
      → population t < 2 ^ 26
      → ((m : ℕ) → All m t extra r)
      → Returns
          (best_asize r.2 r.1 >>= λ s. sub r.0 s.0 >>= λ hash.
            resize values (set_depth values (suc fuel)) t s.1 (hsize2hbits hash))
          (λ t'. Rehashed t t' extra)
  unfolding All
  counted-Rehashed fuel t extra r v few counts =
      let c₀ = (counts 0).1 in
      let (s, run, (b, _)) = best_asize-ok r.2 r.1 (omega (arith, c₀.sums)) in
      let (total, c) = counts b.m in
      let zeros = first-zeros b.m 28 in
      let exact : sub r.0 s.0 ≡ ok (r.0 - s.0) = ground (arith, c.firsts, b.na_first) in
      let (fits, bits) = hsize2hbits-room (r.0 - s.0) (omega arith) in
      let small = Best-fits c.width c.top b in
      let enough : costs values (record t { asize = s.1 }) (dropped_of values t s.1)
            + costs values (record t { asize = s.1 }) (entries values t.node)
            + cost values (record t { asize = s.1 }) extra
          ≤ r.0 - s.0 =
        outside-le t extra r b.m s.0 s.1 (counts b.m) b.na_first b.asize_bins in
      let (t', resized_run, z) =
        resize_lem values fuel t s.1 (hsize2hbits (r.0 - s.0)) v small bits (omega arith) in
      (
        t',
        rw (run, ◌>>=◌, exact, resized_run) refl,
        Resizes-Rehashed t t' extra s.1 (hsize2hbits (r.0 - s.0)) (r.0 - s.0) z enough fits,
      )

  -- On a valid table of fewer than 2 ^ 26 entries `rehash` ends, with one round for each entry that it sets
  -- again: the table is valid with the same metatable, `get` returns for every key what it did, and a node
  -- is free for the key that called for it, unless the array has a slot for that key.
  pub rehash_lem :
      (fuel : ℕ) (t : Table V) (extra : V)
      → Valid values t
      → population t < 2 ^ 26
      → Returns (rehash values (set_depth values (suc fuel)) t extra) (λ t'. Rehashed t t' extra)
  unfolding rehash
  rehash_lem fuel t extra v few =
      counted-Rehashed fuel t extra (count_all values t extra) v few
        (λ m. count_all-All m t extra v)
