-- ===== src/Runtime/Table/TryNewKey.antt =====
-- `try_new_key` of crates/luajit-rs/src/runtime/table.rs: where there is room it ends with a node for
-- the key, and else it calls for a rehash.
use luajit_rs.Base.{
  ℕ, ◌+◌, ◌<◌, ◌≡◌, ◌≢◌, ◌⊎◌, inl, inr, refl, ◌∙◌, arith, true, false, Option, none, some, ltb,
  ◌==◌, length, length-set, set, Run, ok, ◌>>=◌, Returns, Bool-cases,
}
use luajit_rs.Runtime.Table.Values.{Values}
use luajit_rs.Runtime.Table.State.{
  Node, Table, empty_node, has_hpart, node_slot, node_write, hash_slot,
}
use luajit_rs.Runtime.Table.Insert.{
  NewKey, slot, rehashed, free_node, find_pred, move_away, chain_behind, try_new_key,
}
use luajit_rs.Runtime.Table.Nodes.{at-get_or, keyed, keyed-le, keyed-full}
use luajit_rs.Runtime.Table.Valid.{
  node_at, slot_of, Keyed, Outside, Valid, slot-has_hpart, slot-lt, slot-size,
}
use luajit_rs.Runtime.Table.Search.{FreeBelow, free_node_lem, find_pred_lem, find_pred_congr}
use luajit_rs.Runtime.Table.NewKey.{
  Inserted, with_nodes, pred-lt, main_nodes, main_case, behind_nodes, behind_case, away_nodes,
  away_case,
}

module _ {V : Type 0} (values : Values V) where
  open values use {nil, is_nil, normalize_key, is_nil_iff}

  node_slot-ok :
      (t : Table V) (i : ℕ)
      → has_hpart values t ≡ true
      → i < length t.node
      → node_slot values t i ≡ ok (node_at values t.node i)
  unfolding node_slot
  node_slot-ok t i h lt = rw h (at-get_or t.node i (empty_node values) lt)

  pub node_write-ok :
      (t : Table V) (i : ℕ) (nd : Node V)
      → has_hpart values t ≡ true
      → i < length t.node
      → node_write values t i nd ≡ ok (record t { node = set t.node i nd })
  unfolding node_write
  node_write-ok t i nd h lt = rw h (ground arith)

  -- The cache of missing metamethods is no part of the contents.
  pub nomm-Valid :
      (t : Table V) (cache : ℕ) → Valid values t → Valid values (record t { nomm = cache })
  nomm-Valid t cache v = record {
    array_len = v.array_len;
    asize_le = v.asize_le;
    hbits = v.hbits;
    hbits_le = v.hbits_le;
    mask = v.mask;
    node_len = v.node_len;
    chains = v.chains;
    normal = v.normal;
    outside = v.outside;
    freetop_le = v.freetop_le;
    full_above = v.full_above;
  }

  -- the answer of `try_new_key` for a table with room
  abbrev pub Slotted : Table V → V → Run (NewKey V) → Type 0
  Slotted t key r = (n : ℕ) × (t' : Table V) × (r ≡ ok (slot n t')) × Inserted values t t' key n

  module _ (t : Table V) (v : Valid values t) (hpart : has_hpart values t ≡ true) (key : V)
      (keyed_key : is_nil key ≡ false) (normal_key : normalize_key key ≡ key)
      (out : Outside values t.asize key)
      (absent : (i : ℕ) → (node_at values t.node i).key ≢ key) where
    open v use {chains, freetop_le, full_above}

    abbrev n : ℕ
    n = slot_of values t.hmask key

    abbrev nd : Node V
    nd = node_at values t.node n

    n-lt : n < length t.node
    n-lt = slot-has_hpart values t v hpart n (slot-lt values t v key)

    module _ (free : ℕ) (lt : free < t.freetop)
        (fresh : is_nil (node_at values t.node free).key ≡ true)
        (full : (i : ℕ) → free < i → i < t.freetop → Keyed values (node_at values t.node) i)
        (taken : Keyed values (node_at values t.node) n) where
      abbrev t' : Table V
      t' = record t { nomm = 0; freetop = free }

      chain_behind-run :
          slot_of values t.hmask nd.key ≡ n → Slotted t key (chain_behind values t' key n nd free)
      unfolding chain_behind has_hpart behind_nodes
      chain_behind-run same =
          let x : Node V = record (node_at values t.node free) { next = nd.next; key = key } in
          let y : Node V = record nd { next = some free } in
          (
            free,
            with_nodes values t
                (behind_nodes values t v hpart key keyed_key normal_key out absent free lt fresh
                  full taken)
                free,
            rw
                (
                  node_slot-ok t' free hpart (omega arith),
                  ◌>>=◌,
                  normal_key,
                  node_write-ok t' free x hpart (omega arith),
                  node_write-ok (record t' { node = set t.node free x }) n y hpart
                      (rw (length-set t.node free x) n-lt),
                )
                refl,
            behind_case values t v hpart key keyed_key normal_key out absent free lt fresh full
                taken same,
          )

      abbrev collide : ℕ
      collide = slot_of values t.hmask nd.key

      pred_of :
          collide ≢ n
          → Returns
              (find_pred values (t'.hmask + 1) t' collide n)
              (λ p. (node_at values t.node p).next ≡ some n)
      pred_of other = rw (find_pred_congr values t (t.hmask + 1) free collide n) (
          find_pred_lem values t v hpart n (t.hmask + 1) collide
            (slot-has_hpart values t v hpart collide (slot-lt values t v nd.key))
            (omega
              (arith, chains.rank_le collide, keyed-le is_nil t.node, slot-size values t v hpart))
            other (chains.reach n taken))

      move_away-run : collide ≢ n → Slotted t key (move_away values t' key n nd free collide)
      unfolding move_away has_hpart away_nodes
      move_away-run other =
          let (pred, run, before) = pred_of other in
          let near =
            pred-lt values t v hpart key keyed_key normal_key out absent free lt fresh full taken
              pred before in
          let p : Node V = record (node_at values t.node pred) { next = some free } in
          let y : Node V = record { val = nil; key = key; next = none } in
          let ns = set t.node pred p in
          let width = length-set t.node pred p in
          (
            n,
            with_nodes values t
                (away_nodes values t v hpart key keyed_key normal_key out absent free lt fresh full
                  taken pred before)
                free,
            rw
                (
                  run,
                  ◌>>=◌,
                  node_slot-ok t' pred hpart near,
                  normal_key,
                  node_write-ok t' pred p hpart near,
                  node_write-ok (record t' { node = ns }) free nd hpart (rw width (omega arith)),
                  node_write-ok (record t' { node = set ns free nd }) n y hpart
                      (rw (length-set ns free nd, width) n-lt),
                )
                refl,
            away_case values t v hpart key keyed_key normal_key out absent free lt fresh full taken
                pred before other,
          )

    abbrev t₀ : Table V
    t₀ = record t { nomm = 0 }

    hpart₀ : has_hpart values t₀ ≡ true
    unfolding has_hpart
    hpart₀ = hpart

    slot₀ : (k : V) → hash_slot values t₀ k ≡ slot_of values t.hmask k
    unfolding hash_slot
    slot₀ k = refl

    valid₀ : Valid values t₀
    valid₀ = nomm-Valid t 0 v

    -- On a valid table with a hash part, for a key that is not nil, normalized, without a slot in the array
    -- and in no node, `try_new_key` ends with a node for it in a valid table, where every other key has the
    -- value that it had; or else it calls `rehash`, and then every node has a key.
    pub try_new_key_lem :
        (rehash : Table V → V → Run (Table V))
        → Slotted t key (try_new_key values rehash t key)
          ⊎ ((try_new_key values rehash t key
                ≡ (rehash (record t { nomm = 0 }) key >>= λ t₁. ok (rehashed t₁)))
              × (keyed is_nil t.node ≡ length t.node))
    unfolding try_new_key main_nodes
    try_new_key_lem rehash =
        let read = node_slot-ok t₀ n hpart₀ n-lt in
        elim (Bool-cases (is_nil nd.val)) [
          | inl dead ↦
              let x : Node V = record nd { key = key } in
              inl (
                n,
                with_nodes values t
                    (main_nodes values t v hpart key keyed_key normal_key out absent) t.freetop,
                rw
                    (
                      slot₀ key,
                      read,
                      ◌>>=◌,
                      dead,
                      normal_key,
                      node_write-ok t₀ n x hpart₀ n-lt,
                      hpart₀,
                    )
                    refl,
                main_case values t v hpart key keyed_key normal_key out absent dead,
              )
          | inr live ↦
              let (found, run, below) =
                free_node_lem values t₀ valid₀ hpart₀ t.freetop freetop_le in
              let taken : Keyed values (node_at values t.node) n = ground (arith, chains.blank n) in
              settle live taken found run below
        ]
      where
        settle :
            is_nil nd.val ≡ false
            → Keyed values (node_at values t.node) n
            → (found : Option ℕ) → free_node values t₀ t.freetop ≡ ok found
            → FreeBelow values (node_at values t.node) t.freetop found
            → Slotted t key (try_new_key values rehash t key)
              ⊎ ((try_new_key values rehash t key
                    ≡ (rehash (record t { nomm = 0 }) key >>= λ t₁. ok (rehashed t₁)))
                  × (keyed is_nil t.node ≡ length t.node))
        settle live taken none run below =
            let read = node_slot-ok t₀ n hpart₀ n-lt in
            inr (
              rw (slot₀ key, read, ◌>>=◌, live, run, hpart₀) refl,
              keyed-full is_nil t.node (empty_node values) (λ i lt.
                  elim (Bool-cases (ltb i t.freetop)) [
                    | inl e ↦ below i (ground arith)
                    | inr e ↦ full_above i (ground arith) lt
                  ]),
            )
        settle live taken (some free) run (lt, fresh, full) =
            inl (elim (Bool-cases (slot_of values t.hmask nd.key == n)) [
              | inl e ↦
                  let read = node_slot-ok t₀ n hpart₀ n-lt in
                  let (m, t₁, r, ins) = chain_behind-run free lt fresh full taken (ground arith) in
                  (
                    m,
                    t₁,
                    rw (slot₀ key, read, ◌>>=◌, live, run, slot₀ nd.key, e, hpart₀) refl ∙ r,
                    ins,
                  )
              | inr e ↦
                  let read = node_slot-ok t₀ n hpart₀ n-lt in
                  let (m, t₁, r, ins) =
                    move_away-run free lt fresh full taken (λ q. ground arith) in
                  (
                    m,
                    t₁,
                    rw (slot₀ key, read, ◌>>=◌, live, run, slot₀ nd.key, e, hpart₀) refl ∙ r,
                    ins,
                  )
            ])
