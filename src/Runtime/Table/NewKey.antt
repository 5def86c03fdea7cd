-- ===== src/Runtime/Table/NewKey.antt =====
-- The node vector of crates/luajit-rs/src/runtime/table.rs with a new key keeps its invariant.
use native.Mathlib.Decide.{ℕ_discrete}
use luajit_rs.Base.{
  ℕ, suc, ◌-◌, ◌≤◌, ◌<◌, ◌≡◌, ◌≢◌, inl, inr, refl, sym, ◌∙◌, ap, subst, arith, true, false, none,
  some, List, length, length-set, set, ok,
}
use luajit_rs.Runtime.Table.Values.{Values}
use luajit_rs.Runtime.Table.State.{Node, Table, empty_node, has_hpart, node_write}
use luajit_rs.Runtime.Table.Chains.{Chains, Chains-weaken, write, at_main, behind, away}
use luajit_rs.Runtime.Table.Brent.{take_main, chain_behind_lem, move_away_lem}
use luajit_rs.Runtime.Table.Nodes.{
  get_or-set, keyed, keyed-set, keyed-set₂, keyed-set_same, keyed-pos, node_at-set, node_at-set₂,
}
use luajit_rs.Runtime.Table.Valid.{
  node_at, slot_of, Keyed, Outside, Valid, slot-has_hpart, slot-lt, Keyed-lt,
}
use luajit_rs.Runtime.Table.Placed.{Placed, at_main-Placed, behind-Placed, away-Placed}

module _ {V : Type 0} (values : Values V) where
  open values use {nil, is_nil, normalize_key, is_nil_iff}

  -- `t'` is `t` with room made for the key at the node `n`.
  pub record Inserted (t t' : Table V) (key : V) (n : ℕ) : Type 0 where
    pub valid : Valid values t'
    pub array : t'.array ≡ t.array
    pub asize : t'.asize ≡ t.asize
    pub hmask : t'.hmask ≡ t.hmask
    pub metatable : t'.metatable ≡ t.metatable
    pub width : length t'.node ≡ length t.node
    pub placed : Placed values (node_at values t.node) (node_at values t'.node) key n
    pub used : keyed is_nil t'.node ≤ suc (keyed is_nil t.node)

  abbrev pub with_nodes : Table V → List (Node V) → ℕ → Table V
  with_nodes t nds free = record t { nomm = 0; freetop = free; node = nds }

  module _ (t : Table V) (v : Valid values t) (key : V) (normal_key : normalize_key key ≡ key)
      (out : Outside values t.asize key) where
    open v use {array_len, asize_le, hbits, hbits_le, mask, node_len, normal, outside}

    -- the new node vector keeps the invariant
    with_nodes-Inserted :
        (nds : List (Node V)) (free n : ℕ)
        → length nds ≡ length t.node
        → Chains is_nil (slot_of values t.hmask) (keyed is_nil nds - 1) (node_at values nds)
        → Placed values (node_at values t.node) (node_at values nds) key n
        → keyed is_nil nds ≤ suc (keyed is_nil t.node)
        → free ≤ length t.node
        → ((i : ℕ) → free ≤ i → i < length t.node → Keyed values (node_at values nds) i)
        → Inserted t (with_nodes t nds free) key n
    with_nodes-Inserted nds free n width chains placed used free_le full = record {
      valid = record {
        array_len = array_len;
        asize_le = asize_le;
        hbits = hbits;
        hbits_le = hbits_le;
        mask = mask;
        node_len = width ∙ node_len;
        chains = chains;
        normal = λ i h. elim (placed.comes i h) [
          | inl e ↦ subst (λ k. normalize_key k ≡ k) (sym e) normal_key
          | inr (j, e) ↦
              subst (λ k. normalize_key k ≡ k) (sym e)
                (normal j (subst (λ k. is_nil k ≡ false) e h))
        ];
        outside = λ i h. elim (placed.comes i h) [
          | inl e ↦ subst (λ k. Outside values t.asize k) (sym e) out
          | inr (j, e) ↦
              subst (λ k. Outside values t.asize k) (sym e)
                (outside j (subst (λ k. is_nil k ≡ false) e h))
        ];
        freetop_le = rw width free_le;
        full_above = λ i le lt. full i le (omega arith);
      };
      array = refl;
      asize = refl;
      hmask = refl;
      metatable = refl;
      width = width;
      placed = placed;
      used = used;
    }

    -- the same for nodes that are given as a function
    rebuilt-Inserted :
        (nds : List (Node V)) (g : ℕ → Node V) (bound free n : ℕ)
        → node_at values nds ≡ g
        → length nds ≡ length t.node
        → Chains is_nil (slot_of values t.hmask) bound g
        → bound ≤ keyed is_nil nds - 1
        → Placed values (node_at values t.node) g key n
        → keyed is_nil nds ≤ suc (keyed is_nil t.node)
        → free ≤ length t.node
        → ((i : ℕ) → free ≤ i → i < length t.node → Keyed values g i)
        → Inserted t (with_nodes t nds free) key n
    rebuilt-Inserted nds g bound free n p width chains le placed used free_le full =
        with_nodes-Inserted nds free n width
          (subst (λ h. Chains is_nil (slot_of values t.hmask) (keyed is_nil nds - 1) h) (sym p)
            (Chains-weaken chains le))
          (subst (λ h. Placed values (node_at values t.node) h key n) (sym p) placed) used free_le
          (subst (λ (h : ℕ → Node V). (i : ℕ) → free ≤ i → i < length t.node → Keyed values h i)
            (sym p) full)

  node_write-ok :
      (t : Table V) (i : ℕ) (nd : Node V)
      → has_hpart values t ≡ true
      → i < length t.node
      → node_write values t i nd ≡ ok (record t { node = set t.node i nd })
  unfolding node_write
  node_write-ok t i nd h lt = rw h (ground arith)

  module _ (t : Table V) (v : Valid values t) (hpart : has_hpart values t ≡ true) (key : V)
      (keyed_key : is_nil key ≡ false) (normal_key : normalize_key key ≡ key)
      (out : Outside values t.asize key)
      (absent : (i : ℕ) → (node_at values t.node i).key ≢ key) where
    open v use {chains, freetop_le, full_above}

    abbrev pub start : ℕ
    start = slot_of values t.hmask key

    pub start-lt : start < length t.node
    start-lt = slot-has_hpart values t v hpart start (slot-lt values t v key)

    unfoldable pub main_nodes : List (Node V)
    main_nodes = set t.node start (record (node_at values t.node start) { key = key })

    pub main_case :
        is_nil (node_at values t.node start).val ≡ true
        → Inserted t (with_nodes t main_nodes t.freetop) key start
    unfolding main_nodes
    main_case dead =
        let g = node_at values t.node in
        let x : Node V = record (g start) { key = key } in
        let count = keyed-set is_nil t.node start x (empty_node values) start-lt in
        let placed =
          at_main-Placed values (slot_of values t.hmask) (keyed is_nil t.node - 1) g chains key
            keyed_key absent dead in
        rebuilt-Inserted t v key normal_key out main_nodes (at_main g start key)
          (keyed is_nil t.node - 1) t.freetop start
          (node_at-set t.node start x (empty_node values) start-lt) (length-set t.node start x)
          (take_main chains key keyed_key absent) (ground arith) placed (ground arith) freetop_le
          (λ i le lt. placed.stays i (full_above i le lt))

    module _ (free : ℕ) (lt : free < t.freetop)
        (fresh : is_nil (node_at values t.node free).key ≡ true)
        (full : (i : ℕ) → free < i → i < t.freetop → Keyed values (node_at values t.node) i)
        (taken : Keyed values (node_at values t.node) start) where
      pub free-lt : free < length t.node
      free-lt = omega arith

      full_from :
          (i : ℕ) → free ≤ i → i < length t.node → free ≢ i → Keyed values (node_at values t.node) i
      full_from i le up ne = ground (arith, full i, full_above i)

      some_keyed : 0 < keyed is_nil t.node
      some_keyed = keyed-pos is_nil t.node start (empty_node values) start-lt taken

      -- the free node is taken by then
      filled :
          {g : ℕ → Node V} {n : ℕ}
          → Placed values (node_at values t.node) g key n
          → Keyed values g free
          → (i : ℕ) → free ≤ i
          → i < length t.node
          → Keyed values g i
      filled {g = g} placed at_free i le up = elim (ℕ_discrete free i) [
        | yes e ↦ subst (λ (j : ℕ). Keyed values g j) e at_free
        | no e ↦ placed.stays i (full_from i le up e)
      ]

      unfoldable pub behind_nodes : List (Node V)
      behind_nodes =
          let g = node_at values t.node in
          set (set t.node free (record (g free) { next = (g start).next; key = key })) start
            (record (g start) { next = some free })

      pub behind_case :
          slot_of values t.hmask (node_at values t.node start).key ≡ start
          → Inserted t (with_nodes t behind_nodes free) key free
      unfolding behind_nodes
      behind_case same =
          let g = node_at values t.node in
          let none_yet = empty_node values in
          let x : Node V = record (g free) { next = (g start).next; key = key } in
          let y : Node V = record (g start) { next = some free } in
          let c = chain_behind_lem chains key keyed_key absent free fresh taken same in
          let placed =
            behind-Placed values (slot_of values t.hmask) (keyed is_nil t.node - 1) g chains key
              keyed_key absent free fresh taken in
          let count =
            keyed-set₂ is_nil t.node free start x y none_yet free-lt start-lt fresh taken keyed_key
              taken in
          rebuilt-Inserted t v key normal_key out behind_nodes (behind g start key free)
            (suc (keyed is_nil t.node - 1)) free free
            (node_at-set₂ t.node free start x y none_yet free-lt start-lt)
            (length-set (set t.node free x) start y ∙ length-set t.node free x) c
            (omega (arith, some_keyed)) placed (omega arith) (omega arith)
            (filled placed (ground arith))

      module _ (pred : ℕ) (before : (node_at values t.node pred).next ≡ some start) where
        pub pred-lt : pred < length t.node
        pred-lt = ground (arith, chains.blank pred, Keyed-lt values t v pred)

        unfoldable pub away_nodes : List (Node V)
        away_nodes =
            let g = node_at values t.node in
            set (set (set t.node pred (record (g pred) { next = some free })) free (g start)) start
              (record { val = nil; key = key; next = none })

        pub away_case :
            slot_of values t.hmask (node_at values t.node start).key ≢ start
            → Inserted t (with_nodes t away_nodes free) key start
        unfolding away_nodes
        away_case other =
            let g = node_at values t.node in
            let none_yet = empty_node values in
            let p : Node V = record (g pred) { next = some free } in
            let y : Node V = record { val = nil; key = key; next = none } in
            let c =
              move_away_lem chains key keyed_key absent free fresh taken nil pred before other in
            let placed =
              away-Placed values (slot_of values t.hmask) (keyed is_nil t.node - 1) g chains key
                keyed_key absent free fresh taken pred before in
            let linked = set t.node pred p in
            let width = length-set t.node pred p in
            let keyed_pred : is_nil p.key ≡ false = ground (arith, chains.blank pred) in
            let reads = get_or-set t.node pred free p none_yet pred-lt in
            let reads' = get_or-set t.node pred start p none_yet pred-lt in
            let same = keyed-set_same is_nil t.node pred p none_yet pred-lt keyed_pred keyed_pred in
            let count =
              keyed-set₂ is_nil linked free start (g start) y none_yet (rw width free-lt)
                (rw width start-lt) (ground (arith, reads)) (ground (arith, reads')) taken
                keyed_key in
            rebuilt-Inserted t v key normal_key out away_nodes (away g start key free nil pred)
              (suc (keyed is_nil t.node - 1)) free start
              (node_at-set₂ linked free start (g start) y none_yet (rw width free-lt)
                  (rw width start-lt)
                ∙ ap (λ h. write (write h free (g start)) start y)
                    (node_at-set t.node pred p none_yet pred-lt))
              (length-set (set linked free (g start)) start y
                ∙ length-set linked free (g start)
                ∙ width)
              c (omega (arith, some_keyed)) placed (omega arith) (omega arith)
              (filled placed (ground arith))
