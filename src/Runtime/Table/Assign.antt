-- ===== src/Runtime/Table/Assign.antt =====
-- Writes of a value in crates/luajit-rs/src/runtime/table.rs to a slot of the array or to the node of
-- a key, as lookups see them.
use luajit_rs.Base.{
  ℕ, ◌+◌, ◌-◌, ◌^◌, ◌≤◌, ◌<◌, ◌≡◌, ◌≢◌, inl, inr, refl, sym, ◌∙◌, ap, subst, arith, true, false,
  Option, none, some, List, ltb, ◌==◌, if◌then◌else◌, length, length-set, get_elem?-set_self,
  get_elem?-set_ne, set, ok, ◌>>=◌, unwrap, at, Returns, lt→ltb, Option-cases,
}
use luajit_rs.Base.Int.{ℤ, pos, negsuc}
use luajit_rs.Runtime.Table.Values.{Values}
use luajit_rs.Runtime.Table.State.{
  max_asize, Node, Table, empty_node, has_hpart, array_write, array_key, array_slot,
}
use luajit_rs.Runtime.Table.Find.{get}
use luajit_rs.Runtime.Table.Insert.{val_write}
use luajit_rs.Runtime.Table.Chains.{Chains, Chains-val, write}
use luajit_rs.Runtime.Table.Nodes.{get_or-set, keyed, keyed-set_same, node_at-set}
use luajit_rs.Runtime.Table.Valid.{
  node_at, slot_of, Keyed, Outside, Valid, Holds, get-nodes, get-Holds, Keyed-lt, node_slot-at,
}
use luajit_rs.Runtime.Table.TryNewKey.{node_write-ok}

module _ {V : Type 0} (values : Values V) where
  open values use {nil, is_nil, number, as_int32_exact, normalize_key, number-int, int-number}

  pub array_key-number :
      (k : V) (n : ℕ) → array_key values k ≡ some n → normalize_key k ≡ k → number (pos n) ≡ k
  unfolding array_key
  array_key-number k n h normal = settle (as_int32_exact k) refl h
    where
      settle :
          (o : Option ℤ)
          → as_int32_exact k ≡ o
          → elim o [
            | none ↦ none
            | some i ↦ elim i [
              | pos m ↦ if ltb m (2 ^ 27 + 1) then some m else none
              | negsuc m ↦ none
            ]
          ]
            ≡ some n
          → number (pos n) ≡ k
      settle none e h = cc
      settle (some (pos m)) e h = number-int k (pos n) (ground arith) normal
      settle (some (negsuc m)) e h = cc

  pub number-array_key : (n : ℕ) → n < max_asize → array_key values (number (pos n)) ≡ some n
  unfolding array_key
  number-array_key n h = rw (array_key, int-number n (omega arith)) (ground arith)

  -- Two normalized keys with one slot of the array are the same.
  pub array_key_unique :
      (k l : V) (n : ℕ)
      → array_key values k ≡ some n
      → array_key values l ≡ some n
      → normalize_key k ≡ k
      → normalize_key l ≡ l
      → k ≡ l
  array_key_unique k l n hk hl nk nl = sym (array_key-number k n hk nk) ∙ array_key-number l n hl nl

  pub array_slot-some :
      (t : Table V) (k : V) (i : ℕ)
      → array_slot values t k ≡ some i
      → (array_key values k ≡ some i) × (i < t.asize)
  unfolding array_slot
  array_slot-some t k i h = ground arith

  pub array_slot-none :
      (t : Table V) (k : V) → array_slot values t k ≡ none → Outside values t.asize k
  unfolding array_slot
  array_slot-none t k h n e = ground arith

  pub array_slot-congr :
      (t t' : Table V) (k : V) → t'.asize ≡ t.asize → array_slot values t' k ≡ array_slot values t k
  unfolding array_slot
  array_slot-congr t t' k e = rw e refl

  pub get-array :
      (t : Table V) (k : V) (i : ℕ) → array_slot values t k ≡ some i → get values t k ≡ at t.array i
  unfolding get
  get-array t k i h = rw (get, h) refl

  -- Lookups agree where the array parts and the contents of the nodes do.
  pub get-congr :
      (t t' : Table V) (k : V)
      → Valid values t
      → Valid values t'
      → is_nil k ≡ false
      → t'.asize ≡ t.asize
      → ((i : ℕ) → array_slot values t k ≡ some i → at t'.array i ≡ at t.array i)
      → ((w : V)
          → Holds values (node_at values t.node) k w
          → Holds values (node_at values t'.node) k w)
      → get values t' k ≡ get values t k
  get-congr t t' k v v' nk size same moved = elim (Option-cases (array_slot values t k)) [
    | inl out ↦
        let (w, run, held) = get-nodes values t v k nk out in
        get-Holds values t' v' k w nk (array_slot-congr t t' k size ∙ out) (moved w held) ∙ sym run
    | inr (i, at_i) ↦
        get-array t' k i (array_slot-congr t t' k size ∙ at_i)
        ∙ same i at_i
        ∙ sym (get-array t k i at_i)
  ]

  -- `t'` is `t` with the value `x` at the key, as lookups of normalized keys see it.
  pub record Updated (t t' : Table V) (key x : V) (new : ℕ) : Type 0 where
    pub valid : Valid values t'
    pub asize : t'.asize ≡ t.asize
    pub hmask : t'.hmask ≡ t.hmask
    pub metatable : t'.metatable ≡ t.metatable
    pub used : keyed is_nil t'.node ≤ keyed is_nil t.node + new
    pub at_key : get values t' key ≡ ok x
    pub others :
        (k : V)
        → is_nil k ≡ false
        → normalize_key k ≡ k
        → k ≢ key
        → get values t' k ≡ get values t k

  pub Updated-weaken :
      {t t' : Table V} {key x : V} {new more : ℕ}
      → Updated t t' key x new
      → new ≤ more
      → Updated t t' key x more
  Updated-weaken u le = record {
    valid = u.valid;
    asize = u.asize;
    hmask = u.hmask;
    metatable = u.metatable;
    used = omega (arith, u.used);
    at_key = u.at_key;
    others = u.others;
  }

  module _ (t : Table V) (v : Valid values t) where
    array-Valid : (i : ℕ) (x : V) → Valid values (record t { array = set t.array i x })
    array-Valid i x = record {
      array_len = length-set t.array i x ∙ v.array_len;
      asize_le = v.asize_le;
      hbits = v.hbits;
      hbits_le = v.hbits_le;
      mask = v.mask;
      node_len = v.node_len;
      chains = v.chains;
      normal = v.normal;
      outside = v.outside;
      freetop_le = v.freetop_le;
      full_above = v.full_above;
    }

    pub array_write-lem :
        (key x : V) (i : ℕ)
        → normalize_key key ≡ key
        → array_slot values t key ≡ some i
        → Returns (array_write values t i x) (λ t'. Updated t t' key x 0)
    unfolding array_write
    array_write-lem key x i normal_key h =
        let (ki, lt) = array_slot-some t key i h in
        let inside : i < length t.array = omega (arith, v.array_len) in
        let t' : Table V = record t { array = set t.array i x } in
        rw (lt→ltb i (length t.array) inside) (
          t',
          refl,
          record {
            valid = array-Valid i x;
            asize = refl;
            hmask = refl;
            metatable = refl;
            used = omega arith;
            at_key =
                get-array t' key i (array_slot-congr t t' key refl ∙ h)
                ∙ ap unwrap (get_elem?-set_self t.array i x inside);
            others = λ k nk normal_k ne.
                get-congr t t' k v (array-Valid i x) nk refl
                  (λ j e. ap unwrap (
                    get_elem?-set_ne t.array i j x (λ q. ne (
                      array_key_unique k key j (array_slot-some t k j e).0
                        (subst (λ (m : ℕ). array_key values key ≡ some m) q ki) normal_k
                        normal_key))))
                  (λ w held. held);
          },
        )

    module _ (n : ℕ) (x : V) (taken : Keyed values (node_at values t.node) n) where
      abbrev valued : List (Node V)
      valued = set t.node n (record (node_at values t.node n) { val = x })

      inside : n < length t.node
      inside = Keyed-lt values t v n taken

      nodes-valued :
          node_at values valued
          ≡ write (node_at values t.node) n (record (node_at values t.node n) { val = x })
      nodes-valued =
          node_at-set t.node n (record (node_at values t.node n) { val = x }) (empty_node values)
            inside

      at-valued :
          (i : ℕ)
          → node_at values valued i ≡ (
              if n == i
              then record (node_at values t.node n) { val = x }
              else node_at values t.node i)
      at-valued i =
          get_or-set t.node n i (record (node_at values t.node n) { val = x }) (empty_node values)
            inside

      val-valued :
          (i : ℕ)
          → (node_at values valued i).val ≡ (if n == i then x else (node_at values t.node i).val)
      val-valued i = ap (λ (nd : Node V). nd.val) (at-valued i) ∙ ground arith

      key-valued : (i : ℕ) → (node_at values valued i).key ≡ (node_at values t.node i).key
      key-valued i = ap (λ (nd : Node V). nd.key) (at-valued i) ∙ ground arith

      keyed-valued : keyed is_nil valued ≡ keyed is_nil t.node
      keyed-valued =
          keyed-set_same is_nil t.node n (record (node_at values t.node n) { val = x })
            (empty_node values) inside taken taken

      width-valued : length valued ≡ length t.node
      width-valued = length-set t.node n (record (node_at values t.node n) { val = x })

      val-Valid : Valid values (record t { node = valued })
      val-Valid = record {
        array_len = v.array_len;
        asize_le = v.asize_le;
        hbits = v.hbits;
        hbits_le = v.hbits_le;
        mask = v.mask;
        node_len = width-valued ∙ v.node_len;
        chains =
            subst (λ b. Chains is_nil (slot_of values t.hmask) (b - 1) (node_at values valued))
              (sym keyed-valued)
              (subst (λ g. Chains is_nil (slot_of values t.hmask) (keyed is_nil t.node - 1) g)
                (sym nodes-valued) (Chains-val v.chains n x taken));
        normal = λ i h.
            subst (λ k. normalize_key k ≡ k) (sym (key-valued i))
              (v.normal i (subst (λ k. is_nil k ≡ false) (key-valued i) h));
        outside = λ i h.
            subst (λ k. Outside values t.asize k) (sym (key-valued i))
              (v.outside i (subst (λ k. is_nil k ≡ false) (key-valued i) h));
        freetop_le = rw width-valued v.freetop_le;
        full_above = λ i le lt.
            subst (λ k. is_nil k ≡ false) (sym (key-valued i))
              (v.full_above i le (omega (arith, width-valued)));
      }

      val-Holds :
          (k w : V)
          → k ≢ (node_at values t.node n).key
          → Holds values (node_at values t.node) k w
          → Holds values (node_at values valued) k w
      val-Holds k w ne (inl (i, ki, vi)) = inl (i, key-valued i ∙ ki, val-valued i ∙ ground arith)
      val-Holds k w ne (inr (apart_k, e)) = inr (λ j e'. apart_k j (sym (key-valued j) ∙ e'), e)

      val-Holds_self : Holds values (node_at values valued) (node_at values t.node n).key x
      val-Holds_self = inl (n, key-valued n, val-valued n ∙ ground arith)

      pub val_write-run :
          has_hpart values t ≡ true → val_write values t n x ≡ ok (record t { node = valued })
      unfolding val_write
      val_write-run h =
          rw
            (
              node_slot-at values t v n h inside,
              ◌>>=◌,
              node_write-ok values t n (record (node_at values t.node n) { val = x }) h inside,
            )
            refl

      -- the value of a key that has a node
      pub val_write-Updated :
          (key : V)
          → (node_at values t.node n).key ≡ key
          → array_slot values t key ≡ none
          → Updated t (record t { node = valued }) key x 0
      val_write-Updated key e out = record {
        valid = val-Valid;
        asize = refl;
        hmask = refl;
        metatable = refl;
        used = omega (arith, keyed-valued);
        at_key =
            get-Holds values (record t { node = valued }) val-Valid key x
              (subst (λ k. is_nil k ≡ false) e taken)
              (array_slot-congr t (record t { node = valued }) key refl ∙ out)
              (subst (λ k. Holds values (node_at values valued) k x) e val-Holds_self);
        others = λ k nk normal_k ne.
            get-congr t (record t { node = valued }) k v val-Valid nk refl (λ j h. refl)
              (λ w. val-Holds k w (λ q. ne (q ∙ e)));
      }
