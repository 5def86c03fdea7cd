-- ===== src/Runtime/Table/Valid.antt =====
-- What holds of a table of crates/luajit-rs/src/runtime/table.rs between operations, and what its
-- lookups find.
use native.Mathlib.Nat.{one-le-pow}
use luajit_rs.Base.{
  ℕ, zero, suc, ◌+◌, ◌-◌, ◌^◌, ◌≤◌, ◌<◌, ◌≡◌, ◌≢◌, ◌⊎◌, inl, inr, refl, sym, ◌∙◌, ap, subst, arith,
  true, false, Option, none, some, List, ltb, if◌then◌else◌, length, get_or, bit_and, bit_and-mask,
  ok, ◌>>=◌, Returns, Option-cases, Bool-cases,
}
use luajit_rs.Runtime.Table.Values.{Values}
use luajit_rs.Runtime.Table.State.{
  max_asize, Node, Table, empty_node, has_hpart, node_slot, hash_slot, array_key, array_slot,
}
use luajit_rs.Runtime.Table.Find.{find_node, lookup, get_str, get}
use luajit_rs.Runtime.Table.Chains.{Reach, Reach-last, Reach-next, Chains}
use luajit_rs.Runtime.Table.Nodes.{at-get_or, get_or-ge, keyed, keyed-le}

-- a hash value below a mask of low bits
pub mask-lt : (h hmask k : ℕ) → suc hmask ≡ 2 ^ k → bit_and h hmask < suc hmask
mask-lt h hmask k e =
    let m : hmask ≡ 2 ^ k - 1 = omega arith in
    rw m (omega (arith, bit_and-mask k h, one-le-pow k 2))

module _ {V : Type 0} (values : Values V) where
  open values use {nil, equal, is_nil, hash_key, normalize_key, equal_iff, is_nil_iff}

  abbrev pub node_at : List (Node V) → ℕ → Node V
  node_at nds i = get_or nds i (empty_node values)

  abbrev pub slot_of : ℕ → V → ℕ
  slot_of hmask k = bit_and (hash_key k) hmask

  abbrev pub Keyed : (ℕ → Node V) → ℕ → Type 0
  Keyed g i = is_nil (g i).key ≡ false

  -- a key that the array part of this size has no slot for
  abbrev pub Outside : ℕ → V → Type 0
  Outside asize k = (n : ℕ) → array_key values k ≡ some n → asize ≤ n

  pub record Valid (t : Table V) : Type 0 where
    pub array_len : length t.array ≡ t.asize
    pub asize_le : t.asize ≤ max_asize
    pub hbits : ℕ
    pub hbits_le : hbits ≤ 26
    pub mask : suc t.hmask ≡ 2 ^ hbits
    pub node_len : length t.node ≡ (if ltb 0 t.hmask then suc t.hmask else 0)
    pub chains : Chains is_nil (slot_of t.hmask) (keyed is_nil t.node - 1) (node_at t.node)
    pub normal :
        (i : ℕ)
        → Keyed (node_at t.node) i
        → normalize_key (node_at t.node i).key ≡ (node_at t.node i).key
    pub outside : (i : ℕ) → Keyed (node_at t.node) i → Outside t.asize (node_at t.node i).key
    pub freetop_le : t.freetop ≤ length t.node
    pub full_above : (i : ℕ) → t.freetop ≤ i → i < length t.node → Keyed (node_at t.node) i

  -- The nodes hold the value `v` for the key, where a missing key has the value nil.
  abbrev pub Holds : (ℕ → Node V) → V → V → Type 0
  Holds g k v =
      ((i : ℕ) × ((g i).key ≡ k) × ((g i).val ≡ v)) ⊎ (((i : ℕ) → (g i).key ≢ k) × (v ≡ nil))

  -- What a search along a chain from `n` gives.
  abbrev pub Finds : (ℕ → Node V) → V → ℕ → Option ℕ → Type 0
  Finds g k n (some i) = (g i).key ≡ k
  Finds g k n none = (i : ℕ) → Reach g n i → (g i).key ≢ k

  Finds-step :
      (g : ℕ → Node V) (k : V) (n m : ℕ) (o : Option ℕ)
      → (g n).next ≡ some m
      → (g n).key ≢ k
      → Finds g k m o
      → Finds g k n o
  Finds-step g k n m (some i) step apart_k found = found
  Finds-step g k n m none step apart_k found = λ i r. elim (Reach-next step r) [
    | inl e ↦ subst (λ (j : ℕ). (g j).key ≢ k) e apart_k
    | inr r' ↦ found i r'
  ]

  apart : (a b : V) → equal a b ≡ false → a ≢ b
  apart a b h e = ground (arith, equal_iff a b)

  module _ (t : Table V) (v : Valid t) where
    open v use {hbits, mask, node_len, chains}
    open chains use {next_keyed, reach, blank, rank, falls, rank_le, distinct}

    pub Keyed-lt : (i : ℕ) → Keyed (node_at t.node) i → i < length t.node
    Keyed-lt i h = ground (arith, get_or-ge t.node i (empty_node values), is_nil_iff nil)

    pub slot-lt : (k : V) → slot_of t.hmask k < suc t.hmask
    slot-lt k = mask-lt (hash_key k) t.hmask hbits mask

    pub slot-has_hpart : has_hpart values t ≡ true → (i : ℕ) → i < suc t.hmask → i < length t.node
    unfolding has_hpart
    slot-has_hpart h i lt = ground (arith, node_len)

    pub slot-size : has_hpart values t ≡ true → length t.node ≡ suc t.hmask
    unfolding has_hpart
    slot-size h = ground (arith, node_len)

    pub node_slot-at :
        (i : ℕ)
        → has_hpart values t ≡ true
        → i < length t.node
        → node_slot values t i ≡ ok (node_at t.node i)
    unfolding node_slot
    node_slot-at i h lt = rw h (at-get_or t.node i (empty_node values) lt)

    -- the answer of a search of the whole hash part
    abbrev pub Found : V → Option ℕ → Type 0
    Found key (some i) = (node_at t.node i).key ≡ key
    Found key none = (i : ℕ) → (node_at t.node i).key ≢ key

    find_node_lem :
        (key : V) (fuel n : ℕ)
        → has_hpart values t ≡ true
        → n < length t.node
        → rank n < fuel
        → Returns (find_node values fuel t key n) (Finds (node_at t.node) key n)
    unfolding find_node
    find_node_lem key zero n h lt le = elim le [ ]
    find_node_lem key (suc fuel) n h lt le =
        rw (node_slot-at n h lt) (elim (Bool-cases (equal (node_at t.node n).key key)) [
          | inl e ↦ rw e (some n, refl, (equal_iff _ key).0 e)
          | inr e ↦ elim (Option-cases (node_at t.node n).next) [
            | inl last ↦
                rw (e, last)
                  (
                    none,
                    refl,
                    λ i r.
                        subst (λ (j : ℕ). (node_at t.node j).key ≢ key) (Reach-last last r)
                          (apart _ key e),
                  )
            | inr (m, step) ↦
                let (o, run, found) =
                  find_node_lem key fuel m h (Keyed-lt m (next_keyed n m step))
                    (ground (arith, falls n m)) in
                rw (e, step)
                  (o, run, Finds-step (node_at t.node) key n m o step (apart _ key e) found)
          ]
        ])

    -- On a valid table with a hash part the walk along the chain of a key that is not nil ends within its
    -- fuel and without a panic: at a node with the key, or with none, and then no node has the key.
    pub lookup_lem :
        (key : V)
        → is_nil key ≡ false
        → has_hpart values t ≡ true
        → Returns (lookup values t key) (Found key)
    unfolding lookup hash_slot
    lookup_lem key keyed_key h =
        let start = slot-has_hpart h (slot_of t.hmask key) (slot-lt key) in
        let size : length t.node ≡ suc t.hmask = slot-size h in
        let (o, run, found) =
          find_node_lem key (t.hmask + 1) (slot_of t.hmask key) h start
            (ground (arith, rank_le (slot_of t.hmask key), keyed-le is_nil t.node)) in
        (o, run, settle o found)
      where
        settle : (o : Option ℕ) → Finds (node_at t.node) key (slot_of t.hmask key) o → Found key o
        settle (some i) found = found
        settle none found = λ i e.
            let keyed_i : Keyed (node_at t.node) i = ground arith in
            found i (subst (λ k. Reach (node_at t.node) (slot_of t.hmask k) i) e (reach i keyed_i))
              e

    -- The nodes hold one value for a key.
    pub Holds-unique :
        (k v w : V)
        → is_nil k ≡ false
        → Holds (node_at t.node) k v
        → Holds (node_at t.node) k w
        → v ≡ w
    Holds-unique k v w h (inl (i, ki, vi)) (inl (j, kj, vj)) =
        let same : i ≡ j = distinct i j (ground arith) (ground arith) in
        sym vi ∙ ap (λ (x : ℕ). (node_at t.node x).val) same ∙ vj
    Holds-unique k v w h (inl (i, ki, vi)) (inr (apart_k, e)) = absurd (apart_k i ki)
    Holds-unique k v w h (inr (apart_k, e)) (inl (j, kj, vj)) = absurd (apart_k j kj)
    Holds-unique k v w h (inr (apart_k, e)) (inr (apart_k', e')) = e ∙ sym e'

    Holds-nowhere :
        has_hpart values t ≡ false → (k : V) → is_nil k ≡ false → Holds (node_at t.node) k nil
    unfolding has_hpart
    Holds-nowhere h k nk = inr (λ i e. ground (arith, Keyed-lt i, node_len), refl)

    pub get-nodes :
        (k : V)
        → is_nil k ≡ false
        → array_slot values t k ≡ none
        → Returns (get values t k) (Holds (node_at t.node) k)
    unfolding get get_str
    get-nodes k nk out = elim (Bool-cases (has_hpart values t)) [
      | inl h ↦
          let (o, run, found) = lookup_lem k nk h in rw (get, out, nk, h, run) (read o found h)
      | inr h ↦ rw (get, out, nk, h) (nil, refl, Holds-nowhere h k nk)
    ]
      where
        read :
            (o : Option ℕ)
            → Found k o
            → has_hpart values t ≡ true
            → Returns
                (elim o [ none ↦ ok nil | some n ↦ node_slot values t n >>= λ nd. ok nd.val ])
                (Holds (node_at t.node) k)
        read none apart_k h = (nil, refl, inr (apart_k, refl))
        read (some i) e h =
            rw (node_slot-at i h (Keyed-lt i (ground arith)))
              ((node_at t.node i).val, refl, inl (i, e, refl))

    -- What the nodes hold is what `get` returns.
    pub get-Holds :
        (k v : V)
        → is_nil k ≡ false
        → array_slot values t k ≡ none
        → Holds (node_at t.node) k v
        → get values t k ≡ ok v
    get-Holds k v nk out h =
        let (w, run, held) = get-nodes k nk out in run ∙ ap ok (Holds-unique k w v nk held h)
