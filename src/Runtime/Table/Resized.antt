-- ===== src/Runtime/Table/Resized.antt =====
-- The parts that `resize` of crates/luajit-rs/src/runtime/table.rs allocates: an array that agrees with
-- the old one as far as both go, and nodes without keys.
use native.Mathlib.Nat.{one-le-pow, pow-suc}
use luajit_rs.Base.{
  ℕ, zero, suc, ◌-◌, ◌^◌, ◌≤◌, ◌<◌, ◌≡◌, refl, arith, Bool, true, Option, none, List, [], ◌∷◌, ◌++◌,
  ltb, ◌==◌, if◌then◌else◌, length, length-append, length-take, length-replicate, get_or, take,
  replicate, ok, Returns,
}
use luajit_rs.Runtime.Table.Values.{Values}
use luajit_rs.Runtime.Table.State.{max_asize, Node, Table, empty_node, new_hpart}
use luajit_rs.Runtime.Table.Insert.{resized}
use luajit_rs.Runtime.Table.Chains.{Chains}
use luajit_rs.Runtime.Table.Nodes.{get_or-replicate, keyed, keyed-replicate}
use luajit_rs.Runtime.Table.Valid.{node_at, Valid}

-- the nodes of a hash part; with no bits there is none
abbrev pub room : ℕ → ℕ
room hbits = if hbits == 0 then 0 else 2 ^ hbits

module _ {V : Type 0} {is_nil : V → Bool} where
  pub blank-Chains :
      (slot : V → ℕ) (bound : ℕ) (g : ℕ → Node V)
      → ((i : ℕ) → (is_nil (g i).key ≡ true) × ((g i).next ≡ none) × (is_nil (g i).val ≡ true))
      → Chains is_nil slot bound g
  blank-Chains slot bound g h = record {
    next_keyed = λ i j e. ground (arith, h i);
    unique = λ i j k e f. ground (arith, h i);
    reach = λ i e. absurd (ground (arith, h i));
    main = λ i e. absurd (ground (arith, h i));
    distinct = λ i j e f. ground (arith, h i);
    blank = λ i e. ((h i).1, (h i).2);
    rank = λ i. 0;
    falls = λ i j e. ground (arith, h i);
    rank_le = λ i. omega arith;
  }

module _ {ℓ} {A : Type ℓ} where
  pub get_or-append_replicate :
      (xs : List A) (n i : ℕ) (d : A) → get_or (xs ++ replicate n d) i d ≡ get_or xs i d
  get_or-append_replicate [] n i d = get_or-replicate n i d
  get_or-append_replicate (x ∷ xs) n zero d = refl
  get_or-append_replicate (x ∷ xs) n (suc i) d = get_or-append_replicate xs n i d

  pub get_or-take :
      (n : ℕ) (xs : List A) (i : ℕ) (d : A) → i < n → get_or (take n xs) i d ≡ get_or xs i d
  get_or-take zero xs i d h = elim h [ ]
  get_or-take (suc n) [] i d h = refl
  get_or-take (suc n) (x ∷ xs) zero d h = refl
  get_or-take (suc n) (x ∷ xs) (suc i) d h = get_or-take n xs i d (omega arith)

module _ {V : Type 0} (values : Values V) where
  open values use {nil, is_nil, is_nil_iff}

  -- `t'` has the new sizes, the values of the array up to them, and no key in a node.
  pub record Fresh (t t' : Table V) (asize hbits : ℕ) : Type 0 where
    pub valid : Valid values t'
    pub new_asize : t'.asize ≡ asize
    pub metatable : t'.metatable ≡ t.metatable
    pub unused : keyed is_nil t'.node ≡ 0
    pub width : length t'.node ≡ room hbits
    pub elements : (i : ℕ) → i < asize → get_or t'.array i nil ≡ get_or t.array i nil

  abbrev resized_array : Table V → ℕ → List V
  resized_array t asize =
      if ltb t.asize asize
      then t.array ++ replicate (asize - length t.array) nil
      else if ltb asize t.asize
      then take asize t.array
      else t.array

  length-resized_array :
      (t : Table V) (asize : ℕ) → length t.array ≡ t.asize → length (resized_array t asize) ≡ asize
  length-resized_array t asize e = ground (
    arith,
    length-append t.array (replicate (asize - length t.array) nil),
    length-replicate (asize - length t.array) nil,
    length-take asize t.array,
  )

  get_or-resized_array :
      (t : Table V) (asize i : ℕ)
      → i < asize
      → get_or (resized_array t asize) i nil ≡ get_or t.array i nil
  get_or-resized_array t asize i h = ground (
    arith,
    get_or-append_replicate t.array (asize - length t.array) i nil,
    get_or-take asize t.array i nil,
  )

  empty-blank :
      (n i : ℕ)
      → (is_nil (node_at values (replicate n (empty_node values)) i).key ≡ true)
        × ((node_at values (replicate n (empty_node values)) i).next ≡ none)
        × (is_nil (node_at values (replicate n (empty_node values)) i).val ≡ true)
  empty-blank n i = ground (arith, get_or-replicate n i (empty_node values), is_nil_iff nil)

  pub pow-ge_two : (b : ℕ) → 0 < b → 2 ≤ 2 ^ b
  pow-ge_two zero h = elim h [ ]
  pow-ge_two (suc b) h = omega (arith, pow-suc 2 b, one-le-pow b 2)

  -- a table whose nodes are all empty
  abbrev pub emptied : List V → Option ℕ → ℕ → ℕ → Table V
  emptied array metatable hbits nomm = record {
    array = array;
    node = replicate (room hbits) (empty_node values);
    metatable = metatable;
    asize = length array;
    hmask = 2 ^ hbits - 1;
    freetop = room hbits;
    nomm = nomm;
  }

  pub emptied-Valid :
      (array : List V) (metatable : Option ℕ) (hbits nomm : ℕ)
      → length array ≤ max_asize
      → hbits ≤ 26
      → Valid values (emptied array metatable hbits nomm)
  emptied-Valid array metatable hbits nomm le hle =
      let width = length-replicate (room hbits) (empty_node values) in
      record {
        array_len = refl;
        asize_le = le;
        hbits = hbits;
        hbits_le = hle;
        mask = ground (arith, one-le-pow hbits 2);
        node_len = ground (arith, pow-ge_two hbits);
        chains = blank-Chains _ _ _ (empty-blank (room hbits));
        normal = λ i h. absurd (ground (arith, empty-blank (room hbits) i));
        outside = λ i h. absurd (ground (arith, empty-blank (room hbits) i));
        freetop_le = omega arith;
        full_above = λ i lo up. absurd (omega arith);
      }

  resized-emptied :
      (t : Table V) (asize hbits : ℕ)
      → Valid values t
      → hbits ≤ 26
      → asize ≤ max_asize
      → (nomm : ℕ) × (resized values t asize hbits
          ≡ ok (emptied (resized_array t asize) t.metatable hbits nomm))
  unfolding resized new_hpart
  resized-emptied t asize zero v hle le =
      (t.nomm, ground (arith, length-resized_array t asize v.array_len, v.freetop_le, v.node_len))
  resized-emptied t asize (suc b) v hle le =
      (t.nomm, ground (arith, length-resized_array t asize v.array_len))

  pub resized_lem :
      (t : Table V) (asize hbits : ℕ)
      → Valid values t
      → hbits ≤ 26
      → asize ≤ max_asize
      → Returns (resized values t asize hbits) (λ t'. Fresh t t' asize hbits)
  resized_lem t asize hbits v hle le =
      let (nomm, run) = resized-emptied t asize hbits v hle le in
      let len = length-resized_array t asize v.array_len in
      (
        _,
        run,
        record {
          valid = emptied-Valid (resized_array t asize) t.metatable hbits nomm (rw len le) hle;
          new_asize = len;
          metatable = refl;
          unused =
              keyed-replicate is_nil (room hbits) (empty_node values) ((is_nil_iff nil).1 refl);
          width = length-replicate (room hbits) (empty_node values);
          elements = get_or-resized_array t asize;
        },
      )
