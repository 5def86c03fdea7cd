-- ===== src/Runtime/Table/Next.antt =====
-- What `next` of crates/luajit-rs/src/runtime/table.rs enumerates.
use luajit_rs.Base.{
  ℕ, zero, suc, ◌+◌, ◌-◌, ◌≤◌, ◌<◌, ◌≡◌, ◌⊎◌, inl, inr, refl, sym, ◌∙◌, ap, arith, true, false,
  Option, none, some, List, [], ◌∷◌, ◌++◌, ltb, if◌then◌else◌, Bool-cases, Option-cases, length,
  length-drop, get_or, drop, Run, ok, ◌>>=◌,
}
use luajit_rs.Base.Int.{pos}
use luajit_rs.Runtime.Table.Values.{Values}
use luajit_rs.Runtime.Table.State.{Table, empty_node, has_hpart, array_key, array_slot}
use luajit_rs.Runtime.Table.Find.{lookup, get}
use luajit_rs.Runtime.Table.Insert.{dropped, entries}
use luajit_rs.Runtime.Table.Traverse.{key_index, next_in_array, next_in_nodes, next}
use luajit_rs.Runtime.Table.Nodes.{at-get_or}
use luajit_rs.Runtime.Table.Valid.{
  node_at, Keyed, Outside, Valid, Found, get-Holds, lookup_lem, node_slot-at, slot-size, Keyed-lt,
}
use luajit_rs.Runtime.Table.SetAll.{latest}
use luajit_rs.Runtime.Table.Resized.{resized_lem}
use luajit_rs.Runtime.Table.Contents.{length-nil, get-element, get-empty, contents}
use luajit_rs.Runtime.Table.Entries.{number-keyed}
use luajit_rs.Runtime.Table.Map.{IsKey}
use luajit_rs.Runtime.Table.Integers.{slot-number}

abbrev pub head? {ℓ} : {A : Type ℓ} → List A → Option A
head? [] = none
head? (x ∷ xs) = some x

module _ {V : Type 0} (values : Values V) where
  open values use {nil, is_nil, number, is_nil_iff}

  drop-cons :
      {A : Type 0} (xs : List A) (i : ℕ) (d : A)
      → i < length xs
      → drop i xs ≡ get_or xs i d ∷ drop (i + 1) xs
  drop-cons [] i d h = elim h [ ]
  drop-cons (x ∷ xs) zero d h = refl
  drop-cons (x ∷ xs) (suc i) d h =
      let e : suc (i + 1) ≡ suc i + 1 = omega arith in
      drop-cons xs i d (omega arith) ∙ ap (λ (k : ℕ). get_or xs i d ∷ drop k (x ∷ xs)) e

  drop-all : {A : Type 0} (xs : List A) (i : ℕ) → length xs ≤ i → drop i xs ≡ []
  drop-all xs i h = length-nil (drop i xs) (omega (arith, length-drop i xs))

  head?-append :
      (xs ys : List (V × V)) (later : Run (Option (V × V)))
      → later ≡ ok (head? ys)
      → elim (head? xs) [ some e ↦ ok (some e) | none ↦ later ] ≡ ok (head? (xs ++ ys))
  head?-append [] ys later h = h
  head?-append (x ∷ xs) ys later h = refl

  module _ (t : Table V) (v : Valid values t) where
    next_in_array-head :
        (left idx : ℕ)
        → (left + idx ≡ t.asize) ⊎ ((left ≡ 0) × (t.asize ≤ idx))
        → next_in_array values left t idx ≡ ok (head? (dropped values idx (drop idx t.array)))
    unfolding next_in_array dropped
    next_in_array-head zero idx e = rw (drop-all t.array idx (ground (arith, v.array_len))) refl
    next_in_array-head (suc left) idx e =
        let inside : idx < length t.array = ground (arith, v.array_len) in
        let later = next_in_array-head left (idx + 1) (inl (ground arith)) in
        rw (at-get_or t.array idx nil inside, drop-cons t.array idx nil inside, ◌>>=◌)
          (elim (Bool-cases (is_nil (get_or t.array idx nil))) [
            | inl e ↦ rw e later
            | inr e ↦ rw e refl
          ])

    next_in_nodes-head :
        (left idx : ℕ)
        → has_hpart values t ≡ true
        → (left + idx ≡ length t.node) ⊎ ((left ≡ 0) × (length t.node ≤ idx))
        → next_in_nodes values left t idx ≡ ok (head? (entries values (drop idx t.node)))
    unfolding next_in_nodes entries
    next_in_nodes-head zero idx h e = rw (drop-all t.node idx (ground arith)) refl
    next_in_nodes-head (suc left) idx h e =
        let inside : idx < length t.node = ground arith in
        let later = next_in_nodes-head left (idx + 1) h (inl (ground arith)) in
        rw
          (
            node_slot-at values t v idx h inside,
            drop-cons t.node idx (empty_node values) inside,
            ◌>>=◌,
          )
          (elim (Bool-cases (is_nil (node_at values t.node idx).val)) [
            | inl e ↦ rw e later
            | inr e ↦ rw e refl
          ])

    no_hpart-nodes : has_hpart values t ≡ false → length t.node ≡ 0
    unfolding has_hpart
    no_hpart-nodes h = ground (arith, v.node_len)

    next_in_nodes-any :
        (j : ℕ)
        → next_in_nodes values (if has_hpart values t then t.hmask + 1 - j else 0) t j
          ≡ ok (head? (entries values (drop j t.node)))
    unfolding next_in_nodes entries
    next_in_nodes-any j = elim (Bool-cases (has_hpart values t)) [
      | inl h ↦
          rw h (next_in_nodes-head (t.hmask + 1 - j) j h (ground (arith, slot-size values t v h)))
      | inr h ↦ rw (h, drop-all t.node j (omega (arith, no_hpart-nodes h))) refl
    ]

    -- the entries from an index on
    abbrev pub from : ℕ → List (V × V)
    from ki = dropped values ki (drop ki t.array) ++ entries values (drop (ki - t.asize) t.node)

    next-from :
        (key : V) (ki : ℕ)
        → key_index values t key ≡ ok (some ki)
        → next values t key ≡ ok (head? (from ki))
    unfolding next
    next-from key ki e =
        let first_part = next_in_array-head (t.asize - ki) ki (ground arith) in
        rw (next, e, first_part)
          (head?-append (dropped values ki (drop ki t.array))
            (entries values (drop (ki - t.asize) t.node)) _ (next_in_nodes-any (ki - t.asize)))

    -- where a key of the array and a key of a node continue
    index-array : (i : ℕ) → i < t.asize → key_index values t (number (pos i)) ≡ ok (some (i + 1))
    unfolding key_index
    index-array i lt =
        rw
          (
            key_index,
            number-keyed values i (omega (arith, v.asize_le)),
            slot-number values t i lt v.asize_le,
          )
          refl

    Outside-slot : (k : V) → Outside values t.asize k → array_slot values t k ≡ none
    unfolding array_slot
    Outside-slot k out = elim (Option-cases (array_key values k)) [
      | inl e ↦ rw (array_slot, e) refl
      | inr (i, e) ↦
          let over : ltb i t.asize ≡ false = ground (arith, out i e) in
          rw (array_slot, e, over) refl
    ]

    node-slot :
        (n : ℕ)
        → Keyed values (node_at values t.node) n
        → array_slot values t (node_at values t.node n).key ≡ none
    node-slot n taken = Outside-slot (node_at values t.node n).key (v.outside n taken)

    node-lookup :
        (n : ℕ)
        → Keyed values (node_at values t.node) n
        → (if has_hpart values t then lookup values t (node_at values t.node n).key else ok none)
          ≡ ok (some n)
    node-lookup n taken = elim (Bool-cases (has_hpart values t)) [
      | inr h ↦ absurd (omega (arith, no_hpart-nodes h, Keyed-lt values t v n taken))
      | inl h ↦
          let (found, run, finds) = lookup_lem values t v (node_at values t.node n).key taken h in
          rw (h, run) (settle found finds)
    ]
      where
        settle :
            (found : Option ℕ)
            → Found values t v (node_at values t.node n).key found
            → ok found ≡ ok (some n)
        settle none absent = absurd (absent n refl)
        settle (some i) e = ap (λ (j : ℕ). ok (some j)) (sym (v.chains.distinct n i taken (sym e)))

    index-node :
        (n : ℕ)
        → Keyed values (node_at values t.node) n
        → key_index values t (node_at values t.node n).key ≡ ok (some (t.asize + n + 1))
    unfolding key_index
    index-node n taken = rw (key_index, taken, node-slot n taken, node-lookup n taken) refl

    from-node : (n : ℕ) → from (t.asize + n + 1) ≡ entries values (drop (n + 1) t.node)
    unfolding dropped
    from-node n =
        let e : t.asize + n + 1 - t.asize ≡ n + 1 = omega arith in
        rw (drop-all t.array (t.asize + n + 1) (omega (arith, v.array_len)), e) refl

    from-array :
        (i : ℕ)
        → i < t.asize
        → from (i + 1) ≡ dropped values (i + 1) (drop (i + 1) t.array) ++ entries values t.node
    from-array i lt =
        let e : i + 1 - t.asize ≡ 0 = omega arith in
        ap
          (λ (j : ℕ).
            dropped values (i + 1) (drop (i + 1) t.array) ++ entries values (drop j t.node))
          e

    -- Each entry is the table's, and `next` of its key is the one after it.
    abbrev pub Follows : List (V × V) → Type 0
    Follows [] = Unit
    Follows ((k, x) ∷ rest) =
        (get values t k ≡ ok x) × (next values t k ≡ ok (head? rest)) × Follows rest

    nodes-Follow :
        (left n : ℕ) → left + n ≡ length t.node → Follows (entries values (drop n t.node))
    unfolding entries
    nodes-Follow zero n e = rw (drop-all t.node n (omega arith)) (record {})
    nodes-Follow (suc left) n e =
        let inside : n < length t.node = omega arith in
        let later = nodes-Follow left (n + 1) (omega arith) in
        rw (drop-cons t.node n (empty_node values) inside)
          (elim (Bool-cases (is_nil (node_at values t.node n).val)) [
            | inl dead ↦ rw dead later
            | inr live ↦
                let taken : Keyed values (node_at values t.node) n =
                  ground (arith, v.chains.blank n) in
                rw live (
                  get-Holds values t v (node_at values t.node n).key (node_at values t.node n).val
                      taken (node-slot n taken) (inl (n, refl, refl)),
                  next-from (node_at values t.node n).key (t.asize + n + 1) (index-node n taken)
                      ∙ ap (λ (es : List (V × V)). ok (head? es)) (from-node n),
                  later,
                )
          ])

    array-Follow :
        (left i : ℕ)
        → left + i ≡ t.asize
        → Follows (dropped values i (drop i t.array) ++ entries values t.node)
    unfolding dropped
    array-Follow zero i e =
        rw (drop-all t.array i (omega (arith, v.array_len)))
          (nodes-Follow (length t.node) 0 (omega arith))
    array-Follow (suc left) i e =
        let lt : i < t.asize = omega arith in
        let later = array-Follow left (i + 1) (omega arith) in
        rw (drop-cons t.array i nil (omega (arith, v.array_len)))
          (elim (Bool-cases (is_nil (get_or t.array i nil))) [
            | inl f ↦ rw f later
            | inr f ↦ rw f (
              get-element values t (number (pos i)) i v (slot-number values t i lt v.asize_le),
              next-from (number (pos i)) (i + 1) (index-array i lt)
                  ∙ ap (λ (es : List (V × V)). ok (head? es)) (from-array i lt),
              later,
            )
          ])

    -- the entries of a table in the order of its parts
    abbrev pub listing : List (V × V)
    listing = dropped values 0 t.array ++ entries values t.node

    index-nil : key_index values t nil ≡ ok (some 0)
    unfolding key_index
    index-nil =
        let none_yet : is_nil nil ≡ true = (is_nil_iff nil).1 refl in rw (key_index, none_yet) refl

    -- The calls of `next` that start at nil and go on from each key enumerate the entries of a valid
    -- table, each with the value that `get` returns, and the last one ends the traversal.
    pub next-enumerates : (next values t nil ≡ ok (head? listing)) × Follows listing
    next-enumerates =
        let e : 0 - t.asize ≡ 0 = omega arith in
        (
          next-from nil 0 index-nil
              ∙ ap
                  (λ (j : ℕ).
                    ok (head? (dropped values 0 t.array ++ entries values (drop j t.node))))
                  e,
          array-Follow t.asize 0 (omega arith),
        )

    latest-append :
        (xs ys : List (V × V)) (k : V) (d : Run V)
        → latest values (xs ++ ys) k d ≡ latest values ys k (latest values xs k d)
    latest-append [] ys k d = refl
    latest-append ((key, x) ∷ xs) ys k d =
        latest-append xs ys k (if values.equal k key then ok x else d)

    no_slot : (t₁ : Table V) (k : V) → t₁.asize ≡ 0 → array_slot values t₁ k ≡ none
    unfolding array_slot
    no_slot t₁ k e = elim (Option-cases (array_key values k)) [
      | inl f ↦ rw (array_slot, f) refl
      | inr (i, f) ↦ let over : ltb i 0 ≡ false = ground arith in rw (array_slot, f, e, over) refl
    ]

    -- The entries that `next` enumerates on a valid table are its contents: for a key, the last entry has
    -- what `get` returns, and `get` returns nil where there is none.
    pub listing-get : (k : V) → IsKey values k → latest values listing k (ok nil) ≡ get values t k
    listing-get k ok_k =
        let (t₁, run, f) = resized_lem values t 0 0 v (omega arith) (omega arith) in
        let start : get values t₁ k ≡ ok nil =
          get-empty values t₁ k f.valid f.unused ok_k.not_nil (no_slot t₁ k f.new_asize) in
        latest-append (dropped values 0 t.array) (entries values t.node) k (ok nil)
        ∙ ap
            (λ d.
              latest values (entries values t.node) k
                (latest values (dropped values 0 t.array) k d))
            (sym start)
        ∙ contents values t v k ok_k.not_nil ok_k.normal t₁ 0 0 (omega arith) f
