-- ===== src/Runtime/Table/Indices.antt =====
-- What a table of crates/luajit-rs/src/runtime/table.rs gives for the indices that a length can have.
use luajit_rs.Base.{
  ℕ, suc, ◌+◌, ◌-◌, ◌^◌, ◌≤◌, ◌<◌, ◌≡◌, inl, inr, refl, sym, ◌∙◌, ap, subst, arith, true, false,
  none, ltb, Bool-cases, get_or, Run, ok, at, Returns,
}
use luajit_rs.Base.Int.{pos}
use luajit_rs.Runtime.Table.Values.{Values}
use luajit_rs.Runtime.Table.State.{Table, has_hpart, array_key, array_slot, empty_node}
use luajit_rs.Runtime.Table.Find.{get, get_int}
use luajit_rs.Runtime.Table.Valid.{Valid, Keyed-lt, get-nodes}
use luajit_rs.Runtime.Table.Rehash.{population}
use luajit_rs.Runtime.Table.Integers.{get_int-get, number-IsKey, slot-number}
use luajit_rs.Runtime.Table.Contents.{get-element}
use luajit_rs.Runtime.Table.Pigeons.{
  sum_to-le, sum_to-ones, live, hits, sum_to-array, sum_to-hits, hits-pos,
}

module _ {V : Type 0} (values : Values V) where
  open values use {nil, is_nil, number}

  -- the value for an index
  abbrev pub value_at : Table V → ℕ → V
  value_at t i = elim (get_int values t (pos i)) [ ok x ↦ x | _ ↦ nil ]

  module _ (t : Table V) (v : Valid values t) where
    -- how many places of the table give the index a value
    abbrev places : ℕ → ℕ
    places i = live values (get_or t.array i nil) + hits values t.node i

    slot-beyond : (i : ℕ) → i < 2 ^ 31 → t.asize ≤ i → array_slot values t (number (pos i)) ≡ none
    unfolding array_slot array_key
    slot-beyond i small le = rw (array_slot, array_key, values.int-number i small) (ground arith)

    read-index :
        (i : ℕ)
        → i < 2 ^ 31
        → Returns (get_int values t (pos i)) (λ x. is_nil x ≡ false → 1 ≤ places i)
    read-index i small = elim (Bool-cases (ltb i t.asize)) [
      | inl e ↦ (
        get_or t.array i nil,
        get_int-get values t (pos i) v
            ∙ get-element values t (number (pos i)) i v
                (slot-number values t i (ground arith) v.asize_le),
        λ l. rw l (omega arith),
      )
      | inr e ↦
          let nk = (number-IsKey values i small).not_nil in
          let (x, run, held) =
            get-nodes values t v (number (pos i)) nk (slot-beyond i small (ground arith)) in
          (
            x,
            get_int-get values t (pos i) v ∙ run,
            λ l. elim held [
              | inl (j, kj, vj) ↦
                  let keyed : is_nil (get_or t.node j (empty_node values)).key ≡ false =
                    ap is_nil kj ∙ nk in
                  let lt = Keyed-lt values t v j keyed in
                  omega
                    (arith, hits-pos values t.node i j (empty_node values) lt kj (ap is_nil vj ∙ l))
              | inr (out, gone) ↦ absurd (ground (arith, (values.is_nil_iff x).1 gone))
            ],
          )
    ]

    pub total : (i : ℕ) → i < 2 ^ 31 → get_int values t (pos i) ≡ ok (value_at t i)
    total i small =
        let (x, run, s) = read-index i small in
        run ∙ sym (ap (λ (r : Run V). ok (elim r [ ok x ↦ x | _ ↦ nil ])) run)

    place : (i : ℕ) → i < 2 ^ 31 → is_nil (value_at t i) ≡ false → 1 ≤ places i
    place i small l =
        let (x, run, s) = read-index i small in
        s (subst (λ (r : Run V). is_nil (elim r [ ok x ↦ x | _ ↦ nil ]) ≡ false) run l)

    -- no more indices in a row have a value than the table has entries
    pub row-le :
        (n : ℕ)
        → n < 2 ^ 31 - 1
        → ((j : ℕ) → j < n → is_nil (value_at t (suc j)) ≡ false)
        → n ≤ population values t
    row-le n small row =
        let all = sum_to-ones (λ i. 1) n (λ i lt. refl) in
        let each =
          sum_to-le (λ i. 1) (λ i. live values (get_or t.array (suc i) nil))
            (λ i. hits values t.node (suc i)) n (λ i lt. place (suc i) (omega arith) (row i lt)) in
        let in_array = sum_to-array values t.array (suc n) in
        let in_nodes =
          sum_to-hits values t.node (λ i. suc i) n (λ i j a b e. omega arith)
            (λ i a. omega arith) in
        omega (arith, all, each, in_array, in_nodes)

    pub array-total : (i : ℕ) → i < t.asize → at t.array i ≡ ok (value_at t i)
    unfolding get_int
    array-total i lt =
        let inside : ltb i t.asize ≡ true = ground arith in
        let opened : get_int values t (pos i) ≡ at t.array i = rw inside refl in
        sym opened ∙ total i (omega (arith, v.asize_le))

    pub beyond-nil :
        (i : ℕ)
        → i < 2 ^ 31
        → t.asize ≤ i
        → has_hpart values t ≡ false
        → is_nil (value_at t i) ≡ true
    unfolding get_int get
    beyond-nil i small le h =
        let outside : ltb i t.asize ≡ false = ground arith in
        let none_here : is_nil nil ≡ true = (values.is_nil_iff nil).1 refl in
        let gone : get_int values t (pos i) ≡ ok nil =
          rw (outside, get, slot-beyond i small le, (number-IsKey values i small).not_nil, h)
            refl in
        rw (value_at, gone) none_here
