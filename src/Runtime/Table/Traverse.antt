-- ===== src/Runtime/Table/Traverse.antt =====
-- The traversal of crates/luajit-rs/src/runtime/table.rs: `next` and the index it starts from, where the
-- invalid index `!0` is none.
use luajit_rs.Base.{
  ℕ, zero, suc, ◌+◌, ◌-◌, Bool, true, false, not, Option, none, some, if◌then◌else◌, Run, ok, ◌>>=◌,
  at,
}
use luajit_rs.Base.Int.{pos}
use luajit_rs.Runtime.Table.Values.{Values}
use luajit_rs.Runtime.Table.State.{Table, has_hpart, node_slot, array_slot}
use luajit_rs.Runtime.Table.Find.{lookup}

module _ {V : Type 0} (values : Values V) where
  open values use {is_nil, number}

  unfoldable pub key_index : Table V → V → Run (Option ℕ)
  unfolding array_slot has_hpart lookup
  key_index t key = if is_nil key then ok (some 0) else elim (array_slot values t key) [
    | some k ↦ ok (some (k + 1))
    | none ↦ (if has_hpart values t then lookup values t key else ok none) >>= λ found. elim found [
      | some n ↦ ok (some (t.asize + n + 1))
      | none ↦ ok none
    ]
  ]

  unfoldable pub is_valid_key : Table V → V → Run Bool
  unfolding key_index
  is_valid_key t key =
      key_index t key >>= λ found. elim found [ none ↦ ok false | some i ↦ ok true ]

  -- The loop of `next` over the array: `left` indices from `idx` on.
  unfoldable pub next_in_array : ℕ → Table V → ℕ → Run (Option (V × V))
  next_in_array zero t idx = ok none
  next_in_array (suc left) t idx =
      let later = next_in_array left t (idx + 1) in
      at t.array idx >>= λ v. if not (is_nil v) then ok (some (number (pos idx), v)) else later

  -- The loop of `next` over the nodes.
  unfoldable pub next_in_nodes : ℕ → Table V → ℕ → Run (Option (V × V))
  unfolding node_slot
  next_in_nodes zero t idx = ok none
  next_in_nodes (suc left) t idx =
      let later = next_in_nodes left t (idx + 1) in
      node_slot values t idx >>= λ nd.
      if not (is_nil nd.val) then ok (some (nd.key, nd.val)) else later

  unfoldable pub next : Table V → V → Run (Option (V × V))
  unfolding key_index next_in_array next_in_nodes has_hpart
  next t key = key_index t key >>= λ found. elim found [
    | none ↦ ok none
    | some ki ↦ next_in_array (t.asize - ki) t ki >>= λ entry. elim entry [
      | some e ↦ ok (some e)
      | none ↦
          next_in_nodes (if has_hpart values t then t.hmask + 1 - (ki - t.asize) else 0) t
            (ki - t.asize)
    ]
  ]
