-- ===== src/Runtime/Table/Find.antt =====
-- The lookups of crates/luajit-rs/src/runtime/table.rs.
use luajit_rs.Base.{
  ℕ, zero, suc, ◌+◌, ◌||◌, not, Option, none, some, ltb, if◌then◌else◌, Run, ok, no_fuel, ◌>>=◌, at,
}
use luajit_rs.Base.Int.{ℤ, pos, negsuc}
use luajit_rs.Runtime.Table.Values.{Values}
use luajit_rs.Runtime.Table.State.{Table, has_hpart, node_slot, hash_slot, array_slot}

module _ {V : Type 0} (values : Values V) where
  open values use {nil, equal, is_nil, number}

  -- The walk along a chain from the node `n`, which every lookup makes: the node with the key.
  unfoldable pub find_node : ℕ → Table V → V → ℕ → Run (Option ℕ)
  unfolding node_slot
  find_node zero t key n = no_fuel
  find_node (suc fuel) t key n = node_slot values t n >>= λ nd.
      if equal nd.key key
      then ok (some n)
      else elim nd.next [ none ↦ ok none | some m ↦ find_node fuel t key m ]

  -- A chain has at most as many nodes as the hash part.
  unfoldable pub lookup : Table V → V → Run (Option ℕ)
  unfolding find_node hash_slot
  lookup t key = find_node (t.hmask + 1) t key (hash_slot values t key)

  unfoldable pub get_str : Table V → V → Run V
  unfolding lookup node_slot
  get_str t key = lookup t key >>= λ found. elim found [
    | none ↦ ok nil
    | some n ↦ node_slot values t n >>= λ nd. ok nd.val
  ]

  unfoldable pub get : Table V → V → Run V
  unfolding get_str array_slot has_hpart
  get t key = elim (array_slot values t key) [
    | some i ↦ at t.array i
    | none ↦ if is_nil key || not (has_hpart values t) then ok nil else get_str t key
  ]

  unfoldable pub get_int : Table V → ℤ → Run V
  unfolding get
  get_int t (pos n) = if ltb n t.asize then at t.array n else get t (number (pos n))
  get_int t (negsuc n) = get t (number (negsuc n))
