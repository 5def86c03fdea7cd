-- ===== src/Runtime/Table/Length.antt =====
-- The length of a table of crates/luajit-rs/src/runtime/table.rs: `len` and `len_hash`.
use luajit_rs.Base.{
  ℕ, zero, suc, ◌+◌, ◌-◌, ◌*◌, ◌/◌, ◌^◌, not, ltb, if◌then◌else◌, Run, ok, no_fuel, ◌>>=◌, at,
}
use luajit_rs.Base.Int.{pos}
use luajit_rs.Runtime.Table.Values.{Values}
use luajit_rs.Runtime.Table.State.{Table, has_hpart}
use luajit_rs.Runtime.Table.Find.{get_int}

-- The doubling search: `lo` and `hi` around a border, or the length that the linear search found.
pub data Bounds : Type 0 where
  around : ℕ → ℕ → Bounds
  found : ℕ → Bounds

module _ {V : Type 0} (values : Values V) where
  open values use {is_nil}

  -- The binary search between `lo` and `hi`, which both loops make: `read` gives the value at an index.
  unfoldable pub border_loop : ℕ → (ℕ → Run V) → ℕ → ℕ → Run ℕ
  border_loop zero read lo hi = no_fuel
  border_loop (suc fuel) read lo hi =
      let mid = (lo + hi) / 2 in
      let below = border_loop fuel read lo mid in
      let above = border_loop fuel read mid hi in
      if ltb 1 (hi - lo) then (read mid >>= λ v. if is_nil v then below else above) else ok lo

  -- The linear search from `i` on.
  unfoldable pub scan_loop : ℕ → Table V → ℕ → Run ℕ
  unfolding get_int
  scan_loop zero t i = no_fuel
  scan_loop (suc fuel) t i =
      let later = scan_loop fuel t (i + 1) in
      get_int values t (pos i) >>= λ v. if is_nil v then ok (i - 1) else later

  unfoldable pub double_loop : ℕ → ℕ → Table V → ℕ → ℕ → Run Bounds
  unfolding get_int scan_loop
  double_loop zero scan t lo hi = no_fuel
  double_loop (suc fuel) scan t lo hi =
      let later = double_loop fuel scan t hi (2 * hi) in
      get_int values t (pos hi) >>= λ v.
      if is_nil v
      then ok (around lo hi)
      else if ltb ((2 ^ 31 - 1 - 2) / 2) hi
      then (scan_loop scan t 1 >>= λ n. ok (found n))
      else later

  -- The doubling takes at most 31 rounds. The linear search is given `scan` rounds.
  unfoldable pub len_hash : ℕ → Table V → ℕ → Run ℕ
  unfolding double_loop border_loop get_int
  len_hash scan t hi = double_loop 32 scan t hi (hi + 1) >>= λ b. elim b [
    | around lo hi' ↦ border_loop hi' (λ i. get_int values t (pos i)) lo hi'
    | found n ↦ ok n
  ]

  unfoldable pub len_scan : ℕ → Table V → Run ℕ
  unfolding len_hash border_loop has_hpart
  len_scan scan t =
      let hi = t.asize - 1 in
      let rest = if not (has_hpart values t) then ok hi else len_hash scan t hi in
      if ltb 0 hi
      then (at t.array hi >>= λ v.
          if is_nil v then border_loop hi (λ i. at t.array i) 0 hi else rest)
      else rest

  -- A table of fewer than 2 ^ 26 entries has fewer indices in a row.
  unfoldable pub len : Table V → Run ℕ
  unfolding len_scan
  len t = len_scan (2 ^ 26 + 1) t
