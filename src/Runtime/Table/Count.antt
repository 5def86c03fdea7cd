-- ===== src/Runtime/Table/Count.antt =====
-- The sizing of crates/luajit-rs/src/runtime/table.rs: integer keys are counted in buckets by powers
-- of two, and the array part gets the size 2 * 2 ^ b + 1 for the last bin `b` up to which there are more
-- than 2 ^ b / 2 keys.
use luajit_rs.Base.{
  ℕ, zero, suc, ◌+◌, ◌-◌, ◌*◌, ◌^◌, not, ◌&&◌, Option, none, some, List, [], ◌∷◌, ltb, leb, ◌==◌,
  if◌then◌else◌, get_or, set, take, drop, replicate, Run, ok, panic,
}
use luajit_rs.Base.Int.{pos, negsuc}
use luajit_rs.Runtime.Table.Values.{Values}
use luajit_rs.Runtime.Table.State.{max_abits, max_asize, Node, Table, fls, has_hpart}

-- `bins[b] += n`; the callers pass a `b` below the number of bins, past which the source panics
unfoldable pub bump : List ℕ → ℕ → ℕ → List ℕ
bump bins b n = set bins b (get_or bins b 0 + n)

abbrev pub no_bins : List ℕ
no_bins = replicate max_abits 0

-- The loop of `best_asize`, over the bins from `b` on, with `sum`, `na` and `sz`: the number of keys
-- in the array and its size. A bin past the last is out of bounds.
-- The source counts in u32, where no sum and no double wraps below 2 ^ 31 keys.
unfoldable pub best_loop : List ℕ → ℕ → ℕ → ℕ → ℕ → ℕ → Run (ℕ × ℕ)
best_loop [] nn b sum na sz = if ltb (2 ^ b) (2 * nn) && not (sum == nn) then panic else ok (na, sz)
best_loop (bin ∷ bins) nn b sum na sz =
    let empty = best_loop bins nn (b + 1) sum na sz in
    let enough = best_loop bins nn (b + 1) (sum + bin) (sum + bin) (2 * 2 ^ b + 1) in
    let sparse = best_loop bins nn (b + 1) (sum + bin) na sz in
    if ltb (2 ^ b) (2 * nn) && not (sum == nn)
    then (if ltb 0 bin then (if ltb (2 ^ b) (2 * (sum + bin)) then enough else sparse) else empty)
    else ok (na, sz)

unfoldable pub best_asize : List ℕ → ℕ → Run (ℕ × ℕ)
unfolding best_loop
best_asize bins narray = best_loop bins narray 0 0 0 0

module _ {V : Type 0} (values : Values V) where
  open values use {is_nil, as_int32_exact}

  unfoldable pub count_values : List V → ℕ
  count_values [] = 0
  count_values (v ∷ vs) = if is_nil v then count_values vs else suc (count_values vs)

  -- The loop of `count_array` over the buckets from `b` on, with `na` and the bins; the list is
  -- `array[i..]`, and the array is `asize` long.
  unfoldable pub count_buckets : ℕ → ℕ → ℕ → List V → ℕ → ℕ → List ℕ → ℕ × List ℕ
  unfolding count_values bump
  count_buckets zero b asize rest i na bins = (na, bins)
  count_buckets (suc buckets) b asize rest i na bins =
      let top = if leb asize (2 * 2 ^ b) then asize - 1 else 2 * 2 ^ b in
      let more = top + 1 - i in
      let n = count_values (take more rest) in
      let on =
        count_buckets buckets (b + 1) asize (drop more rest) (i + more) (na + n) (bump bins b n) in
      if leb asize (2 * 2 ^ b) && ltb top i then (na, bins) else on

  unfoldable pub count_array : Table V → List ℕ → ℕ × List ℕ
  unfolding count_buckets
  count_array t bins =
      if t.asize == 0 then (0, bins) else count_buckets max_abits 0 t.asize t.array 0 0 bins

  -- the bucket of an integer key
  unfoldable pub bucket : V → Option ℕ
  unfolding fls
  bucket key = elim (as_int32_exact key) [
    | none ↦ none
    | some i ↦ elim i [
      | pos k ↦ if ltb k max_asize then some (if ltb 2 k then fls (k - 1) else 0) else none
      | negsuc k ↦ none
    ]
  ]

  unfoldable pub count_int : V → List ℕ → ℕ × List ℕ
  unfolding bucket bump
  count_int key bins = elim (bucket key) [ none ↦ (0, bins) | some b ↦ (1, bump bins b 1) ]

  -- `total`, `na` and the bins of `count_hash`
  unfoldable pub count_nodes : List (Node V) → List ℕ → ℕ × ℕ × List ℕ
  unfolding count_int
  count_nodes [] bins = (0, 0, bins)
  count_nodes (nd ∷ nds) bins =
      if is_nil nd.val
      then count_nodes nds bins
      else (let (one, bins') = count_int nd.key bins in
          let (total, na, bins'') = count_nodes nds bins' in (suc total, one + na, bins''))

  unfoldable pub count_hash : Table V → List ℕ → ℕ × ℕ × List ℕ
  unfolding count_nodes has_hpart
  count_hash t bins = if has_hpart values t then count_nodes t.node bins else (0, 0, bins)

  -- `total` and the array size of `rehash`, for the extra key
  unfoldable pub count_all : Table V → V → ℕ × ℕ × List ℕ
  unfolding count_array count_hash count_int
  count_all t extra =
      let (in_array, bins) = count_array t no_bins in
      let (total, na, bins') = count_hash t bins in
      let (one, bins'') = count_int extra bins' in
      (1 + in_array + total, in_array + na + one, bins'')
