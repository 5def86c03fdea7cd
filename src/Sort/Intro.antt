-- ===== src/Sort/Intro.antt =====
-- The introsort of crates/luajit-rs/src/stdlib/sort.rs.
use luajit_rs.Base.{
  ℕ, zero, suc, ◌+◌, ◌-◌, ◌*◌, ◌/◌, ◌^◌, false, ltb, leb, ◌==◌, if◌then◌else◌, length,
}
use luajit_rs.Sort.Exec.{M, ◌>>=◌, ◌>>◌, pure, starve}
use luajit_rs.Sort.Slice.{Compare, sub, read, swap, compare, compare_at}

-- `n.next_power_of_two().trailing_zeros()`: the least `k` with `n <= 2 ^ k`, from `k` on.
unfoldable pub ceil_log2 : ℕ → ℕ → ℕ → ℕ
ceil_log2 zero n k = k
ceil_log2 (suc fuel) n k = let more = ceil_log2 fuel n (k + 1) in if leb n (2 ^ k) then k else more

module _ {S V E : Type 0} (cmp_apply : Compare S V E) where
  abbrev Sorting : Type 0 → Type 0
  Sorting A = M S (ℕ × V) E A

  -- `while j > lo` of `insertion_sort`, at `j = lo + k`
  unfoldable pub sink : ℕ → ℕ → Sorting (Unit {0})
  unfolding compare_at swap
  sink lo zero = pure tt
  sink lo (suc k) = do
    less ← compare_at cmp_apply (lo + suc k) (lo + k)
    if less then (swap (lo + suc k) (lo + k) >> sink lo k) else pure tt

  -- `for i in lo + 1..=hi`, from `i = lo + d` on for `count` rounds
  unfoldable pub insert_from : ℕ → ℕ → ℕ → Sorting (Unit {0})
  unfolding sink
  insert_from lo d zero = pure tt
  insert_from lo d (suc count) = sink lo d >> insert_from lo (d + 1) count

  unfoldable pub insertion_sort : ℕ → ℕ → Sorting (Unit {0})
  unfolding insert_from
  insertion_sort lo hi = insert_from lo 1 (hi - lo)

  -- The loop of `sift_down`, one round for each unit of fuel.
  unfoldable pub sift_loop : ℕ → ℕ → ℕ → ℕ → Sorting (Unit {0})
  unfolding compare_at swap
  sift_loop zero lo n r = starve
  sift_loop (suc fuel) lo n r =
      let left = 2 * r + 1 in
      let right = left + 1 in
      if leb n left
      then pure tt
      else (compare_at cmp_apply (lo + r) (lo + left) >>= λ b.
          (let largest = if b then left else r in
            (if ltb right n then compare_at cmp_apply (lo + largest) (lo + right) else pure false)
            >>= λ b'.
                (let largest' = if b' then right else largest in
                  if largest' == r
                  then pure tt
                  else (swap (lo + r) (lo + largest') >> sift_loop fuel lo n largest'))))

  -- The root moves to a child in each round, so that `n` rounds and one are enough.
  unfoldable pub sift_down : ℕ → ℕ → ℕ → Sorting (Unit {0})
  unfolding sift_loop
  sift_down lo n root = sift_loop (n + 1) lo n root

  -- `for i in (0..count).rev()` of `heapsort`
  unfoldable pub heapify : ℕ → ℕ → ℕ → Sorting (Unit {0})
  unfolding sift_down
  heapify lo n zero = pure tt
  heapify lo n (suc i) = sift_down lo n i >> heapify lo n i

  -- `for i in (1..i + 1).rev()` of `heapsort`
  unfoldable pub drain : ℕ → ℕ → Sorting (Unit {0})
  unfolding sift_down swap
  drain lo zero = pure tt
  drain lo (suc i) = swap lo (lo + suc i) >> sift_down lo (suc i) 0 >> drain lo i

  unfoldable pub heapsort : ℕ → ℕ → Sorting (Unit {0})
  unfolding heapify drain sub
  heapsort lo hi = do width ← sub hi lo; heapify lo (width + 1) ((width + 1) / 2); drain lo width

  -- `while i < j && cmp(items[i], pivot)`, at `i = j - k`; returns `i`
  unfoldable pub scan_up : ℕ → V → ℕ → Sorting ℕ
  unfolding read compare
  scan_up zero pivot i = pure i
  scan_up (suc k) pivot i = do
    v ← read i
    less ← compare cmp_apply v pivot
    if less then scan_up k pivot (i + 1) else pure i

  -- `while j > i && cmp(pivot, items[j])`, at `j = i + k`; returns `j`
  unfoldable pub scan_down : ℕ → V → ℕ → Sorting ℕ
  unfolding read compare sub
  scan_down zero pivot j = pure j
  scan_down (suc k) pivot j = do
    v ← read j
    less ← compare cmp_apply pivot v
    if less then (sub j 1 >>= λ j'. scan_down k pivot j') else pure j

  -- The loop of `partition`, one round for each unit of fuel; returns `i`.
  unfoldable pub partition_loop : ℕ → V → ℕ → ℕ → Sorting ℕ
  unfolding scan_up scan_down swap sub
  partition_loop zero pivot i j = starve
  partition_loop (suc fuel) pivot i j = do
    i' ← scan_up (j - (i + 1)) pivot (i + 1)
    j' ← sub j 1
    j'' ← scan_down (j' - i') pivot j'
    if leb j'' i' then pure i' else (swap i' j'' >> partition_loop fuel pivot i' j'')

  -- `if cmp(items[i], items[j]) { items.swap(j, i) }`
  unfoldable pub order : ℕ → ℕ → Sorting (Unit {0})
  unfolding compare_at swap
  order i j = do less ← compare_at cmp_apply i j; (if less then swap j i else pure tt)

  unfoldable pub partition : ℕ → ℕ → Sorting ℕ
  unfolding order read swap sub partition_loop
  partition lo hi = do
    width ← sub hi lo
    let mid = lo + width / 2
    order mid lo
    order hi lo
    order hi mid
    pivot ← read mid
    last ← sub hi 1
    swap mid last
    i ← partition_loop (width + 1) pivot lo last
    swap i last
    pure i

  -- the two recursive calls of `introsort_impl`, which is `again` at a smaller depth
  unfoldable pub sort_sides : (ℕ → ℕ → Sorting (Unit {0})) → ℕ → ℕ → ℕ → Sorting (Unit {0})
  unfolding sub
  sort_sides again lo hi p = do
    if ltb lo p then (sub p 1 >>= λ p'. again lo p') else pure tt
    if ltb p hi then again (p + 1) hi else pure tt

  -- The depth runs down with the recursion.
  unfoldable pub introsort_impl : ℕ → ℕ → ℕ → Sorting (Unit {0})
  unfolding insertion_sort heapsort partition sort_sides sub
  introsort_impl zero lo hi = do
    width ← sub hi lo
    if ltb width 16 then insertion_sort lo hi else heapsort lo hi
  introsort_impl (suc depth) lo hi = do
    width ← sub hi lo
    if ltb width 16
        then insertion_sort lo hi
        else (partition lo hi >>= λ p. sort_sides (introsort_impl depth) lo hi p)

  unfoldable pub introsort : Sorting (Unit {0})
  unfolding introsort_impl ceil_log2
  introsort l xs =
      let n = length xs in
      if leb n 1 then pure tt l xs else introsort_impl (ceil_log2 n n 0 * 2) 0 (n - 1) l xs
