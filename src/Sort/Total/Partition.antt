-- ===== src/Sort/Total/Partition.antt =====
-- `partition` of crates/luajit-rs/src/stdlib/sort.rs.
use luajit_rs.Base.{ℕ, zero, suc, ◌+◌, ◌-◌, ◌/◌, ◌≤◌, ◌<◌, arith, List, length, leb}
use luajit_rs.Sort.Exec.{M}
use luajit_rs.Sort.Slice.{Compare, sub, read, swap, compare}
use luajit_rs.Sort.Intro.{scan_up, scan_down, partition_loop, order, partition}
use luajit_rs.Sort.Moved.{Moved}
use luajit_rs.Sort.Total.Ends.{Keeps, Keeps-bind, Keeps-pure, Keeps-if, Keeps-weaken}
use luajit_rs.Sort.Total.Basic.{
  Any, sub-Keeps, read-Keeps, swap-Keeps, compare-Keeps, compare_at-Keeps,
}

module _ {S V E : Type 0} (cmp_apply : Compare S V E) (bot top : ℕ) (start : List (ℕ × V))
    (fits : top < length start) where
  abbrev pub K : {A : Type 0} → (A → Type 0) → M S (ℕ × V) E A → Type 0
  K Q m = Keeps (Moved bot top start) Q m

  scan_up-Keeps :
      (k : ℕ) (pivot : V) (i : ℕ)
      → i + k ≤ top
      → K (λ a. (i ≤ a) × (a ≤ i + k)) (scan_up cmp_apply k pivot i)
  unfolding scan_up
  scan_up-Keeps zero pivot i h = Keeps-pure i (omega arith)
  scan_up-Keeps (suc k) pivot i h =
      Keeps-bind (read i) _ (read-Keeps bot top start fits i (omega arith)) (λ v _.
        Keeps-bind (compare cmp_apply v pivot) _
          (compare-Keeps bot top start fits cmp_apply v pivot)
          (λ less _.
            Keeps-if less _ _
              (λ _.
                Keeps-weaken _ (scan_up-Keeps k pivot (i + 1) (omega arith)) (λ a q. omega arith))
              (λ _. Keeps-pure i (omega arith))))

  scan_down-Keeps :
      (k : ℕ) (pivot : V) (j : ℕ)
      → j ≤ top
      → k ≤ j
      → K (λ a. (a ≤ j) × (j ≤ a + k)) (scan_down cmp_apply k pivot j)
  unfolding scan_down
  scan_down-Keeps zero pivot j h le = Keeps-pure j (omega arith)
  scan_down-Keeps (suc k) pivot j h le =
      Keeps-bind (read j) _ (read-Keeps bot top start fits j h) (λ v _.
        Keeps-bind (compare cmp_apply pivot v) _
          (compare-Keeps bot top start fits cmp_apply pivot v)
          (λ less _.
            Keeps-if less _ _
              (λ _. Keeps-bind (sub j 1) _ (sub-Keeps j 1 (omega arith)) (λ j' e.
                Keeps-weaken _ (scan_down-Keeps k pivot j' (omega arith) (omega arith))
                  (λ a q. omega arith)))
              (λ _. Keeps-pure j (omega arith))))

  -- The indices close in on each other: the fuel is enough, and the result lies above `i`.
  partition_loop-Keeps :
      (fuel : ℕ) (pivot : V) (i j : ℕ)
      → bot ≤ i
      → j ≤ top
      → i < j
      → j ≤ i + fuel
      → K (λ p. (i < p) × (p ≤ j)) (partition_loop cmp_apply fuel pivot i j)
  unfolding partition_loop
  partition_loop-Keeps zero pivot i j hi hj lt enough = absurd (omega arith)
  partition_loop-Keeps (suc fuel) pivot i j hi hj lt enough =
      Keeps-bind _ _ (scan_up-Keeps (j - (i + 1)) pivot (i + 1) (omega arith)) (λ i' qi.
        Keeps-bind (sub j 1) _ (sub-Keeps j 1 (omega arith)) (λ j' qj.
          Keeps-bind _ _ (scan_down-Keeps (j' - i') pivot j' (omega arith) (omega arith)) (λ j'' q.
            Keeps-if (leb j'' i') _ _ (λ _. Keeps-pure i' (omega arith))
              (λ e.
                Keeps-bind (swap i' j'') _
                  (swap-Keeps bot top start fits i' j'' (ground arith) (ground arith))
                  (λ _ _.
                    Keeps-weaken _
                      (partition_loop-Keeps fuel pivot i' j'' (omega arith) (omega arith)
                        (ground arith) (ground arith))
                      (λ p r. omega arith))))))

  order-Keeps :
      (i j : ℕ) → (bot ≤ i) × (i ≤ top) → (bot ≤ j) × (j ≤ top) → K Any (order cmp_apply i j)
  unfolding order
  order-Keeps i j hi hj =
      Keeps-bind _ _ (compare_at-Keeps bot top start fits cmp_apply i j hi.1 hj.1) (λ less _.
        Keeps-if less _ _ (λ _. swap-Keeps bot top start fits j i hj hi) (λ _. Keeps-pure tt tt))

  pub partition-Keeps :
      (lo hi : ℕ)
      → bot ≤ lo
      → hi ≤ top
      → lo + 2 < hi
      → K (λ p. (lo < p) × (p < hi)) (partition cmp_apply lo hi)
  unfolding partition
  partition-Keeps lo hi hlo hhi wide =
      Keeps-bind (sub hi lo) _ (sub-Keeps hi lo (omega arith)) (λ width w.
        Keeps-bind _ _ (order-Keeps (lo + width / 2) lo (omega arith) (omega arith)) (λ _ _.
          Keeps-bind _ _ (order-Keeps hi lo (omega arith) (omega arith)) (λ _ _.
            Keeps-bind _ _ (order-Keeps hi (lo + width / 2) (omega arith) (omega arith)) (λ _ _.
              Keeps-bind _ _ (read-Keeps bot top start fits (lo + width / 2) (omega arith))
                (λ pivot _. Keeps-bind _ _ (sub-Keeps hi 1 (omega arith)) (λ last q.
                  Keeps-bind _ _
                    (swap-Keeps bot top start fits (lo + width / 2) last (omega arith)
                      (omega arith))
                    (λ _ _.
                      Keeps-bind _ _
                        (partition_loop-Keeps (width + 1) pivot lo last hlo (omega arith)
                          (omega arith) (omega arith))
                        (λ p r.
                          Keeps-bind _ _
                            (swap-Keeps bot top start fits p last (omega arith) (omega arith))
                            (λ _ _. Keeps-pure p (omega arith))))))))))
