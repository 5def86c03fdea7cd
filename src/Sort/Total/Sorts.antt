-- ===== src/Sort/Total/Sorts.antt =====
-- The three sorts of crates/luajit-rs/src/stdlib/sort.rs, on every comparison.
use luajit_rs.Base.{
  ℕ, zero, suc, ◌+◌, ◌-◌, ◌*◌, ◌/◌, ◌≤◌, ◌<◌, ◌≡◌, refl, arith, ltb→lt, Bool, true, false, List,
  length, leb, ltb, ◌==◌, if◌then◌else◌,
}
use luajit_rs.Sort.Exec.{M}
use luajit_rs.Sort.Slice.{Compare}
use luajit_rs.Sort.Intro.{
  sink, insert_from, insertion_sort, sift_loop, sift_down, heapify, drain, heapsort, sort_sides,
  introsort_impl,
}
use luajit_rs.Sort.Moved.{Moved}
use luajit_rs.Sort.Total.Ends.{Keeps, Keeps-bind, Keeps-pure, Keeps-if, Keeps-weaken}
use luajit_rs.Sort.Total.Basic.{Any, sub-Keeps, swap-Keeps, compare_at-Keeps}
use luajit_rs.Sort.Total.Partition.{partition-Keeps}

module _ {S V E : Type 0} (cmp_apply : Compare S V E) (bot top : ℕ) (start : List (ℕ × V))
    (fits : top < length start) where
  abbrev Safe : M S (ℕ × V) E (Unit {0}) → Type 0
  Safe m = Keeps (Moved bot top start) Any m

  sink-Keeps : (lo k : ℕ) → bot ≤ lo → lo + k ≤ top → Safe (sink cmp_apply lo k)
  unfolding sink
  sink-Keeps lo zero h h' = Keeps-pure tt tt
  sink-Keeps lo (suc k) h h' =
      Keeps-bind _ _
        (compare_at-Keeps bot top start fits cmp_apply (lo + suc k) (lo + k) h' (omega arith))
        (λ less _.
          Keeps-if less _ _
            (λ _.
              Keeps-bind _ _
                (swap-Keeps bot top start fits (lo + suc k) (lo + k) (omega arith) (omega arith))
                (λ _ _. sink-Keeps lo k h (omega arith)))
            (λ _. Keeps-pure tt tt))

  insert_from-Keeps :
      (lo d count : ℕ)
      → bot ≤ lo
      → lo + d + count ≤ suc top
      → Safe (insert_from cmp_apply lo d count)
  unfolding insert_from
  insert_from-Keeps lo d zero h h' = Keeps-pure tt tt
  insert_from-Keeps lo d (suc count) h h' =
      Keeps-bind _ _ (sink-Keeps lo d h (omega arith))
        (λ _ _. insert_from-Keeps lo (d + 1) count h (omega arith))

  insertion_sort-Keeps :
      (lo hi : ℕ) → bot ≤ lo → lo ≤ hi → hi ≤ top → Safe (insertion_sort cmp_apply lo hi)
  unfolding insertion_sort
  insertion_sort-Keeps lo hi h le h' = insert_from-Keeps lo 1 (hi - lo) h (omega arith)

  abbrev largest : ℕ → Bool → ℕ
  largest r b = if b then 2 * r + 1 else r

  abbrev largest' : ℕ → Bool → Bool → ℕ
  largest' r b b' = if b' then 2 * r + 1 + 1 else largest r b

  largest-lt : (n r : ℕ) (b : Bool) → 2 * r + 1 < n → largest r b < n
  largest-lt n r true h = h
  largest-lt n r false h = omega arith

  -- the root moves down, within the heap
  largest'-lt :
      (n r : ℕ) (b b' : Bool)
      → 2 * r + 1 < n
      → (b' ≡ true → 2 * r + 1 + 1 < n)
      → (largest' r b b' == r) ≡ false
      → (r < largest' r b b') × (largest' r b b' < n)
  largest'-lt n r b true h h' e = (omega arith, h' refl)
  largest'-lt n r true false h h' e = omega arith
  largest'-lt n r false false h h' e = absurd (ground arith)

  sift_loop-Keeps :
      (fuel lo n r : ℕ)
      → bot ≤ lo
      → lo + n ≤ suc top
      → r < n
      → n ≤ r + fuel
      → Safe (sift_loop cmp_apply fuel lo n r)
  unfolding sift_loop
  sift_loop-Keeps zero lo n r h h' lt enough = absurd (omega arith)
  sift_loop-Keeps (suc fuel) lo n r h h' lt enough =
      Keeps-if (leb n (2 * r + 1)) _ _ (λ _. Keeps-pure tt tt)
        (λ inside.
          Keeps-bind _ _
            (compare_at-Keeps bot top start fits cmp_apply (lo + r) (lo + (2 * r + 1)) (omega arith)
              (ground arith))
            (λ b _.
              Keeps-bind _ _
                (Keeps-if {Q = λ b'. b' ≡ true → 2 * r + 1 + 1 < n} (ltb (2 * r + 1 + 1) n) _ _
                  (λ right.
                    Keeps-weaken _
                      (compare_at-Keeps bot top start fits cmp_apply (lo + largest r b)
                        (lo + (2 * r + 1 + 1)) (omega (arith, largest-lt n r b (ground arith)))
                        (ground arith))
                      (λ b' _ _. ltb→lt _ _ right))
                  (λ _. Keeps-pure false (λ e. cc)))
                (λ b' right.
                  Keeps-if (largest' r b b' == r) _ _ (λ _. Keeps-pure tt tt)
                    (λ moved.
                      let (up, below) = largest'-lt n r b b' (ground arith) right moved in
                      Keeps-bind _ _
                        (swap-Keeps bot top start fits (lo + r) (lo + largest' r b b') (omega arith)
                          (omega arith))
                        (λ _ _.
                          sift_loop-Keeps fuel lo n (largest' r b b') h h' below (omega arith))))))

  sift_down-Keeps :
      (lo n root : ℕ)
      → bot ≤ lo
      → lo + n ≤ suc top
      → root < n
      → Safe (sift_down cmp_apply lo n root)
  unfolding sift_down
  sift_down-Keeps lo n root h h' lt = sift_loop-Keeps (n + 1) lo n root h h' lt (omega arith)

  heapify-Keeps :
      (lo n count : ℕ)
      → bot ≤ lo
      → lo + n ≤ suc top
      → count ≤ n
      → Safe (heapify cmp_apply lo n count)
  unfolding heapify
  heapify-Keeps lo n zero h h' le = Keeps-pure tt tt
  heapify-Keeps lo n (suc i) h h' le =
      Keeps-bind _ _ (sift_down-Keeps lo n i h h' (omega arith))
        (λ _ _. heapify-Keeps lo n i h h' (omega arith))

  drain-Keeps : (lo i : ℕ) → bot ≤ lo → lo + i ≤ top → Safe (drain cmp_apply lo i)
  unfolding drain
  drain-Keeps lo zero h h' = Keeps-pure tt tt
  drain-Keeps lo (suc i) h h' =
      Keeps-bind _ _
        (Keeps-bind _ _ (swap-Keeps bot top start fits lo (lo + suc i) (omega arith) (omega arith))
          (λ _ _. sift_down-Keeps lo (suc i) 0 h (omega arith) (omega arith)))
        (λ _ _. drain-Keeps lo i h (omega arith))

  pub heapsort-Keeps : (lo hi : ℕ) → bot ≤ lo → lo ≤ hi → hi ≤ top → Safe (heapsort cmp_apply lo hi)
  unfolding heapsort
  heapsort-Keeps lo hi h le h' = Keeps-bind _ _ (sub-Keeps hi lo le) (λ width w.
      Keeps-bind _ _ (heapify-Keeps lo (width + 1) ((width + 1) / 2) h (omega arith) (omega arith))
        (λ _ _. drain-Keeps lo width h (omega arith)))

  sort_sides-Keeps :
      (again : ℕ → ℕ → M S (ℕ × V) E (Unit {0}))
      → ((lo hi : ℕ) → bot ≤ lo → lo ≤ hi → hi ≤ top → Safe (again lo hi))
      → (lo hi p : ℕ) → bot ≤ lo
      → hi ≤ top
      → (lo < p) × (p < hi)
      → Safe (sort_sides cmp_apply again lo hi p)
  unfolding sort_sides
  sort_sides-Keeps again ih lo hi p h h' within =
      Keeps-bind _ _
        (Keeps-if (ltb lo p) _ _
          (λ _.
            Keeps-bind _ _ (sub-Keeps p 1 (omega arith))
              (λ p' e. ih lo p' h (omega arith) (omega arith)))
          (λ _. Keeps-pure tt tt))
        (λ _ _.
          Keeps-if (ltb p hi) _ _ (λ _. ih (p + 1) hi (omega arith) (omega arith) h')
            (λ _. Keeps-pure tt tt))

  pub introsort_impl-Keeps :
      (depth lo hi : ℕ)
      → bot ≤ lo
      → lo ≤ hi
      → hi ≤ top
      → Safe (introsort_impl cmp_apply depth lo hi)
  unfolding introsort_impl
  introsort_impl-Keeps zero lo hi h le h' = Keeps-bind _ _ (sub-Keeps hi lo le) (λ width _.
      Keeps-if (ltb width 16) _ _ (λ _. insertion_sort-Keeps lo hi h le h')
        (λ _. heapsort-Keeps lo hi h le h'))
  introsort_impl-Keeps (suc depth) lo hi h le h' = Keeps-bind _ _ (sub-Keeps hi lo le) (λ width w.
      Keeps-if (ltb width 16) _ _ (λ _. insertion_sort-Keeps lo hi h le h')
        (λ wide.
          Keeps-bind _ _ (partition-Keeps cmp_apply bot top start fits lo hi h h' (ground arith))
            (λ p within. sort_sides-Keeps _ (introsort_impl-Keeps depth) lo hi p h h' within)))
