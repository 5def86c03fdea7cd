-- ===== src/Sort/Tests.antt =====
-- Runs of the sort on small slices.
use mathlib.Core.List.{Perm}
use luajit_rs.Base.{
  ℕ, ◌+◌, ◌<◌, ◌≡◌, refl, arith, ltb, if◌then◌else◌, List, [], ◌∷◌, ◌==◌, inl, inr,
}
use luajit_rs.Sort.Exec.{Exec, ret, raised, panicked, out_of_fuel}
use luajit_rs.Sort.Slice.{Compare, sub, read, swap, compare, compare_at}
use luajit_rs.Sort.Intro.{
  sink, insert_from, insertion_sort, sift_loop, sift_down, heapify, drain, heapsort, scan_up,
  scan_down, partition_loop, order, partition, sort_sides, introsort_impl, introsort, ceil_log2,
}
use luajit_rs.Sort.Moved.{Moved}
use luajit_rs.Sort.Total.Ends.{Ends}
use luajit_rs.Sort.Total.Basic.{Any}
use luajit_rs.Sort.Total.Introsort.{partition-inside, introsort_impl-Moved, introsort-Perm}

-- Compare numbers, count the calls, and raise at 13.
abbrev numbers : Compare ℕ ℕ ℕ
numbers l a b = (l + 1, if a == 13 then inl 7 else inr (ltb a b))

abbrev values : Exec ℕ (ℕ × ℕ) ℕ (Unit {0}) → List ℕ
values (ret a l xs) = seconds xs
  where
    seconds : List (ℕ × ℕ) → List ℕ
    seconds [] = []
    seconds (x ∷ xs) = x.1 ∷ seconds xs
values (raised e l xs) = e ∷ []
values panicked = []
values out_of_fuel = []

abbrev items_of : List ℕ → List (ℕ × ℕ)
items_of [] = []
items_of (x ∷ xs) = (0, x) ∷ items_of xs

abbrev twenty : List (ℕ × ℕ)
twenty =
    items_of
      (9 ∷ 2 ∷ 17 ∷ 5 ∷ 11 ∷ 1 ∷ 20 ∷ 8 ∷ 3 ∷ 15 ∷ 6 ∷ 19 ∷ 4 ∷ 12 ∷ 18 ∷ 7 ∷ 10 ∷ 16 ∷ 14 ∷ 0 ∷ [])

abbrev sorted : List ℕ
sorted =
    0 ∷ 1 ∷ 2 ∷ 3 ∷ 4 ∷ 5 ∷ 6 ∷ 7 ∷ 8 ∷ 9 ∷ 10 ∷ 11 ∷ 12 ∷ 14 ∷ 15 ∷ 16 ∷ 17 ∷ 18 ∷ 19 ∷ 20 ∷ []

-- the code that the runs unfold
sorting : Unit {0}
unfolding sub read swap compare compare_at sink insert_from insertion_sort sift_loop sift_down
    heapify drain heapsort scan_up scan_down partition_loop order partition sort_sides
    introsort_impl introsort ceil_log2
sorting = tt

introsort-twenty : values (introsort numbers 0 twenty) ≡ sorted
unfolding sorting
introsort-twenty = refl

heapsort-twenty : values (heapsort numbers 0 19 0 twenty) ≡ sorted
unfolding sorting
heapsort-twenty = refl

introsort-raises : values (introsort numbers 0 (items_of (2 ∷ 13 ∷ 1 ∷ []))) ≡ 7 ∷ []
unfolding sorting
introsort-raises = refl

partition-inside_example :
    Ends (Moved 0 19 twenty) (λ p. (0 < p) × (p < 19)) (partition numbers 0 19 0 twenty)
partition-inside_example = partition-inside numbers 0 twenty 0 19 (omega arith) (omega arith)

introsort_impl-Moved_example :
    Ends (Moved 2 19 twenty) Any (introsort_impl numbers 1 2 19 0 twenty)
    × Ends (Moved 2 19 twenty) Any (heapsort numbers 2 19 0 twenty)
introsort_impl-Moved_example =
    introsort_impl-Moved numbers 1 0 twenty 2 19 (omega arith) (omega arith)

introsort-Perm_example : Ends (λ xs. Perm twenty xs) Any (introsort numbers 0 twenty)
introsort-Perm_example = introsort-Perm numbers 0 twenty
