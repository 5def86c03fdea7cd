-- ===== src/Sort/Total/Introsort.antt =====
-- `introsort` of crates/luajit-rs/src/stdlib/sort.rs and its parts, on every comparison.
use mathlib.Core.List.{Perm}
use mathlib.Core.List.Perm
use luajit_rs.Base.{ℕ, ◌+◌, ◌-◌, ◌≤◌, ◌<◌, arith, Bool-cases, List, length, leb, inl, inr}
use luajit_rs.Sort.Exec.{Exec}
use luajit_rs.Sort.Slice.{Compare}
use luajit_rs.Sort.Intro.{partition, introsort_impl, introsort, heapsort}
use luajit_rs.Sort.Moved.{Moved, Moved-refl}
use luajit_rs.Sort.Total.Ends.{Ends, returns, raises}
use luajit_rs.Sort.Total.Basic.{Any}
use luajit_rs.Sort.Total.Partition.{partition-Keeps}
use luajit_rs.Sort.Total.Sorts.{introsort_impl-Keeps, heapsort-Keeps}

module _ {S V E : Type 0} (cmp_apply : Compare S V E) where
  -- For every comparison, whatever it answers and even where it raises an error, `partition` on a
  -- range of at least four elements of the slice ends without a panic. It rearranges this range only,
  -- and the place of the pivot that it returns is strictly inside the range.
  pub partition-inside :
      (l : S) (items : List (ℕ × V)) (lo hi : ℕ)
      → lo + 2 < hi
      → hi < length items
      → Ends (Moved lo hi items) (λ p. (lo < p) × (p < hi)) (partition cmp_apply lo hi l items)
  partition-inside l items lo hi wide fits =
      partition-Keeps cmp_apply lo hi items fits lo hi (omega arith) (omega arith) wide l items
        (Moved-refl lo hi items)

  -- For every comparison and every depth, the sort of a range of the slice ends without a panic and
  -- rearranges this range only; so does the heapsort that it falls back to.
  pub introsort_impl-Moved :
      (depth : ℕ) (l : S) (items : List (ℕ × V)) (lo hi : ℕ)
      → lo ≤ hi
      → hi < length items
      → Ends (Moved lo hi items) Any (introsort_impl cmp_apply depth lo hi l items)
        × Ends (Moved lo hi items) Any (heapsort cmp_apply lo hi l items)
  introsort_impl-Moved depth l items lo hi le fits = (
    introsort_impl-Keeps cmp_apply lo hi items fits depth lo hi (omega arith) le (omega arith) l
        items (Moved-refl lo hi items),
    heapsort-Keeps cmp_apply lo hi items fits lo hi (omega arith) le (omega arith) l items
        (Moved-refl lo hi items),
  )

  -- For every comparison, even one that is no order or raises an error, and every slice, `introsort`
  -- ends without a panic, and the slice is then a permutation of the one at the start.
  pub introsort-Perm :
      (l : S) (items : List (ℕ × V)) → Ends (λ xs. Perm items xs) Any (introsort cmp_apply l items)
  unfolding introsort
  introsort-Perm l items = elim (Bool-cases (leb (length items) 1)) [
    | inl short ↦ rw short (returns (Perm.refl items) tt)
    | inr long ↦ rw long (
        permuted _
          (introsort_impl-Moved _ l items 0 (length items - 1) (omega arith) (ground arith)).0)
  ]
    where
      permuted :
          (e : Exec S (ℕ × V) E (Unit {0}))
          → Ends (Moved 0 (length items - 1) items) Any e
          → Ends (λ xs. Perm items xs) Any e
      permuted (Exec.ret a l' xs) (returns r q) = returns r.0 q
      permuted (Exec.raised e l' xs) (raises r) = raises r.0
      permuted Exec.panicked h = elim h [ ]
      permuted Exec.out_of_fuel h = elim h [ ]
