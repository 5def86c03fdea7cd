-- ===== src/Sort/Slice.antt =====
-- What sort.rs does to its slice: reads, swaps and comparisons.
use luajit_rs.Base.{
  ℕ, ◌-◌, Bool, List, Option, none, some, ltb, if◌then◌else◌, get_elem?, set, ◌⊎◌, inl, inr,
}
use luajit_rs.Sort.Exec.{M, ret, raised, panicked, ◌>>=◌, pure, crash}

-- The outcome of a comparison: the Lua state behind it, and an error or the answer.
abbrev pub Compare : Type 0 → Type 0 → Type 0 → Type 0
Compare S V E = S → V → V → S × (E ⊎ Bool)

-- `a - b` on usize
unfoldable pub sub : {S I E : Type 0} → ℕ → ℕ → M S I E ℕ
sub a b = if ltb a b then crash else pure (a - b)

-- `items[i].1`
unfoldable pub read : {S V E : Type 0} → ℕ → M S (ℕ × V) E V
read i l xs = elim (get_elem? xs i) [ none ↦ panicked | some item ↦ ret item.1 l xs ]

abbrev pub exchanged : {A : Type 0} → Option A → Option A → ℕ → ℕ → List A → Option (List A)
exchanged (some x) (some y) i j xs = some (set (set xs i y) j x)
exchanged none _ i j xs = none
exchanged (some x) none i j xs = none

-- `items.swap(i, j)`
unfoldable pub swap : {S I E : Type 0} → ℕ → ℕ → M S I E (Unit {0})
swap i j l xs = elim (exchanged (get_elem? xs i) (get_elem? xs j) i j xs) [
  | none ↦ panicked
  | some ys ↦ ret tt l ys
]

-- `cmp_apply(l, comp, a, b)?`
unfoldable pub compare : {S V E : Type 0} → Compare S V E → V → V → M S (ℕ × V) E Bool
compare cmp_apply a b l xs =
    let (l', answer) = cmp_apply l a b in
    elim answer [ inl e ↦ raised e l' xs | inr less ↦ ret less l' xs ]

-- `cmp_apply(l, comp, items[i].1, items[j].1)?`
unfoldable pub compare_at : {S V E : Type 0} → Compare S V E → ℕ → ℕ → M S (ℕ × V) E Bool
unfolding read compare
compare_at cmp_apply i j = read i >>= λ a. read j >>= λ b. compare cmp_apply a b
