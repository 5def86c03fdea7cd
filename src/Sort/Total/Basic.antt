-- ===== src/Sort/Total/Basic.antt =====
-- The reads, swaps and comparisons of crates/luajit-rs/src/stdlib/sort.rs, in range.
use luajit_rs.Base.{
  ℕ, ◌-◌, ◌≤◌, ◌<◌, ◌≡◌, refl, arith, Bool, List, some, length, get_elem?, get_elem?-lt, ltb, ◌⊎◌,
  inl, inr,
}
use luajit_rs.Sort.Exec.{ret, raised, pure, crash}
use luajit_rs.Sort.Slice.{Compare, sub, read, swap, compare, compare_at}
use luajit_rs.Sort.Moved.{Moved, Moved-trans, exchange-Moved}
use luajit_rs.Sort.Total.Ends.{Ends, returns, raises, Keeps, Keeps-bind, Keeps-pure, Keeps-if}

-- nothing is said of a value
abbrev pub Any : {A : Type 0} → A → Type 0
Any a = Unit {0}

module _ {S I E : Type 0} {R : List I → Type 0} where
  pub sub-Keeps : (a b : ℕ) → b ≤ a → Keeps R (λ c. c ≡ a - b) (sub {S = S} {I = I} {E = E} a b)
  unfolding sub
  sub-Keeps a b le =
      Keeps-if (ltb a b) crash (pure (a - b)) (λ e. absurd (ground arith))
        (λ e. Keeps-pure (a - b) refl)

module _ {V : Type 0} (bot top : ℕ) (start : List (ℕ × V)) (fits : top < length start) where
  -- the slice is the one at the start, rearranged within the range
  abbrev pub R : List (ℕ × V) → Type 0
  R xs = Moved bot top start xs

  found_at : (xs : List (ℕ × V)) (i : ℕ) → R xs → i ≤ top → (x : ℕ × V) × (get_elem? xs i ≡ some x)
  found_at xs i (p, e, u) h = get_elem?-lt xs i (omega (arith, fits, e))

  module _ {S E : Type 0} where
    pub read-Keeps : (i : ℕ) → i ≤ top → Keeps R Any (read {S = S} {V = V} {E = E} i)
    unfolding read
    read-Keeps i h l xs r = let (x, e) = found_at xs i r h in rw (e, read) (returns r tt)

    pub swap-Keeps :
        (i j : ℕ)
        → (bot ≤ i) × (i ≤ top)
        → (bot ≤ j) × (j ≤ top)
        → Keeps R Any (swap {S = S} {I = ℕ × V} {E = E} i j)
    unfolding swap
    swap-Keeps i j hi hj l xs r =
        let (x, ei) = found_at xs i r hi.1 in
        let (y, ej) = found_at xs j r hj.1 in
        rw (ei, ej, swap)
          (returns (Moved-trans r (exchange-Moved bot top xs i j x y hi hj ei ej)) tt)

  module _ {S E : Type 0} (cmp_apply : Compare S V E) where
    pub compare-Keeps : (a b : V) → Keeps R Any (compare cmp_apply a b)
    unfolding compare
    compare-Keeps a b l xs r = answered (cmp_apply l a b)
      where
        answered :
            (p : S × (E ⊎ Bool))
            → Ends R Any (
                let (l', answer) = p in
                elim answer [ inl e ↦ raised e l' xs | inr less ↦ ret less l' xs ])
        answered (l', inl e) = raises r
        answered (l', inr less) = returns r tt

    pub compare_at-Keeps : (i j : ℕ) → i ≤ top → j ≤ top → Keeps R Any (compare_at cmp_apply i j)
    unfolding compare_at
    compare_at-Keeps i j hi hj =
        Keeps-bind (read i) _ (read-Keeps i hi)
          (λ a _. Keeps-bind (read j) _ (read-Keeps j hj) (λ b _. compare-Keeps a b))
