-- ===== src/Runtime/Table/Border.antt =====
-- The searches of crates/luajit-rs/src/runtime/table.rs for a border.
use luajit_rs.Base.{
  ℕ, zero, suc, ◌+◌, ◌-◌, ◌/◌, ◌≤◌, ◌<◌, ◌≡◌, ◌⊎◌, inl, inr, refl, sym, subst, arith, true, false,
  ltb, Bool-cases, Run, ok, ◌>>=◌, Returns,
}
use luajit_rs.Runtime.Table.Values.{Values}
use luajit_rs.Runtime.Table.Length.{border_loop}

module _ {V : Type 0} (values : Values V) where
  open values use {is_nil}

  -- The values stop at `r`, from `lo` on and before `hi`, whose own values do not matter.
  abbrev pub Stops : (ℕ → V) → ℕ → ℕ → ℕ → Type 0
  Stops f lo hi r =
      (lo ≤ r)
      × (r < hi)
      × ((r ≡ lo) ⊎ (is_nil (f r) ≡ false))
      × ((r + 1 ≡ hi) ⊎ (is_nil (f (r + 1)) ≡ true))

  -- Within `hi - lo` rounds the binary search ends at a place between `lo` and `hi` where the values stop.
  pub border_loop_lem :
      (f : ℕ → V) (read : ℕ → Run V) (fuel lo hi : ℕ)
      → ((i : ℕ) → lo < i → i < hi → read i ≡ ok (f i))
      → lo < hi
      → hi ≤ lo + fuel
      → Returns (border_loop values fuel read lo hi) (Stops f lo hi)
  unfolding border_loop
  border_loop_lem f read zero lo hi total lt le = absurd (omega arith)
  border_loop_lem f read (suc fuel) lo hi total lt le = elim (Bool-cases (ltb 1 (hi - lo))) [
    | inr e ↦ rw e (lo, refl, (omega arith, omega arith, inl refl, inl (ground arith)))
    | inl e ↦
        let mid = (lo + hi) / 2 in
        let above : lo < mid = ground arith in
        let below : mid < hi = ground arith in
        elim (Bool-cases (is_nil (f mid))) [
          | inl dead ↦
              let (r, run, s) =
                border_loop_lem f read fuel lo mid (λ i a b. total i a (omega arith)) above
                  (omega arith) in
              rw (e, total mid above below, ◌>>=◌, dead)
                (
                  r,
                  run,
                  (
                    s.0,
                    omega (arith, s.1),
                    s.2,
                    elim s.3 [
                      | inl e' ↦ inr (subst (λ (j : ℕ). is_nil (f j) ≡ true) (sym e') dead)
                      | inr d ↦ inr d
                    ],
                  ),
                )
          | inr live ↦
              let (r, run, s) =
                border_loop_lem f read fuel mid hi (λ i a b. total i (omega arith) b) below
                  (omega arith) in
              rw (e, total mid above below, ◌>>=◌, live)
                (
                  r,
                  run,
                  (
                    omega (arith, s.0),
                    s.1,
                    elim s.2 [
                      | inl e' ↦ inr (subst (λ (j : ℕ). is_nil (f j) ≡ false) (sym e') live)
                      | inr l ↦ inr l
                    ],
                    s.3,
                  ),
                )
        ]
  ]
