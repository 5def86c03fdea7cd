-- ===== src/Runtime/Table/Entries.antt =====
-- The entries that `resize` of crates/luajit-rs/src/runtime/table.rs sets again, as lookups see them.
use luajit_rs.Base.{
  ℕ, zero, suc, ◌+◌, ◌-◌, ◌^◌, ◌≤◌, ◌<◌, ◌≡◌, ◌≢◌, inl, inr, refl, sym, ◌∙◌, ap, arith, true, false,
  none, some, List, [], ◌∷◌, ◌==◌, if◌then◌else◌, length, get_or, Run, ok, Bool-cases,
}
use luajit_rs.Base.Int.{pos}
use luajit_rs.Runtime.Table.Values.{Values}
use luajit_rs.Runtime.Table.State.{Node}
use luajit_rs.Runtime.Table.Insert.{dropped, entries}
use luajit_rs.Runtime.Table.Valid.{node_at}
use luajit_rs.Runtime.Table.SetAll.{latest, Entries}

module _ {V : Type 0} (values : Values V) where
  open values use {
    nil, equal, is_nil, number, as_int32_exact, normalize_key, equal_iff, is_nil_iff, int-nil,
    int-number, normalize-number,
  }

  pub equal_refl : (k : V) → equal k k ≡ true
  equal_refl k = (equal_iff k k).1 refl

  pub equal-apart : (k l : V) → k ≢ l → equal k l ≡ false
  equal-apart k l ne = ground (arith, equal_iff k l)

  pub number-injective :
      (m n : ℕ) → m < 2 ^ 31 → n < 2 ^ 31 → number (pos m) ≡ number (pos n) → m ≡ n
  number-injective m n hm hn e =
      let same : some (pos m) ≡ some (pos n) =
        sym (int-number m hm) ∙ ap as_int32_exact e ∙ int-number n hn in
      ground arith

  pub number-keyed : (n : ℕ) → n < 2 ^ 31 → is_nil (number (pos n)) ≡ false
  number-keyed n h = elim (Bool-cases (is_nil (number (pos n)))) [
    | inl e ↦
        let same : none ≡ some (pos n) =
          sym int-nil
          ∙ ap as_int32_exact (sym ((is_nil_iff (number (pos n))).0 e))
          ∙ int-number n h in
        cc
    | inr e ↦ e
  ]

  -- An array's values under their indices: a key that is no index of them is not among them.
  pub dropped-skip :
      (vs : List V) (i : ℕ) (k : V) (d : Run V)
      → ((j : ℕ) → i ≤ j → j < i + length vs → k ≢ number (pos j))
      → latest values (dropped values i vs) k d ≡ d
  unfolding dropped
  dropped-skip [] i k d h = refl
  dropped-skip (v ∷ vs) i k d h =
      let rest =
        λ (d : Run V). dropped-skip vs (i + 1) k d (λ j lo up. h j (omega arith) (omega arith)) in
      elim (Bool-cases (is_nil v)) [
        | inl e ↦ rw e (rest d)
        | inr e ↦
            rw e (
              rw (latest, equal-apart k (number (pos i)) (h i (omega arith) (omega arith)))
                (rest d))
      ]

  pub dropped-at :
      (vs : List V) (i n : ℕ) (d : Run V)
      → i + length vs ≤ 2 ^ 31
      → i ≤ n
      → n < i + length vs
      → latest values (dropped values i vs) (number (pos n)) d
        ≡ (if is_nil (get_or vs (n - i) nil) then d else ok (get_or vs (n - i) nil))
  unfolding dropped
  dropped-at [] i n d le lo up = absurd (omega arith)
  dropped-at (v ∷ vs) i n d le lo up = elim (Bool-cases (n == i)) [
    | inl e ↦
        let same : n ≡ i = ground arith in
        let first : n - i ≡ 0 = omega arith in
        let eq : equal (number (pos n)) (number (pos i)) ≡ true =
          (equal_iff _ _).1 (ap (λ (m : ℕ). number (pos m)) same) in
        let rest = λ (d : Run V). dropped-skip vs (i + 1) (number (pos n)) d (λ j lo' up' q.
          absurd (omega (arith, number-injective n j (omega arith) (omega arith) q))) in
        elim (Bool-cases (is_nil v)) [
          | inl f ↦ rw (first, f) (rest d)
          | inr f ↦ rw (first, f) (rw (latest, eq) (rest (ok v)))
        ]
    | inr e ↦
        let later : n - i ≡ suc (n - (i + 1)) = ground arith in
        let rest =
          λ (d : Run V). dropped-at vs (i + 1) n d (omega arith) (ground arith) (omega arith) in
        let differ : number (pos n) ≢ number (pos i) =
          λ q. ground (arith, number-injective n i (omega arith) (omega arith) q) in
        elim (Bool-cases (is_nil v)) [
          | inl f ↦ rw (later, f) (rest d)
          | inr f ↦
              rw (later, f)
                (rw (latest, equal-apart (number (pos n)) (number (pos i)) differ) (rest d))
        ]
  ]

  -- the keys are numbers
  pub dropped-Entries :
      (vs : List V) (i : ℕ) → i + length vs ≤ 2 ^ 31 → Entries values (dropped values i vs)
  unfolding dropped
  dropped-Entries [] i le = record {}
  dropped-Entries (v ∷ vs) i le =
      let rest = dropped-Entries vs (i + 1) (omega arith) in
      elim (Bool-cases (is_nil v)) [
        | inl e ↦ rw e rest
        | inr e ↦ rw e (number-keyed i (omega arith), normalize-number (pos i), rest)
      ]

  pub entries-absent :
      (nds : List (Node V)) (k : V) (d : Run V)
      → ((j : ℕ)
          → j < length nds
          → (node_at values nds j).key ≡ k
          → is_nil (node_at values nds j).val ≡ true)
      → latest values (entries values nds) k d ≡ d
  unfolding entries
  entries-absent [] k d h = refl
  entries-absent (nd ∷ nds) k d h =
      let rest = λ (d : Run V). entries-absent nds k d (λ j lt. h (suc j) (omega arith)) in
      elim (Bool-cases (is_nil nd.val)) [
        | inl e ↦ rw e (rest d)
        | inr e ↦ rw e (rw (latest, equal-apart k nd.key (λ q. ground (arith, h 0))) (rest d))
      ]

  pub entries-at :
      (nds : List (Node V)) (i : ℕ) (k : V) (d : Run V)
      → i < length nds
      → (node_at values nds i).key ≡ k
      → is_nil (node_at values nds i).val ≡ false
      → ((j : ℕ) → j < length nds → (node_at values nds j).key ≡ k → j ≡ i)
      → latest values (entries values nds) k d ≡ ok (node_at values nds i).val
  unfolding entries
  entries-at [] i k d lt e live one = elim lt [ ]
  entries-at (nd ∷ nds) zero k d lt e live one = rw live (
      rw (latest, (equal_iff k nd.key).1 (sym e))
        (entries-absent nds k (ok nd.val)
          (λ j up q. absurd (omega (arith, one (suc j) (omega arith) q)))))
  entries-at (nd ∷ nds) (suc i) k d lt e live one =
      let rest = λ (d : Run V).
        entries-at nds i k d (omega arith) e live (λ j up q. ground (arith, one (suc j))) in
      elim (Bool-cases (is_nil nd.val)) [
        | inl f ↦ rw f (rest d)
        | inr f ↦ rw f (rw (latest, equal-apart k nd.key (λ q. ground (arith, one 0))) (rest d))
      ]

  pub entries-Entries :
      (nds : List (Node V))
      → ((i : ℕ)
          → is_nil (node_at values nds i).val ≡ false
          → (is_nil (node_at values nds i).key ≡ false)
            × (normalize_key (node_at values nds i).key ≡ (node_at values nds i).key))
      → Entries values (entries values nds)
  unfolding entries
  entries-Entries [] h = record {}
  entries-Entries (nd ∷ nds) h =
      let rest = entries-Entries nds (λ i. h (suc i)) in
      elim (Bool-cases (is_nil nd.val)) [
        | inl e ↦ rw e rest
        | inr e ↦ rw e ((h 0 e).0, (h 0 e).1, rest)
      ]
