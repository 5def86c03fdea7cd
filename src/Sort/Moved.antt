-- ===== src/Sort/Moved.antt =====
-- Slices rearranged within a range of indices.
use mathlib.Core.List.{Perm}
use mathlib.Core.List.Perm
use luajit_rs.Base.{
  ℕ, zero, suc, ◌≤◌, ◌<◌, ◌≡◌, ◌≢◌, refl, sym, ◌∙◌, subst, arith, List, [], ◌∷◌, some, length,
  get_elem?, set, length-set, get_elem?-set_ne, ◌⊎◌, inl, inr,
}

module _ {A : Type 0} where
  -- The same elements, and nothing moved outside `lo..=hi`.
  abbrev pub Moved : ℕ → ℕ → List A → List A → Type 0
  Moved lo hi xs ys =
      Perm xs ys
      × (length ys ≡ length xs)
      × ((k : ℕ) → (k < lo) ⊎ (hi < k) → get_elem? ys k ≡ get_elem? xs k)

  pub Moved-refl : (lo hi : ℕ) (xs : List A) → Moved lo hi xs xs
  Moved-refl lo hi xs = (Perm.refl xs, refl, λ k out. refl)

  pub Moved-trans :
      {lo hi : ℕ} {xs ys zs : List A} → Moved lo hi xs ys → Moved lo hi ys zs → Moved lo hi xs zs
  Moved-trans (p, e, u) (q, f, v) = (Perm.trans p q, f ∙ e, λ k out. v k out ∙ u k out)

  some-eq : {x y : A} → some x ≡ some y → x ≡ y
  some-eq e = cc

  exchange_head :
      (xs : List A) (i : ℕ) (x y : A) → get_elem? xs i ≡ some y → Perm (x ∷ xs) (y ∷ set xs i x)
  exchange_head [] i x y h = cc
  exchange_head (z ∷ xs) zero x y h =
      subst (λ t. Perm (x ∷ z ∷ xs) (t ∷ x ∷ xs)) (some-eq h) (Perm.swap z x xs)
  exchange_head (z ∷ xs) (suc i) x y h =
      Perm.trans (Perm.swap z x xs)
        (Perm.trans (Perm.cons z (exchange_head xs i x y h)) (Perm.swap y z (set xs i x)))

  exchange :
      (xs : List A) (i j : ℕ) (x y : A)
      → get_elem? xs i ≡ some x
      → get_elem? xs j ≡ some y
      → Perm xs (set (set xs i y) j x)
  exchange [] i j x y hi hj = cc
  exchange (z ∷ xs) zero zero x y hi hj =
      subst (λ t. Perm (z ∷ xs) (t ∷ xs)) (some-eq hi) (Perm.refl (z ∷ xs))
  exchange (z ∷ xs) zero (suc j) x y hi hj =
      subst (λ t. Perm (t ∷ xs) (y ∷ set xs j x)) (sym (some-eq hi)) (exchange_head xs j x y hj)
  exchange (z ∷ xs) (suc i) zero x y hi hj =
      subst (λ t. Perm (t ∷ xs) (x ∷ set xs i y)) (sym (some-eq hj)) (exchange_head xs i y x hi)
  exchange (z ∷ xs) (suc i) (suc j) x y hi hj = Perm.cons z (exchange xs i j x y hi hj)

  pub exchange-Moved :
      (lo hi : ℕ) (xs : List A) (i j : ℕ) (x y : A)
      → (lo ≤ i) × (i ≤ hi)
      → (lo ≤ j) × (j ≤ hi)
      → get_elem? xs i ≡ some x
      → get_elem? xs j ≡ some y
      → Moved lo hi xs (set (set xs i y) j x)
  exchange-Moved lo hi xs i j x y hi' hj' gi gj = (
    exchange xs i j x y gi gj,
    length-set (set xs i y) j x ∙ length-set xs i y,
    λ k out.
        get_elem?-set_ne (set xs i y) j k x (λ e. apart j k hj' out e)
        ∙ get_elem?-set_ne xs i k y (λ e. apart i k hi' out e),
  )
    where
      apart : (i k : ℕ) → (lo ≤ i) × (i ≤ hi) → (k < lo) ⊎ (hi < k) → i ≢ k
      apart i k h (inl l) e = absurd (omega arith)
      apart i k h (inr l) e = absurd (omega arith)
