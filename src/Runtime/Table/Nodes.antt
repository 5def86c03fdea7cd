-- ===== src/Runtime/Table/Nodes.antt =====
-- The node vector of crates/luajit-rs/src/runtime/table.rs as a function from indices, and how many
-- of its nodes have a key.
use luajit_rs.Base.{
  ℕ, zero, suc, ◌+◌, ◌≤◌, ◌<◌, ◌≡◌, refl, ◌∙◌, ap, fun_ext, arith, Bool, true, false, List, [], ◌∷◌,
  ◌==◌, if◌then◌else◌, length, length-set, get_or, set, replicate, ok, at,
}
use luajit_rs.Runtime.Table.State.{Node}
use luajit_rs.Runtime.Table.Chains.{write}

module _ {ℓ} {A : Type ℓ} where
  pub get_or-set :
      (xs : List A) (i j : ℕ) (x d : A)
      → i < length xs
      → get_or (set xs i x) j d ≡ (if i == j then x else get_or xs j d)
  get_or-set [] i j x d h = elim h [ ]
  get_or-set (y ∷ ys) zero zero x d h = refl
  get_or-set (y ∷ ys) zero (suc j) x d h = ground arith
  get_or-set (y ∷ ys) (suc i) zero x d h = ground arith
  get_or-set (y ∷ ys) (suc i) (suc j) x d h = ground (arith, get_or-set ys i j x d)

  pub at-get_or : (xs : List A) (i : ℕ) (d : A) → i < length xs → at xs i ≡ ok (get_or xs i d)
  at-get_or [] i d h = elim h [ ]
  at-get_or (x ∷ xs) zero d h = refl
  at-get_or (x ∷ xs) (suc i) d h = at-get_or xs i d (omega arith)

  pub get_or-ge : (xs : List A) (i : ℕ) (d : A) → length xs ≤ i → get_or xs i d ≡ d
  get_or-ge [] i d h = refl
  get_or-ge (x ∷ xs) zero d h = elim h [ ]
  get_or-ge (x ∷ xs) (suc i) d h = get_or-ge xs i d (omega arith)

  pub get_or-replicate : (n i : ℕ) (d : A) → get_or (replicate n d) i d ≡ d
  get_or-replicate zero i d = refl
  get_or-replicate (suc n) zero d = refl
  get_or-replicate (suc n) (suc i) d = get_or-replicate n i d

module _ {V : Type 0} (is_nil : V → Bool) where
  abbrev pub count_key : V → ℕ
  count_key k = if is_nil k then 0 else 1

  abbrev pub keyed : List (Node V) → ℕ
  keyed [] = 0
  keyed (nd ∷ nds) = count_key nd.key + keyed nds

  pub keyed-le : (nds : List (Node V)) → keyed nds ≤ length nds
  keyed-le [] = omega arith
  keyed-le (nd ∷ nds) = ground (arith, keyed-le nds)

  pub keyed-set :
      (nds : List (Node V)) (i : ℕ) (x d : Node V)
      → i < length nds
      → keyed (set nds i x) + count_key (get_or nds i d).key ≡ keyed nds + count_key x.key
  keyed-set [] i x d h = elim h [ ]
  keyed-set (nd ∷ nds) zero x d h = omega arith
  keyed-set (nd ∷ nds) (suc i) x d h = ground (arith, keyed-set nds i x d)

  -- a write to one node that gets a key, and to another that keeps one
  pub keyed-set₂ :
      (nds : List (Node V)) (i j : ℕ) (x y d : Node V)
      → i < length nds
      → j < length nds
      → is_nil (get_or nds i d).key ≡ true
      → is_nil (get_or nds j d).key ≡ false
      → is_nil x.key ≡ false
      → is_nil y.key ≡ false
      → keyed (set (set nds i x) j y) ≡ suc (keyed nds)
  keyed-set₂ nds i j x y d hi hj old kept kx ky =
      let inside : j < length (set nds i x) = rw (length-set nds i x) hj in
      ground (
        arith,
        keyed-set nds i x d hi,
        keyed-set (set nds i x) j y d inside,
        get_or-set nds i j x d hi,
      )

  pub keyed-set_same :
      (nds : List (Node V)) (i : ℕ) (x d : Node V)
      → i < length nds
      → is_nil (get_or nds i d).key ≡ false
      → is_nil x.key ≡ false
      → keyed (set nds i x) ≡ keyed nds
  keyed-set_same nds i x d hi old kx = ground (arith, keyed-set nds i x d hi)

  pub keyed-pos :
      (nds : List (Node V)) (i : ℕ) (d : Node V)
      → i < length nds
      → is_nil (get_or nds i d).key ≡ false
      → 0 < keyed nds
  keyed-pos [] i d lt h = elim lt [ ]
  keyed-pos (nd ∷ nds) zero d lt h = ground arith
  keyed-pos (nd ∷ nds) (suc i) d lt h = ground (arith, keyed-pos nds i d)

  -- With every node keyed, the count is the length.
  pub keyed-full :
      (nds : List (Node V)) (d : Node V)
      → ((i : ℕ) → i < length nds → is_nil (get_or nds i d).key ≡ false)
      → keyed nds ≡ length nds
  keyed-full [] d h = refl
  keyed-full (nd ∷ nds) d h =
      ground (arith, h 0, keyed-full nds d (λ i lt. h (suc i) (omega arith)))

  pub keyed-replicate : (n : ℕ) (nd : Node V) → is_nil nd.key ≡ true → keyed (replicate n nd) ≡ 0
  keyed-replicate zero nd h = refl
  keyed-replicate (suc n) nd h = ground (arith, keyed-replicate n nd)

module _ {V : Type 0} where
  pub node_at-set :
      (nds : List (Node V)) (i : ℕ) (x d : Node V)
      → i < length nds
      → (λ j. get_or (set nds i x) j d) ≡ write (λ j. get_or nds j d) i x
  node_at-set nds i x d h = fun_ext (λ j. get_or-set nds i j x d h)

  pub node_at-set₂ :
      (nds : List (Node V)) (i j : ℕ) (x y d : Node V)
      → i < length nds
      → j < length nds
      → (λ k. get_or (set (set nds i x) j y) k d) ≡ write (write (λ k. get_or nds k d) i x) j y
  node_at-set₂ nds i j x y d hi hj =
      let inside : j < length (set nds i x) = rw (length-set nds i x) hj in
      node_at-set (set nds i x) j y d inside ∙ ap (λ g. write g j y) (node_at-set nds i x d hi)
