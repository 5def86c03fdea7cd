-- ===== src/Runtime/Table/Pigeons.antt =====
-- How many indices in a row can have a value in a table of crates/luajit-rs/src/runtime/table.rs: not
-- more than it has entries.
use luajit_rs.Base.{
  ℕ, zero, suc, ◌+◌, ◌^◌, ◌≤◌, ◌<◌, ◌≡◌, ◌≢◌, inl, inr, refl, sym, ◌∙◌, arith, true, false, List,
  [], ◌∷◌, if◌then◌else◌, Bool-cases, length, get_or,
}
use luajit_rs.Base.Int.{pos}
use luajit_rs.Runtime.Table.Values.{Values}
use luajit_rs.Runtime.Table.State.{Node}
use luajit_rs.Runtime.Table.Count.{count_values}
use luajit_rs.Runtime.Table.Insert.{entries}
use luajit_rs.Runtime.Table.Entries.{number-injective}

abbrev pub sum_to : (ℕ → ℕ) → ℕ → ℕ
sum_to g zero = 0
sum_to g (suc n) = g 0 + sum_to (λ i. g (suc i)) n

pub sum_to-le :
    (g a b : ℕ → ℕ) (n : ℕ)
    → ((i : ℕ) → i < n → g i ≤ a i + b i)
    → sum_to g n ≤ sum_to a n + sum_to b n
sum_to-le g a b zero h = omega arith
sum_to-le g a b (suc n) h = omega (
  arith,
  h 0 (omega arith),
  sum_to-le (λ i. g (suc i)) (λ i. a (suc i)) (λ i. b (suc i)) n (λ i lt. h (suc i) (omega arith)),
)

sum_to-zeros : (g : ℕ → ℕ) (n : ℕ) → ((i : ℕ) → i < n → g i ≡ 0) → sum_to g n ≡ 0
sum_to-zeros g zero h = refl
sum_to-zeros g (suc n) h =
    omega
      (arith, h 0 (omega arith), sum_to-zeros (λ i. g (suc i)) n (λ i lt. h (suc i) (omega arith)))

pub sum_to-ones : (g : ℕ → ℕ) (n : ℕ) → ((i : ℕ) → i < n → g i ≡ 1) → sum_to g n ≡ n
sum_to-ones g zero h = refl
sum_to-ones g (suc n) h =
    omega
      (arith, h 0 (omega arith), sum_to-ones (λ i. g (suc i)) n (λ i lt. h (suc i) (omega arith)))

module _ {V : Type 0} (values : Values V) where
  open values use {nil, equal, is_nil, number, is_nil_iff, equal_iff}

  abbrev pub live : V → ℕ
  live x = if is_nil x then 0 else 1

  abbrev hit : V → ℕ → ℕ
  hit k i = if equal k (number (pos i)) then 1 else 0

  -- the nodes with a value for an index
  abbrev pub hits : List (Node V) → ℕ → ℕ
  hits [] i = 0
  hits (nd ∷ nds) i = (if is_nil nd.val then 0 else hit nd.key i) + hits nds i

  pub sum_to-array :
      (xs : List V) (n : ℕ) → sum_to (λ i. live (get_or xs i nil)) n ≤ count_values values xs
  unfolding count_values
  sum_to-array xs zero = omega arith
  sum_to-array [] (suc n) =
      let none_here : is_nil nil ≡ true = (is_nil_iff nil).1 refl in
      omega (arith, sum_to-zeros (λ i. live nil) (suc n) (λ i lt. rw none_here refl))
  sum_to-array (x ∷ xs) (suc n) = ground (arith, sum_to-array xs n)

  hit-other :
      (k : V) (i j : ℕ)
      → i < 2 ^ 31
      → j < 2 ^ 31
      → equal k (number (pos i)) ≡ true
      → (i ≢ j)
      → hit k j ≡ 0
  hit-other k i j hi hj e ne = elim (Bool-cases (equal k (number (pos j)))) [
    | inr f ↦ rw f refl
    | inl f ↦
        let same = sym ((equal_iff k (number (pos i))).0 e) ∙ (equal_iff k (number (pos j))).0 f in
        absurd (ne (number-injective values i j hi hj same))
  ]

  -- a key is at most one of several indices
  sum_to-hit :
      (k : V) (ix : ℕ → ℕ) (n : ℕ)
      → ((i j : ℕ) → i < n → j < n → ix i ≡ ix j → i ≡ j)
      → ((i : ℕ) → i < n → ix i < 2 ^ 31)
      → sum_to (λ i. hit k (ix i)) n ≤ 1
  sum_to-hit k ix zero one small = omega arith
  sum_to-hit k ix (suc n) one small =
      let rest =
        sum_to-hit k (λ i. ix (suc i)) n
          (λ i j a b e. omega (arith, one (suc i) (suc j) (omega arith) (omega arith) e))
          (λ i a. small (suc i) (omega arith)) in
      elim (Bool-cases (equal k (number (pos (ix 0))))) [
        | inr e ↦ rw e (omega (arith, rest))
        | inl e ↦
            let none_else : (i : ℕ) → i < n → hit k (ix (suc i)) ≡ 0 = λ i lt.
              hit-other k (ix 0) (ix (suc i)) (small 0 (omega arith)) (small (suc i) (omega arith))
                e (λ q. omega (arith, one 0 (suc i) (omega arith) (omega arith) q)) in
            rw e (omega (arith, sum_to-zeros (λ i. hit k (ix (suc i))) n none_else))
      ]

  pub sum_to-hits :
      (nds : List (Node V)) (ix : ℕ → ℕ) (n : ℕ)
      → ((i j : ℕ) → i < n → j < n → ix i ≡ ix j → i ≡ j)
      → ((i : ℕ) → i < n → ix i < 2 ^ 31)
      → sum_to (λ i. hits nds (ix i)) n ≤ length (entries values nds)
  unfolding entries
  sum_to-hits [] ix n one small = omega (arith, sum_to-zeros (λ i. 0) n (λ i lt. refl))
  sum_to-hits (nd ∷ nds) ix n one small =
      let rest = sum_to-hits nds ix n one small in
      let first = sum_to-hit nd.key ix n one small in
      elim (Bool-cases (is_nil nd.val)) [
        | inl e ↦ rw e (
            omega (
              arith,
              rest,
              sum_to-zeros (λ i. 0) n (λ i lt. refl),
              sum_to-le (λ i. 0 + hits nds (ix i)) (λ i. 0) (λ i. hits nds (ix i)) n
                  (λ i lt. omega arith),
            ))
        | inr e ↦ rw e (
            omega (
              arith,
              rest,
              first,
              sum_to-le (λ i. hit nd.key (ix i) + hits nds (ix i)) (λ i. hit nd.key (ix i))
                  (λ i. hits nds (ix i)) n (λ i lt. omega arith),
            ))
      ]

  -- a node with a value for an index
  pub hits-pos :
      (nds : List (Node V)) (i j : ℕ) (d : Node V)
      → j < length nds
      → (get_or nds j d).key ≡ number (pos i)
      → is_nil (get_or nds j d).val ≡ false
      → 1 ≤ hits nds i
  hits-pos [] i j d lt e f = elim lt [ ]
  hits-pos (nd ∷ nds) i zero d lt e f = ground (arith, equal_iff nd.key (number (pos i)))
  hits-pos (nd ∷ nds) i (suc j) d lt e f = omega (arith, hits-pos nds i j d (omega arith) e f)
