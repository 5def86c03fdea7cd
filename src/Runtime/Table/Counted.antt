-- ===== src/Runtime/Table/Counted.antt =====
-- The counts that `rehash` of crates/luajit-rs/src/runtime/table.rs starts from: integer keys by bins,
-- entries in all.
use native.Mathlib.Nat.{one-le-pow, pow-suc}
use luajit_rs.Base.{
  ℕ, zero, suc, ◌+◌, ◌-◌, ◌^◌, ◌<◌, ◌≡◌, inl, inr, refl, ◌∙◌, ap, arith, none, some, List, [], ◌∷◌,
  ltb, if◌then◌else◌, Bool-cases, Option-cases, length, get_or,
}
use luajit_rs.Base.Int.{pos, negsuc}
use luajit_rs.Runtime.Table.Values.{Values}
use luajit_rs.Runtime.Table.State.{max_asize, Node, Table, fls, array_key, array_slot}
use luajit_rs.Runtime.Table.Count.{bump, bucket, count_int, count_nodes}
use luajit_rs.Runtime.Table.Insert.{entries}
use luajit_rs.Runtime.Table.SetRound.{cost}
use luajit_rs.Runtime.Table.SetAll.{costs}
use luajit_rs.Runtime.Table.Log.{fls-lt, fls-ge}
use luajit_rs.Runtime.Table.Bins.{
  sum, first, asize_of, first-bump, sum-bump, length-bump, get_or-bump,
}

-- the bucket of an index
abbrev pub bucket_of : ℕ → ℕ
bucket_of n = if ltb 2 n then fls (n - 1) else 0

-- The first `m` buckets are those of the array's indices.
pub bucket_of-lt : (n m : ℕ) → n < max_asize → ltb (bucket_of n) m ≡ ltb n (asize_of m)
bucket_of-lt n zero h = ground arith
bucket_of-lt n (suc b) h = elim (Bool-cases (ltb 2 n)) [
  | inr small ↦ ground (arith, pow-suc 2 b, one-le-pow b 2)
  | inl big ↦ elim (Bool-cases (ltb n (2 ^ suc b + 1))) [
    | inl lo ↦ ground (arith, fls-lt (n - 1) b)
    | inr hi ↦ ground (arith, fls-ge (n - 1) (suc b))
  ]
]

pub bucket_of-bound : (n : ℕ) → n < max_asize → bucket_of n < 27
bucket_of-bound n h = ground (arith, fls-lt (n - 1) 26)

-- `bins'` are the bins with `ints` more keys, of `keys` keys in all; `outside` of these get no slot
-- in an array for the first `m` bins.
pub record Counts (m : ℕ) (bins bins' : List ℕ) (ints keys outside : ℕ) : Type 0 where
  pub width : length bins' ≡ length bins
  pub sums : sum bins' ≡ sum bins + ints
  pub firsts : first m bins' + outside ≡ first m bins + keys
  pub top : get_or bins' 27 0 ≡ get_or bins 27 0

pub Counts-trans :
    {m : ℕ} {a b c : List ℕ} {ints keys outside ints' keys' outside' : ℕ}
    → Counts m a b ints keys outside
    → Counts m b c ints' keys' outside'
    → Counts m a c (ints + ints') (keys + keys') (outside + outside')
Counts-trans p q = record {
  width = q.width ∙ p.width;
  sums = omega (arith, p.sums, q.sums);
  firsts = omega (arith, p.firsts, q.firsts);
  top = q.top ∙ p.top;
}

pub Counts-step :
    {m : ℕ} {a b c : List ℕ} {ints outside ints' keys' outside' : ℕ}
    → Counts m a b ints 1 outside
    → Counts m b c ints' keys' outside'
    → Counts m a c (ints + ints') (suc keys') (outside + outside')
Counts-step p q =
    let r = Counts-trans p q in
    record { width = r.width; sums = r.sums; firsts = omega (arith, r.firsts); top = r.top }

pub bumped-Counts :
    (m : ℕ) (bins : List ℕ) (b n : ℕ)
    → length bins ≡ 28
    → b < 27
    → Counts m bins (bump bins b n) n n (if ltb b m then 0 else n)
bumped-Counts m bins b n width lt = record {
  width = length-bump bins b n;
  sums = sum-bump bins b n (omega arith);
  firsts = ground (arith, first-bump bins m b n (omega arith));
  top = get_or-bump bins b n 27 (omega arith) lt;
}

module _ {V : Type 0} (values : Values V) where
  open values use {is_nil, as_int32_exact}

  bucket-array_key :
      (k : V)
      → bucket values k ≡ elim (array_key values k) [ none ↦ none | some n ↦ some (bucket_of n) ]
  unfolding bucket array_key
  bucket-array_key k = elim (Option-cases (as_int32_exact k)) [
    | inl e ↦ rw (bucket, array_key, e) refl
    | inr (pos n, e) ↦
        rw (bucket, array_key, e)
          (elim (Bool-cases (ltb n max_asize)) [ inl f ↦ rw f refl | inr f ↦ rw f refl ])
    | inr (negsuc n, e) ↦ rw (bucket, array_key, e) refl
  ]

  array_key-lt : (k : V) (n : ℕ) → array_key values k ≡ some n → n < max_asize
  unfolding array_key
  array_key-lt k n h = ground arith

  cost-none : (s : Table V) (k : V) → array_key values k ≡ none → cost values s k ≡ 1
  unfolding array_slot
  cost-none s k h = rw (cost, array_slot, h) refl

  cost-some :
      (s : Table V) (m : ℕ) (k : V) (n : ℕ)
      → s.asize ≡ asize_of m
      → array_key values k ≡ some n
      → cost values s k ≡ (if ltb (bucket_of n) m then 0 else 1)
  unfolding array_slot
  cost-some s m k n e h =
      let inside = bucket_of-lt n m (array_key-lt k n h) in
      rw (inside, cost, array_slot, h, e)
        (elim (Bool-cases (ltb n (asize_of m))) [ inl f ↦ rw f refl | inr f ↦ rw f refl ])

  count_int-none :
      (k : V) (bins : List ℕ) → array_key values k ≡ none → count_int values k bins ≡ (0, bins)
  unfolding count_int
  count_int-none k bins h = rw (count_int, bucket-array_key k, h) refl

  count_int-some :
      (k : V) (n : ℕ) (bins : List ℕ)
      → array_key values k ≡ some n
      → count_int values k bins ≡ (1, bump bins (bucket_of n) 1)
  unfolding count_int
  count_int-some k n bins h = rw (count_int, bucket-array_key k, h) refl

  pub count_int-Counts :
      (s : Table V) (m : ℕ) (k : V) (bins : List ℕ)
      → s.asize ≡ asize_of m
      → length bins ≡ 28
      → Counts m bins (count_int values k bins).1 (count_int values k bins).0 1 (cost values s k)
  count_int-Counts s m k bins e width = elim (Option-cases (array_key values k)) [
    | inl h ↦
        rw (count_int-none k bins h, cost-none s k h)
          (record { width = refl; sums = omega arith; firsts = refl; top = refl })
    | inr (n, h) ↦
        rw (count_int-some k n bins h, cost-some s m k n e h)
          (bumped-Counts m bins (bucket_of n) 1 width (bucket_of-bound n (array_key-lt k n h)))
  ]

  pub count_nodes-Counts :
      (s : Table V) (m : ℕ) (nds : List (Node V)) (bins : List ℕ)
      → s.asize ≡ asize_of m
      → length bins ≡ 28
      → Counts m bins
          (count_nodes values nds bins).2
          (count_nodes values nds bins).1
          (count_nodes values nds bins).0
          (costs values s (entries values nds))
        × ((count_nodes values nds bins).0 ≡ length (entries values nds))
  unfolding count_nodes entries
  count_nodes-Counts s m [] bins e width =
      (record { width = refl; sums = omega arith; firsts = refl; top = refl }, refl)
  count_nodes-Counts s m (nd ∷ nds) bins e width = elim (Bool-cases (is_nil nd.val)) [
    | inl dead ↦ rw dead (count_nodes-Counts s m nds bins e width)
    | inr live ↦
        let one = count_int-Counts s m nd.key bins e width in
        let (rest, total) =
          count_nodes-Counts s m nds (count_int values nd.key bins).1 e (one.width ∙ width) in
        rw live (Counts-step one rest, ap suc total)
  ]
