-- ===== src/Runtime/Table/CountArray.antt =====
-- `count_array` of crates/luajit-rs/src/runtime/table.rs: the values of the array by bins.
use native.Mathlib.Nat.{one-le-pow, pow-suc}
use luajit_rs.Base.{
  ℕ, zero, suc, ◌+◌, ◌-◌, ◌*◌, ◌^◌, ◌≤◌, ◌<◌, ◌≡◌, ◌⊎◌, inl, inr, refl, sym, ◌∙◌, ap, subst, arith,
  true, false, ◌&&◌, List, [], ◌∷◌, leb, ltb, ◌==◌, if◌then◌else◌, Bool-cases, length, length-drop,
  take, drop,
}
use luajit_rs.Runtime.Table.Values.{Values}
use luajit_rs.Runtime.Table.State.{max_asize, Table}
use luajit_rs.Runtime.Table.Count.{bump, count_values, count_buckets, count_array}
use luajit_rs.Runtime.Table.Bins.{asize_of, length-bump}
use luajit_rs.Runtime.Table.Log.{pow_mono}
use luajit_rs.Runtime.Table.Counted.{Counts, Counts-trans, bumped-Counts}

-- the first index of a bucket
abbrev start_of : ℕ → ℕ
start_of b = if b == 0 then 0 else 2 ^ b + 1

-- the bucket `b` of `more` indices from `i` on lies in the new array or behind it
abbrev Fits : ℕ → ℕ → ℕ → ℕ → Type 0
Fits m b i more = ((b < m) × (i + more ≤ asize_of m)) ⊎ ((m ≤ b) × (asize_of m ≤ i))

-- the last index of the bucket `b`
abbrev top_of : ℕ → ℕ → ℕ
top_of b asize = if leb asize (2 * 2 ^ b) then asize - 1 else 2 * 2 ^ b

-- a bucket that begins inside the array
record Inside (b asize i : ℕ) : Type 0 where
  small : b < 27
  begun : i ≡ start_of b
  next : i + (top_of b asize + 1 - i) ≡ top_of b asize + 1

inside :
    (b asize i : ℕ)
    → i ≤ asize
    → asize ≤ max_asize
    → 0 < asize
    → (i ≡ start_of b) ⊎ ((i ≡ asize) × (asize ≤ 2 * 2 ^ b))
    → (leb asize (2 * 2 ^ b) && ltb (top_of b asize) i) ≡ false
    → Inside b asize i
inside b asize i le max some_pos (inr (ended, small)) go = absurd (ground arith)
inside b asize i le max some_pos (inl begun) go = record {
  small = ground (arith, pow_mono 27 b);
  begun = begun;
  next = ground (arith, one-le-pow b 2);
}

Fits-bucket : (m b asize i : ℕ) → Inside b asize i → Fits m b i (top_of b asize + 1 - i)
Fits-bucket m b asize i s = elim (Bool-cases (ltb b m)) [
  | inl lt ↦ inl (ground arith, ground (arith, s.next, pow_mono (suc b) m, pow-suc 2 b))
  | inr ge ↦ inr (ground arith, ground (arith, s.begun, pow_mono m b))
]

next-start :
    (b asize i : ℕ)
    → Inside b asize i
    → 0 < asize
    → (i + (top_of b asize + 1 - i) ≡ start_of (b + 1))
      ⊎ ((i + (top_of b asize + 1 - i) ≡ asize) × (asize ≤ 2 * 2 ^ (b + 1)))
next-start b asize i s some_pos =
    let next : b + 1 ≡ suc b = omega arith in
    elim (Bool-cases (leb asize (2 * 2 ^ b))) [
      | inl last ↦ inr (ground (arith, s.next), ground (arith, pow_mono b (b + 1)))
      | inr more ↦ inl (rw next (ground (arith, s.next, pow-suc 2 b)))
    ]

module _ {V : Type 0} (values : Values V) where
  open values use {is_nil}

  count_values-split :
      (n : ℕ) (vs : List V)
      → count_values values (take n vs) + count_values values (drop n vs) ≡ count_values values vs
  unfolding count_values
  count_values-split zero vs = omega arith
  count_values-split (suc n) [] = refl
  count_values-split (suc n) (v ∷ vs) = ground (arith, count_values-split n vs)

  drop-nil : (n : ℕ) → drop {A = V} n [] ≡ []
  drop-nil zero = refl
  drop-nil (suc n) = refl

  drop-add : (m n : ℕ) (vs : List V) → drop n (drop m vs) ≡ drop (m + n) vs
  drop-add zero n vs = let e : n ≡ 0 + n = omega arith in ap (λ (k : ℕ). drop k vs) e
  drop-add (suc m) n [] = drop-nil n ∙ sym (drop-nil (suc m + n))
  drop-add (suc m) n (v ∷ vs) =
      let e : suc (m + n) ≡ suc m + n = omega arith in
      drop-add m n vs ∙ ap (λ (k : ℕ). drop k (v ∷ vs)) e

  no_values : (vs : List V) → length vs ≡ 0 → vs ≡ []
  no_values [] h = refl
  no_values (v ∷ vs) h = absurd (omega arith)

  -- What the loop gives for the rest of an array from `i` on.
  Buckets : ℕ → ℕ → ℕ → List V → List ℕ → ℕ × List ℕ → Type 0
  Buckets m i na rest bins r =
      (r.0 ≡ na + count_values values rest)
      × Counts m bins r.1 (count_values values rest) (count_values values rest)
          (count_values values (drop (asize_of m - i) rest))

  Buckets-nil :
      (m i na : ℕ) (rest : List V) (bins : List ℕ)
      → length rest ≡ 0
      → Buckets m i na rest bins (na, bins)
  unfolding Buckets count_values
  Buckets-nil m i na rest bins h = rw (no_values rest h) (
    omega arith,
    rw (drop-nil (asize_of m - i))
        (record { width = refl; sums = omega arith; firsts = refl; top = refl }),
  )

  behind-split :
      (m b i more : ℕ) (rest : List V)
      → Fits m b i more
      → (if ltb b m then 0 else count_values values (take more rest))
          + count_values values (drop (asize_of m - (i + more)) (drop more rest))
        ≡ count_values values (drop (asize_of m - i) rest)
  behind-split m b i more rest (inl (lt, le)) =
      let test : ltb b m ≡ true = ground arith in
      let e : more + (asize_of m - (i + more)) ≡ asize_of m - i = omega arith in
      let joined : count_values values (drop (asize_of m - (i + more)) (drop more rest))
          ≡ count_values values (drop (asize_of m - i) rest) =
        ap (count_values values)
          (drop-add more (asize_of m - (i + more)) rest ∙ ap (λ (k : ℕ). drop k rest) e) in
      rw test (omega (arith, joined))
  behind-split m b i more rest (inr (le, over)) =
      let test : ltb b m ≡ false = ground arith in
      let e : asize_of m - (i + more) ≡ 0 = omega arith in
      let f : asize_of m - i ≡ 0 = omega arith in rw (test, e, f) (count_values-split more rest)

  -- a bucket and then the rest
  Buckets-step :
      (m b i more na : ℕ) (rest : List V) (bins : List ℕ) (r : ℕ × List ℕ)
      → b < 27
      → length bins ≡ 28
      → Fits m b i more
      → Buckets m
          (i + more)
          (na + count_values values (take more rest))
          (drop more rest)
          (bump bins b (count_values values (take more rest)))
          r
      → Buckets m i na rest bins r
  unfolding Buckets
  Buckets-step m b i more na rest bins r lt width fits (total, c) =
      let p = bumped-Counts m bins b (count_values values (take more rest)) width lt in
      let q = Counts-trans p c in
      let split = count_values-split more rest in
      let outside = behind-split m b i more rest fits in
      (
        omega arith,
        record {
          width = q.width;
          sums = omega (arith, q.sums);
          firsts = omega (arith, q.firsts);
          top = q.top;
        },
      )

  -- The loop over the buckets from `b` on, where the rest of the array starts at `i`.
  count_buckets-Buckets :
      (m fuel b asize i na : ℕ) (rest : List V) (bins : List ℕ)
      → b + fuel ≡ 28
      → asize ≤ max_asize
      → length bins ≡ 28
      → length rest + i ≡ asize
      → (i ≡ start_of b) ⊎ ((i ≡ asize) × (asize ≤ 2 * 2 ^ b))
      → 0 < asize
      → Buckets m i na rest bins (count_buckets values fuel b asize rest i na bins)
  unfolding count_buckets
  count_buckets-Buckets m zero b asize i na rest bins fuels le width size (inr (ended, small))
        some_pos =
      Buckets-nil m i na rest bins (omega arith)
  count_buckets-Buckets m zero b asize i na rest bins fuels le width size (inl begun) some_pos =
      let last : b ≡ 28 = omega arith in absurd (ground (arith, pow_mono 28 b))
  count_buckets-Buckets m (suc fuel) b asize i na rest bins fuels le width size pos some_pos =
      elim (Bool-cases
        (leb asize (2 * 2 ^ b) && ltb (if leb asize (2 * 2 ^ b) then asize - 1 else 2 * 2 ^ b) i)) [
          | inl stop ↦ rw stop (Buckets-nil m i na rest bins (ground arith))
          | inr go ↦
              let more = top_of b asize + 1 - i in
              let s = inside b asize i (omega arith) le some_pos pos go in
              let left : length (drop more rest) + (i + more) ≡ asize =
                ground (arith, length-drop more rest, s.next) in
              rw go (
                Buckets-step m b i more na rest bins _ s.small width (Fits-bucket m b asize i s) (
                  count_buckets-Buckets m fuel (b + 1) asize (i + more)
                    (na + count_values values (take more rest)) (drop more rest)
                    (bump bins b (count_values values (take more rest))) (omega arith) le
                    (length-bump bins b _ ∙ width) left (next-start b asize i s some_pos) some_pos))
        ]

  -- `count_array` for a valid array
  pub count_array-Counts :
      (m : ℕ) (t : Table V) (bins : List ℕ)
      → length t.array ≡ t.asize
      → t.asize ≤ max_asize
      → length bins ≡ 28
      → ((count_array values t bins).0 ≡ count_values values t.array)
        × Counts m bins
            (count_array values t bins).1
            (count_values values t.array)
            (count_values values t.array)
            (count_values values (drop (asize_of m) t.array))
  unfolding count_array Buckets
  count_array-Counts m t bins len le width = elim (Bool-cases (t.asize == 0)) [
    | inl e ↦ rw e (whole (0, bins) (Buckets-nil m 0 0 t.array bins (ground arith)))
    | inr e ↦ rw e (
        whole _ (
          count_buckets-Buckets m 28 0 t.asize 0 0 t.array bins refl le width (omega arith)
            (inl refl) (ground arith)))
  ]
    where
      whole :
          (r : ℕ × List ℕ)
          → Buckets m 0 0 t.array bins r
          → (r.0 ≡ count_values values t.array)
            × Counts m bins r.1
                (count_values values t.array)
                (count_values values t.array)
                (count_values values (drop (asize_of m) t.array))
      whole r (total, c) =
          let z : asize_of m - 0 ≡ asize_of m = omega arith in
          (
            omega arith,
            subst
                (λ (k : ℕ).
                  Counts m bins r.1 (count_values values t.array) (count_values values t.array)
                    (count_values values (drop k t.array)))
                z c,
          )
