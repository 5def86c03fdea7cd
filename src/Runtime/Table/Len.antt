-- ===== src/Runtime/Table/Len.antt =====
-- The length of a table of crates/luajit-rs/src/runtime/table.rs is a border of its map.
use luajit_rs.Base.{
  ℕ, zero, suc, ◌+◌, ◌-◌, ◌*◌, ◌/◌, ◌^◌, ◌≤◌, ◌<◌, ◌≡◌, ◌⊎◌, inl, inr, refl, sym, ◌∙◌, ap, subst,
  arith, true, false, not, ltb, if◌then◌else◌, Bool-cases, Run, ok, ◌>>=◌, at, Returns,
}
use luajit_rs.Base.Int.{pos}
use luajit_rs.Runtime.Table.Values.{Values}
use luajit_rs.Runtime.Table.State.{Table, has_hpart}
use luajit_rs.Runtime.Table.Find.{get_int}
use luajit_rs.Runtime.Table.Valid.{Valid}
use luajit_rs.Runtime.Table.Rehash.{population}
use luajit_rs.Runtime.Table.Length.{
  border_loop, scan_loop, Bounds, around, found, double_loop, len_hash, len_scan, len,
}
use luajit_rs.Runtime.Table.Border.{Stops, border_loop_lem}
use luajit_rs.Runtime.Table.Indices.{value_at, total, row-le, array-total, beyond-nil}

module _ {V : Type 0} (values : Values V) where
  open values use {nil, is_nil, number}

  -- `n` is 0 or an index with a value, and the next index has the value nil.
  pub record IsBorder (t : Table V) (n : ℕ) : Type 0 where
    pub last : (n ≡ 0) ⊎ Returns (get_int values t (pos n)) (λ x. is_nil x ≡ false)
    pub next_nil : get_int values t (pos (n + 1)) ≡ ok nil

  abbrev Ended : Table V → ℕ → Type 0
  Ended t n =
      ((n ≡ 0) ⊎ (is_nil (value_at values t n) ≡ false))
      × (is_nil (value_at values t (n + 1)) ≡ true)
      × (n + 1 < 2 ^ 31)

  Stops-Ended :
      (t : Table V) (lo hi r : ℕ)
      → hi < 2 ^ 31
      → ((lo ≡ 0) ⊎ (is_nil (value_at values t lo) ≡ false))
      → is_nil (value_at values t hi) ≡ true
      → Stops values (value_at values t) lo hi r
      → Ended t r
  Stops-Ended t lo hi r small low dead s = (
    elim s.2 [
      | inl e ↦ subst (λ (m : ℕ). (m ≡ 0) ⊎ (is_nil (value_at values t m) ≡ false)) (sym e) low
      | inr l ↦ inr l
    ],
    elim s.3 [
      | inl e ↦ subst (λ (m : ℕ). is_nil (value_at values t m) ≡ true) (sym e) dead
      | inr d ↦ d
    ],
    omega (arith, s.1),
  )

  module _ (t : Table V) (v : Valid values t) where
    -- The indices 1 to `n` have values.
    abbrev Row : ℕ → Type 0
    Row n = (j : ℕ) → j < n → is_nil (value_at values t (suc j)) ≡ false

    Row-suc : (n : ℕ) → Row n → is_nil (value_at values t (suc n)) ≡ false → Row (suc n)
    Row-suc n row l j lt = elim (Bool-cases (ltb j n)) [
      | inl less ↦ row j (ground arith)
      | inr e ↦
          let same : j ≡ n = ground arith in
          subst (λ (m : ℕ). is_nil (value_at values t (suc m)) ≡ false) (sym same) l
    ]

    Row-last : (n : ℕ) → Row n → (n ≡ 0) ⊎ (is_nil (value_at values t n) ≡ false)
    Row-last zero row = inl refl
    Row-last (suc n) row = inr (row n (omega arith))

    scan_loop_lem :
        (fuel n : ℕ)
        → population values t < 2 ^ 26
        → Row n
        → fuel + n ≡ 2 ^ 26 + 1
        → Returns (scan_loop values fuel t (n + 1)) (Ended t)
    unfolding scan_loop
    scan_loop_lem zero n few row e = absurd (omega (arith, row-le values t v n (omega arith) row))
    scan_loop_lem (suc fuel) n few row e =
        let here = total values t v (n + 1) (omega arith) in
        elim (Bool-cases (is_nil (value_at values t (n + 1)))) [
          | inl dead ↦
              rw (here, ◌>>=◌, dead) (n, ap ok (omega arith), (Row-last n row, dead, omega arith))
          | inr l ↦
              let next_index : n + 1 ≡ suc n = omega arith in
              let live_here =
                subst (λ (m : ℕ). is_nil (value_at values t m) ≡ false) next_index l in
              let row' : Row (n + 1) = subst Row (sym next_index) (Row-suc n row live_here) in
              rw (here, ◌>>=◌, l) (scan_loop_lem fuel (n + 1) few row' (omega arith))
        ]

    abbrev Around : Bounds → Type 0
    Around (around lo hi) =
        (lo < hi)
        × (hi < 2 ^ 31)
        × ((lo ≡ 0) ⊎ (is_nil (value_at values t lo) ≡ false))
        × (is_nil (value_at values t hi) ≡ true)
    Around (found n) = Ended t n

    double_pow : (k hi : ℕ) → 2 ^ k ≤ hi → 2 ^ (k + 1) ≤ 2 * hi
    double_pow k hi h =
        let e : k + 1 ≡ suc k = omega arith in
        subst (λ (m : ℕ). 2 ^ m ≤ 2 * hi) (sym e) (omega (arith, h))

    double_loop_lem :
        (fuel scan k lo hi : ℕ)
        → scan ≡ 2 ^ 26 + 1
        → population values t < 2 ^ 26
        → fuel + k ≡ 32
        → 2 ^ k ≤ hi
        → hi < 2 ^ 31
        → lo < hi
        → ((lo ≡ 0) ⊎ (is_nil (value_at values t lo) ≡ false))
        → Returns (double_loop values fuel scan t lo hi) Around
    unfolding double_loop
    double_loop_lem zero scan k lo hi rounds few e big small lt low =
        let all : k ≡ 32 = omega arith in
        absurd (omega (arith, subst (λ (m : ℕ). 2 ^ m ≤ hi) all big))
    double_loop_lem (suc fuel) scan k lo hi rounds few e big small lt low =
        let here = total values t v hi small in
        elim (Bool-cases (is_nil (value_at values t hi))) [
          | inl dead ↦ rw (here, ◌>>=◌, dead) (around lo hi, refl, (lt, small, low, dead))
          | inr l ↦ elim (Bool-cases (ltb ((2 ^ 31 - 1 - 2) / 2) hi)) [
            | inl large ↦
                let (n, run, border) =
                  scan_loop_lem scan 0 few (λ j a. absurd (omega arith)) (omega arith) in
                rw (here, ◌>>=◌, l, large)
                  (found n, ap (λ (r : Run ℕ). r >>= λ m. ok (found m)) run, border)
            | inr f ↦
                rw (here, ◌>>=◌, l, f)
                  (double_loop_lem fuel scan (k + 1) hi (2 * hi) rounds few (omega arith)
                    (double_pow k hi big) (ground arith) (ground arith) (inr l))
          ]
        ]

    len_hash_lem :
        (scan hi : ℕ)
        → scan ≡ 2 ^ 26 + 1
        → population values t < 2 ^ 26
        → hi + 1 < 2 ^ 31
        → ((hi ≡ 0) ⊎ (is_nil (value_at values t hi) ≡ false))
        → Returns (len_hash values scan t hi) (Ended t)
    unfolding len_hash
    len_hash_lem scan hi rounds few small low =
        let (b, run, a) =
          double_loop_lem 32 scan 0 hi (hi + 1) rounds few refl (omega arith) small (omega arith)
            low in
        rw (len_hash, run) (search b a)
      where
        search :
            (b : Bounds)
            → Around b
            → Returns
                (elim b [
                  | around lo hi' ↦ border_loop values hi' (λ i. get_int values t (pos i)) lo hi'
                  | found n ↦ ok n
                ])
                (Ended t)
        search (around lo hi') (lt, small', low', dead) =
            let (r, run, s) =
              border_loop_lem values (value_at values t) (λ i. get_int values t (pos i)) hi' lo hi'
                (λ i a b. total values t v i (omega arith)) lt (omega arith) in
            (r, run, Stops-Ended t lo hi' r small' low' dead s)
        search (found n) border = (n, refl, border)

    rest-Ended :
        (scan hi : ℕ)
        → scan ≡ 2 ^ 26 + 1
        → population values t < 2 ^ 26
        → hi ≡ t.asize - 1
        → ((hi ≡ 0) ⊎ (is_nil (value_at values t hi) ≡ false))
        → Returns (if not (has_hpart values t) then ok hi else len_hash values scan t hi) (Ended t)
    rest-Ended scan hi rounds few e low = elim (Bool-cases (has_hpart values t)) [
      | inl h ↦ rw h (len_hash_lem scan hi rounds few (omega (arith, v.asize_le)) low)
      | inr h ↦ rw h (
        hi,
        refl,
        (
          low,
          beyond-nil values t v (hi + 1) (omega (arith, v.asize_le)) (omega arith) h,
          omega (arith, v.asize_le),
        ),
      )
    ]

    len_scan_lem :
        (scan : ℕ)
        → scan ≡ 2 ^ 26 + 1
        → population values t < 2 ^ 26
        → Returns (len_scan values scan t) (Ended t)
    unfolding len_scan
    len_scan_lem scan rounds few =
        let hi = t.asize - 1 in
        elim (Bool-cases (ltb 0 hi)) [
          | inr e ↦ rw e (rest-Ended scan hi rounds few refl (inl (ground arith)))
          | inl e ↦
              let last = array-total values t v hi (ground arith) in
              elim (Bool-cases (is_nil (value_at values t hi))) [
                | inr l ↦ rw (e, last, ◌>>=◌, l) (rest-Ended scan hi rounds few refl (inr l))
                | inl dead ↦
                    let (r, run, s) =
                      border_loop_lem values (value_at values t) (λ i. at t.array i) hi 0 hi
                        (λ i a b. array-total values t v i (omega arith)) (ground arith)
                        (omega arith) in
                    rw (e, last, ◌>>=◌, dead)
                      (r, run, Stops-Ended t 0 hi r (omega (arith, v.asize_le)) (inl refl) dead s)
              ]
        ]

    Ended-IsBorder : (n : ℕ) → Ended t n → IsBorder t n
    Ended-IsBorder n (last, dead, small) = record {
      last = elim last [
        | inl e ↦ inl e
        | inr l ↦ inr (value_at values t n, total values t v n (omega arith), l)
      ];
      next_nil = total values t v (n + 1) small ∙ ap ok ((values.is_nil_iff _).0 dead);
    }

  -- On a valid table of fewer than 2 ^ 26 entries `len` ends with a border: 0 or an index with a value, where
  -- the next index has the value nil.
  pub len_lem :
      (t : Table V)
      → Valid values t
      → population values t < 2 ^ 26
      → Returns (len values t) (IsBorder t)
  unfolding len
  len_lem t v few =
      let (n, run, ended) = len_scan_lem t v (2 ^ 26 + 1) refl few in
      (n, run, Ended-IsBorder t v n ended)
