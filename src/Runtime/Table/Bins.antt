-- ===== src/Runtime/Table/Bins.antt =====
-- The bins of crates/luajit-rs/src/runtime/table.rs and the array size that they give: the keys in the
-- first bins are those that the array gets.
use native.Mathlib.Nat.{pow-suc, pow-le-pow_right}
use luajit_rs.Base.{
  ℕ, zero, suc, ◌+◌, ◌*◌, ◌^◌, ◌≤◌, ◌<◌, ◌≡◌, inl, inr, refl, subst, arith, true, false, not, ◌&&◌,
  List, [], ◌∷◌, ltb, ◌==◌, if◌then◌else◌, Bool-cases, length, length-set, get_or, set, take, drop,
  Returns,
}
use luajit_rs.Runtime.Table.Count.{bump, best_loop, best_asize}
use luajit_rs.Runtime.Table.Nodes.{get_or-set}

abbrev pub sum : List ℕ → ℕ
sum [] = 0
sum (x ∷ xs) = x + sum xs

-- the keys of the first `m` bins
abbrev pub first : ℕ → List ℕ → ℕ
first m bins = sum (take m bins)

-- the array that holds the keys of the first `m` bins
abbrev pub asize_of : ℕ → ℕ
asize_of m = if m == 0 then 0 else 2 ^ m + 1

first-set :
    (bins : List ℕ) (m b x : ℕ)
    → b < length bins
    → first m (set bins b x) + (if ltb b m then get_or bins b 0 else 0)
      ≡ first m bins + (if ltb b m then x else 0)
first-set [] m b x h = elim h [ ]
first-set (y ∷ ys) zero b x h = ground arith
first-set (y ∷ ys) (suc m) zero x h = ground arith
first-set (y ∷ ys) (suc m) (suc b) x h = ground (arith, first-set ys m b x)

pub first-bump :
    (bins : List ℕ) (m b n : ℕ)
    → b < length bins
    → first m (bump bins b n) ≡ first m bins + (if ltb b m then n else 0)
unfolding bump
first-bump bins m b n h = ground (arith, first-set bins m b (get_or bins b 0 + n) h)

-- What `best_asize` gives: the first `m` bins, the last of which is not empty.
pub record Best (bins : List ℕ) (na asize : ℕ) : Type 0 where
  pub m : ℕ
  pub in_bins : m ≤ length bins
  pub na_first : na ≡ first m bins
  pub asize_bins : asize ≡ asize_of m
  pub last : (b : ℕ) → m ≡ suc b → 0 < get_or bins b 0
  pub dense : (b : ℕ) → m ≡ suc b → 2 ^ b < 2 * na

-- Bin `b` is not empty, and up to it there are more than 2 ^ b / 2 keys.
abbrev pub Candidate : List ℕ → ℕ → Type 0
Candidate bins b = (b < length bins) × (0 < get_or bins b 0) × (2 ^ b < 2 * first (suc b) bins)

-- No later bin could be the last one of the array.
abbrev pub Greatest : List ℕ → ℕ → Type 0
Greatest bins m = (c : ℕ) → Candidate bins c → c < m

first_mono : (xs : List ℕ) (a b : ℕ) → a ≤ b → first a xs ≤ first b xs
first_mono xs zero b h = omega arith
first_mono [] (suc a) (suc b) h = omega arith
first_mono (x ∷ xs) (suc a) (suc b) h = omega (arith, first_mono xs a b (omega arith))
first_mono xs (suc a) zero h = absurd (omega arith)

first-le : (xs : List ℕ) (b : ℕ) → first b xs ≤ sum xs
first-le xs zero = omega arith
first-le [] (suc b) = omega arith
first-le (x ∷ xs) (suc b) = omega (arith, first-le xs b)

first-suc : (xs : List ℕ) (b : ℕ) → b < length xs → first (suc b) xs ≡ first b xs + get_or xs b 0
first-suc [] b h = elim h [ ]
first-suc (x ∷ xs) zero h = omega arith
first-suc (x ∷ xs) (suc b) h = omega (arith, first-suc xs b (omega arith))

-- Where the loop stops at bin `b`, no bin from there on is a candidate.
stopped :
    (all : List ℕ) (nn b s : ℕ)
    → nn ≡ sum all
    → s ≡ first b all
    → (ltb (2 ^ b) (2 * nn) && not (s == nn)) ≡ false
    → (c : ℕ) → Candidate all c
    → c < b
stopped all nn b s total before stop c (inside, some_keys, dense) = elim (Bool-cases (ltb c b)) [
  | inl lt ↦ ground arith
  | inr ge ↦
      let le : b ≤ c = ground arith in
      let powers : 2 ^ b ≤ 2 ^ c = pow-le-pow_right (omega arith) le in
      absurd (
        ground (arith, powers, first_mono all b c le, first-le all (suc c), first-suc all c inside))
]

first-all : (xs : List ℕ) (b : ℕ) → drop b xs ≡ [] → first b xs ≡ sum xs
first-all xs zero h = ground arith
first-all [] (suc b) h = refl
first-all (x ∷ xs) (suc b) h = omega (arith, first-all xs b h)

-- a step from bin `b` to the next
record Step (xs : List ℕ) (b x : ℕ) (rest : List ℕ) : Type 0 where
  sums : first (suc b) xs ≡ first b xs + x
  rests : drop (suc b) xs ≡ rest
  here : get_or xs b 0 ≡ x
  inside : b < length xs

step : (xs : List ℕ) (b x : ℕ) (rest : List ℕ) → drop b xs ≡ x ∷ rest → Step xs b x rest
step [] zero x rest h = cc
step (y ∷ ys) zero x rest h = record {
  sums = ground arith;
  rests = ground arith;
  here = ground arith;
  inside = omega arith;
}
step [] (suc b) x rest h = cc
step (y ∷ ys) (suc b) x rest h =
    let s = step ys b x rest h in
    record {
      sums = omega (arith, s.sums);
      rests = s.rests;
      here = s.here;
      inside = omega (arith, s.inside);
    }

-- no candidate below the next bin is missed if this one is none
later :
    (all : List ℕ) (b m : ℕ)
    → ((c : ℕ) → Candidate all c → c < b → c < m)
    → (Candidate all b → b < m)
    → (c : ℕ) → Candidate all c
    → c < b + 1
    → c < m
later all b m most here c h lt = elim (Bool-cases (ltb c b)) [
  | inl less ↦ most c h (ground arith)
  | inr e ↦ let same : c ≡ b = ground arith in rw same (here (subst (Candidate all) same h))
]

-- the result of `best_asize`
abbrev pub Chosen : List ℕ → ℕ → ℕ → Type 0
Chosen bins na asize = (best : Best bins na asize) × Greatest bins best.m

-- The loop from bin `b` on, where `s` is the sum of the bins before.
best_loop-ok :
    (rest all : List ℕ) (nn b s na sz : ℕ)
    → drop b all ≡ rest
    → nn ≡ sum all
    → s ≡ first b all
    → (best : Best all na sz) → ((c : ℕ) → Candidate all c → c < b → c < best.m)
    → Returns (best_loop rest nn b s na sz) (λ r. Chosen all r.0 r.1)
unfolding best_loop
best_loop-ok [] all nn b s na sz e total before best most =
    let ended : (s == nn) ≡ true = ground (arith, first-all all b) in
    let test : (ltb (2 ^ b) (2 * nn) && not (s == nn)) ≡ false = ground arith in
    rw test ((na, sz), refl, (best, λ c h. most c h (stopped all nn b s total before test c h)))
best_loop-ok (bin ∷ rest) all nn b s na sz e total before best most =
    let st = step all b bin rest e in
    let next : b + 1 ≡ suc b = omega arith in
    elim (Bool-cases (ltb (2 ^ b) (2 * nn) && not (s == nn))) [
      | inr stop ↦
          rw stop
            ((na, sz), refl, (best, λ c h. most c h (stopped all nn b s total before stop c h)))
      | inl go ↦ elim (Bool-cases (ltb 0 bin)) [
        | inr empty ↦
            let skip : Candidate all b → b < best.m = λ h. absurd (ground (arith, st.here)) in
            rw (go, empty)
              (best_loop-ok rest all nn (b + 1) s na sz (rw next st.rests) total
                (rw next (ground (arith, st.sums))) best (later all b best.m most skip))
        | inl some_keys ↦ elim (Bool-cases (ltb (2 ^ b) (2 * (s + bin)))) [
          | inr sparse ↦
              let skip : Candidate all b → b < best.m = λ h. absurd (ground (arith, st.sums)) in
              rw (go, some_keys, sparse)
                (best_loop-ok rest all nn (b + 1) (s + bin) na sz (rw next st.rests) total
                  (rw next (ground (arith, st.sums))) best (later all b best.m most skip))
          | inl enough ↦
              let taken : Best all (s + bin) (2 * 2 ^ b + 1) = record {
                m = suc b;
                in_bins = omega (arith, st.inside);
                na_first = omega (arith, st.sums);
                asize_bins = ground (arith, pow-suc 2 b);
                last = λ c h. ground (arith, st.here);
                dense = λ c h. ground arith;
              } in
              rw (go, some_keys, enough)
                (best_loop-ok rest all nn (b + 1) (s + bin) (s + bin) (2 * 2 ^ b + 1)
                  (rw next st.rests) total (rw next (ground (arith, st.sums))) taken
                  (λ c h lt. omega arith))
        ]
      ]
    ]

pub best_asize-ok :
    (bins : List ℕ) (nn : ℕ)
    → nn ≡ sum bins
    → Returns (best_asize bins nn) (λ r. Chosen bins r.0 r.1)
unfolding best_asize
best_asize-ok bins nn total =
    best_loop-ok bins bins nn 0 0 0 0 refl total refl
      (record {
        m = 0;
        in_bins = omega arith;
        na_first = refl;
        asize_bins = refl;
        last = λ b h. ground arith;
        dense = λ b h. ground arith;
      })
      (λ c h lt. absurd (omega arith))

sum-set :
    (bins : List ℕ) (b x : ℕ)
    → b < length bins
    → sum (set bins b x) + get_or bins b 0 ≡ sum bins + x
sum-set [] b x h = elim h [ ]
sum-set (y ∷ ys) zero x h = omega arith
sum-set (y ∷ ys) (suc b) x h = omega (arith, sum-set ys b x (omega arith))

pub sum-bump : (bins : List ℕ) (b n : ℕ) → b < length bins → sum (bump bins b n) ≡ sum bins + n
unfolding bump
sum-bump bins b n h = omega (arith, sum-set bins b (get_or bins b 0 + n) h)

pub length-bump : (bins : List ℕ) (b n : ℕ) → length (bump bins b n) ≡ length bins
unfolding bump
length-bump bins b n = length-set bins b (get_or bins b 0 + n)

pub get_or-bump :
    (bins : List ℕ) (b n i : ℕ)
    → b < length bins
    → b < i
    → get_or (bump bins b n) i 0 ≡ get_or bins i 0
unfolding bump
get_or-bump bins b n i h lt = ground (arith, get_or-set bins b i (get_or bins b 0 + n) 0 h)
