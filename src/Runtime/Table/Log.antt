-- ===== src/Runtime/Table/Log.antt =====
-- `fls` and the sizes that crates/luajit-rs/src/runtime/table.rs computes with it.
use native.Mathlib.Nat.{pow-le-pow_right}
use luajit_rs.Base.{
  ℕ, zero, suc, ◌+◌, ◌-◌, ◌^◌, ◌≤◌, ◌<◌, ◌≡◌, ◌⊎◌, inl, inr, refl, arith, false, ltb, ◌==◌,
  Bool-cases,
}
use luajit_rs.Runtime.Table.State.{fls_from, fls, hsize2hbits}
use luajit_rs.Runtime.Table.Resized.{room}

fls_from-bounds :
    (fuel x b : ℕ)
    → x < 2 ^ (b + fuel + 1)
    → (b ≡ 0) ⊎ (2 ^ b ≤ x)
    → (x < 2 ^ (fls_from fuel x b + 1)) × ((fls_from fuel x b ≡ 0) ⊎ (2 ^ fls_from fuel x b ≤ x))
unfolding fls_from
fls_from-bounds zero x b h lo = (ground arith, lo)
fls_from-bounds (suc fuel) x b h lo = elim (Bool-cases (ltb x (2 ^ (b + 1)))) [
  | inl e ↦ rw e (ground arith, lo)
  | inr e ↦
      let same : b + 1 + fuel + 1 ≡ b + suc fuel + 1 = omega arith in
      rw e (fls_from-bounds fuel x (b + 1) (rw same h) (inr (ground arith)))
]

pub fls-bounds : (x : ℕ) → x < 2 ^ 32 → (x < 2 ^ (fls x + 1)) × ((fls x ≡ 0) ⊎ (2 ^ fls x ≤ x))
unfolding fls
fls-bounds x h = fls_from-bounds 31 x 0 h (inl refl)

-- the powers of two keep the order
pub pow_mono : (a b : ℕ) → a ≤ b → 2 ^ a ≤ 2 ^ b
pow_mono a b h = pow-le-pow_right (omega arith) h

-- `fls x` is below `m` exactly for the numbers of `m` bits
pub fls-lt : (x m : ℕ) → x < 2 ^ 32 → x < 2 ^ suc m → fls x < suc m
fls-lt x m hx h = elim (Bool-cases (ltb (fls x) (suc m))) [
  | inl e ↦ ground arith
  | inr e ↦
      let over : suc m ≤ fls x = ground arith in
      elim (fls-bounds x hx).1 [
        | inl z ↦ omega arith
        | inr le ↦ absurd (omega (arith, pow_mono (suc m) (fls x) over))
      ]
]

pub fls-ge : (x m : ℕ) → x < 2 ^ 32 → 2 ^ m ≤ x → m ≤ fls x
fls-ge x m hx h = elim (Bool-cases (ltb (fls x) m)) [
  | inl e ↦ absurd (omega (arith, pow_mono (fls x + 1) m (ground arith), (fls-bounds x hx).0))
  | inr e ↦ ground arith
]

hsize2hbits-big : (s : ℕ) → hsize2hbits (suc (suc s)) ≡ 1 + fls (suc s)
unfolding hsize2hbits
hsize2hbits-big s =
    let zero_test : (suc (suc s) == 0) ≡ false = ground arith in
    let one_test : (suc (suc s) == 1) ≡ false = ground arith in
    let less : suc (suc s) - 1 ≡ suc s = omega arith in
    rw (hsize2hbits, zero_test, one_test, less) refl

hsize2hbits-small : (hsize2hbits 0 ≡ 0) × (hsize2hbits 1 ≡ 1)
unfolding hsize2hbits
hsize2hbits-small = (refl, refl)

pub hsize2hbits-room : (s : ℕ) → s ≤ 2 ^ 26 → (s ≤ room (hsize2hbits s)) × (hsize2hbits s ≤ 26)
hsize2hbits-room zero h = (omega arith, rw hsize2hbits-small.0 (omega arith))
hsize2hbits-room (suc zero) h =
    (rw hsize2hbits-small.1 (omega arith), rw hsize2hbits-small.1 (omega arith))
hsize2hbits-room (suc (suc s)) h =
    let (up, lo) = fls-bounds (suc s) (omega arith) in
    let e : 1 + fls (suc s) ≡ fls (suc s) + 1 = omega arith in
    rw (hsize2hbits-big s)
      (ground arith, omega (arith, fls-lt (suc s) 25 (omega arith) (omega arith)))
