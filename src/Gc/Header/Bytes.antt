-- ===== src/Gc/Header/Bytes.antt =====
-- Statements about every byte, checked by evaluation.
use luajit_rs.Base.{
  ℕ, zero, suc, ◌<◌, ◌≡◌, subst, arith, Bool, true, ◌&&◌, ltb, ltb→lt, ltb→le, Bool-cases, inl, inr,
}

abbrev pub holds_below : ℕ → (ℕ → Bool) → Bool
holds_below zero test = true
holds_below (suc n) test = test n && holds_below n test

pub below-holds :
    (n : ℕ) (test : ℕ → Bool) (b : ℕ) → holds_below n test ≡ true → b < n → test b ≡ true
below-holds zero test b h lt = absurd (omega arith)
below-holds (suc n) test b h lt = elim (Bool-cases (ltb b n)) [
  | inl l ↦ below-holds n test b (ground arith) (ltb→lt b n l)
  | inr g ↦
      let last : n ≡ b = omega (arith, ltb→le b n g) in
      subst (λ t. test t ≡ true) last (ground arith)
]
