-- ===== src/Base/Int.antt =====
-- Signed integers that stay far from the bounds of i64, and their casts.
use luajit_rs.Base.{ℕ, suc, ◌+◌, ◌-◌, ◌%◌, ◌^◌, ltb, if◌then◌else◌}

pub data ℤ : Type 0 where
  pos : ℕ → ℤ
  negsuc : ℕ → ℤ

-- `m - n` of two natural numbers.
infix 60 ◌⊖◌
abbrev pub ◌⊖◌ : ℕ → ℕ → ℤ
m ⊖ n = if ltb m n then negsuc (n - m - 1) else pos (m - n)

infixl 60 ◌+ℤ◌
abbrev pub ◌+ℤ◌ : ℤ → ℤ → ℤ
pos m +ℤ pos n = pos (m + n)
pos m +ℤ negsuc n = m ⊖ suc n
negsuc m +ℤ pos n = n ⊖ suc m
negsuc m +ℤ negsuc n = negsuc (suc (m + n))

-- `x as u32`
abbrev pub to_u32 : ℤ → ℕ
to_u32 (pos n) = n % 2 ^ 32
to_u32 (negsuc n) = 2 ^ 32 - 1 - n % 2 ^ 32
