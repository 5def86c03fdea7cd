-- ===== src/Runtime/Table/Values.antt =====
-- The values that crates/luajit-rs/src/runtime/table.rs stores, by what it asks of them. A value is
-- a NaN-boxed word there; its conversions from and to f64 are the machine's.
use luajit_rs.Base.{ℕ, ◌^◌, ◌<◌, ◌≡◌, ◌↔◌, Bool, true, false, Option, none, some}
use luajit_rs.Base.Int.{ℤ, pos}

pub record Values (V : Type 0) : Type 0 where
  pub nil : V
  -- `==` on the bits
  pub equal : V → V → Bool
  pub is_nil : V → Bool
  pub is_string : V → Bool
  pub is_table : V → Bool
  pub hash_key : V → ℕ
  -- `LuaValue::number(k as f64)`
  pub number : ℤ → V
  pub as_int32_exact : V → Option ℤ
  -- `LuaValue::number` of a number, and any other value as it is
  pub normalize_key : V → V
  pub equal_iff : (a b : V) → (equal a b ≡ true) ↔ (a ≡ b)
  pub is_nil_iff : (a : V) → (is_nil a ≡ true) ↔ (a ≡ nil)
  pub is_nil-string : (a : V) → is_string a ≡ true → is_nil a ≡ false
  pub string-int : (a : V) → is_string a ≡ true → as_int32_exact a ≡ none
  pub int-nil : as_int32_exact nil ≡ none
  -- `i32` is in the range of the exact integers of f64
  pub int-number : (n : ℕ) → n < 2 ^ 31 → as_int32_exact (number (pos n)) ≡ some (pos n)
  -- the only other number that converts to an integer is the negative zero
  pub number-int : (a : V) (k : ℤ) → as_int32_exact a ≡ some k → normalize_key a ≡ a → number k ≡ a
  pub normalize-number : (k : ℤ) → normalize_key (number k) ≡ number k
