-- ===== src/Pattern/Error.antt =====
-- The error messages of crates/luajit-rs/src/stdlib/pattern/engine.rs, and `Result`.
use luajit_rs.Base.{ℕ}

pub data PatternError : Type 0 where
  ends_with_percent missing_balance missing_frontier_set missing_bracket : PatternError
  too_complex invalid_capture unfinished_capture invalid_replacement : PatternError
  invalid_capture_index : ℕ → PatternError

pub data Result {ℓ} (A : Type ℓ) : Type ℓ where
  done : A → Result A
  fail : PatternError → Result A
