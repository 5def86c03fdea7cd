-- ===== src/Pattern/State.antt =====
-- The match state of crates/luajit-rs/src/stdlib/pattern/engine.rs. The fields `text` and `pat`
-- never change and are arguments of the functions instead.
use luajit_rs.Base.{ℕ, Bool, true, false, List, Option, none, replicate}
use luajit_rs.Pattern.Error.{PatternError}

pub data CapKind : Type 0 where
  unfinished position closed : CapKind

pub data CaptureLen : Type 0 where
  len : ℕ → CaptureLen
  position unfinished : CaptureLen

pub record Capture : Type 0 where
  pub start : ℕ
  pub len : CaptureLen
  pub kind : CapKind

pub record MatchState : Type 0 where
  pub captures : List Capture
  pub num_captures : ℕ
  pub depth : ℕ
  pub error : Option PatternError

abbrev pub lua_maxcaptures : ℕ
lua_maxcaptures = 32

abbrev pub maxccalls : ℕ
maxccalls = 200

abbrev pub unfinished_from : ℕ → Capture
unfinished_from si = record { start = si; len = CaptureLen.unfinished; kind = CapKind.unfinished }

unfoldable pub new : MatchState
new = record {
  captures = replicate lua_maxcaptures (unfinished_from 0);
  num_captures = 0;
  depth = 0;
  error = none;
}

unfoldable pub reset : MatchState → MatchState
reset ms = record ms { num_captures = 0; depth = 0; error = none }

abbrev pub is_unfinished : CaptureLen → Bool
is_unfinished CaptureLen.unfinished = true
is_unfinished _ = false
