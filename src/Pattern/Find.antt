-- ===== src/Pattern/Find.antt =====
-- `find` and `find_assume_valid`, with `find_impl` and the extraction of captures, of
-- crates/luajit-rs/src/stdlib/pattern/engine.rs.
use luajit_rs.Base.{
  ℕ, zero, suc, ◌+◌, Bool, true, false, List, [], ◌∷◌, ◌++◌, Option, none, some, ltb, if◌then◌else◌,
  length, drop, Run, ok, ◌>>=◌, at,
}
use luajit_rs.Pattern.Class.{strip}
use luajit_rs.Pattern.Error.{PatternError, Result, done, fail, unfinished_capture}
use luajit_rs.Pattern.Match.{match_impl}
use luajit_rs.Pattern.Plain.{find_bytes_in_slice}
use luajit_rs.Pattern.State.{MatchState, Capture, CaptureLen, maxccalls, is_unfinished, new, reset}
use luajit_rs.Pattern.Validate.{is_plain_pattern, pattern_start, validate_pattern}

pub data CaptureValue : Type 0 where
  substring : ℕ → ℕ → CaptureValue
  position : ℕ → CaptureValue

-- the fields `data` and `count` of `CaptureResults` as one list, the values up to the count
abbrev pub CaptureResults : Type 0
CaptureResults = List CaptureValue

pub record MatchInfo : Type 0 where
  pub start : ℕ
  pub end : ℕ
  pub captures : CaptureResults

-- The loop of `check_captures`, over the `count` captures from `i`.
unfoldable pub check_captures_loop : List Capture → ℕ → ℕ → Run (Result (Unit {0}))
check_captures_loop caps i zero = ok (done tt)
check_captures_loop caps i (suc count) = at caps i >>= λ cap.
    if is_unfinished cap.len
    then ok (fail unfinished_capture)
    else check_captures_loop caps (i + 1) count

unfoldable pub check_captures : MatchState → Run (Result (Unit {0}))
unfolding check_captures_loop
check_captures ms = check_captures_loop ms.captures 0 ms.num_captures

unfoldable pub capture_values : Capture → CaptureResults
capture_values cap = elim cap.len [
  | CaptureLen.position ↦ position (cap.start + 1) ∷ []
  | CaptureLen.len l ↦ substring cap.start (cap.start + l) ∷ []
  | CaptureLen.unfinished ↦ []
]

-- The loop of `extract_captures`, over the `count` captures from `i`.
unfoldable pub extract_loop : List Capture → ℕ → ℕ → Run CaptureResults
unfolding capture_values
extract_loop caps i zero = ok []
extract_loop caps i (suc count) =
    at caps i >>= λ cap. extract_loop caps (i + 1) count >>= λ rest. ok (capture_values cap ++ rest)

unfoldable pub extract_captures : MatchState → Run CaptureResults
unfolding extract_loop
extract_captures ms = extract_loop ms.captures 0 ms.num_captures

-- enough for every call, whose depth counter starts at 0 and stops at the limit
abbrev pub match_fuel : ℕ
match_fuel = maxccalls + 2

-- the match at `si` and its captures, an error, or no match, with the state for the next round
pub data Attempt : Type 0 where
  found : ℕ → MatchState → Attempt
  failed : PatternError → Attempt
  missed : MatchState → Attempt

-- `ms.reset()`, the call of `match_impl`, `check_captures` and the test of `ms.error`
unfoldable pub attempt : List ℕ → List ℕ → ℕ → MatchState → Run Attempt
unfolding reset match_impl check_captures
attempt text pp si ms = match_impl text match_fuel si pp (reset ms) >>= λ (r, ms'). elim r [
  | some end ↦ check_captures ms' >>= λ checked. elim checked [
    | done _ ↦ ok (found end ms')
    | fail e ↦ ok (failed e)
  ]
  | none ↦ elim ms'.error [ some e ↦ ok (failed e) | none ↦ ok (missed ms') ]
]

abbrev pub Found : Type 0
Found = Result (Option (ℕ × ℕ × CaptureResults))

-- The loop of `find_impl`; the first list is `&text[si..]`.
unfoldable pub find_loop : List ℕ → List ℕ → Bool → List ℕ → ℕ → MatchState → Run Found
find_loop [] text anchored pp si ms = attempt text pp si ms >>= λ a. elim a [
  | found end ms' ↦ extract_captures ms' >>= λ caps. ok (done (some (si, end, caps)))
  | failed e ↦ ok (fail e)
  | missed _ ↦ ok (done none)
]
find_loop (c ∷ rest) text anchored pp si ms = attempt text pp si ms >>= λ a. elim a [
  | found end ms' ↦ extract_captures ms' >>= λ caps. ok (done (some (si, end, caps)))
  | failed e ↦ ok (fail e)
  | missed ms' ↦ if anchored then ok (done none) else find_loop rest text anchored pp (si + 1) ms'
]

-- `find_impl` below the fast path and the validation
unfoldable pub find_pattern : List ℕ → List ℕ → ℕ → Run Found
unfolding find_loop attempt extract_captures strip pattern_start new
find_pattern text pat init =
    find_loop (drop init text) text (strip b'^' pat).0 (pattern_start pat) init new

-- the fast path of `find_impl`
unfoldable pub find_plain : List ℕ → List ℕ → ℕ → Found
unfolding find_bytes_in_slice
find_plain text pat init = elim (find_bytes_in_slice (drop init text) pat) [
  | some pos ↦ done (some (init + pos, init + pos + length pat, []))
  | none ↦ done none
]

unfoldable pub find_impl : List ℕ → List ℕ → ℕ → Bool → Run Found
unfolding find_plain find_pattern validate_pattern is_plain_pattern
find_impl text pat init should_validate =
    if ltb (length text) init
    then ok (done none)
    else if is_plain_pattern pat
    then ok (find_plain text pat init)
    else if should_validate
    then (validate_pattern pat >>= λ v. elim v [
      | fail e ↦ ok (fail e)
      | done _ ↦ find_pattern text pat init
    ])
    else find_pattern text pat init

unfoldable pub find : List ℕ → List ℕ → ℕ → Run Found
unfolding find_impl
find text pat init = find_impl text pat init true

unfoldable pub find_assume_valid : List ℕ → List ℕ → ℕ → Run Found
unfolding find_impl
find_assume_valid text pat init = find_impl text pat init false
