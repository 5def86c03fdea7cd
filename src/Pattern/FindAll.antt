-- ===== src/Pattern/FindAll.antt =====
-- `find_all_matches` and its fast path `find_all_matches_plain`, of
-- crates/luajit-rs/src/stdlib/pattern/engine.rs.
use luajit_rs.Base.{
  ℕ, zero, suc, ◌+◌, ◌*◌, Bool, true, false, not, ◌&&◌, ◌||◌, List, [], ◌∷◌, ◌++◌, Option, none,
  some, ltb, leb, ◌==◌, if◌then◌else◌, length, drop, Run, ok, no_fuel, ◌>>=◌,
}
use luajit_rs.Pattern.Class.{strip}
use luajit_rs.Pattern.Error.{Result, done, fail}
use luajit_rs.Pattern.Find.{MatchInfo, found, failed, missed, attempt, extract_captures}
use luajit_rs.Pattern.Gsub.{at_limit, is_empty}
use luajit_rs.Pattern.Plain.{find_bytes_in_slice}
use luajit_rs.Pattern.State.{MatchState, new}
use luajit_rs.Pattern.Validate.{is_plain_pattern, pattern_start, validate_pattern}

abbrev pub Matches : Type 0
Matches = Run (Result (List MatchInfo))

-- The loop of `find_all_matches_plain`.
unfoldable pub find_all_plain_loop : ℕ → List ℕ → List ℕ → Option ℕ → ℕ → List MatchInfo → Matches
find_all_plain_loop zero text pattern limit pos found_so_far = no_fuel
find_all_plain_loop (suc fuel) text pattern limit pos found_so_far =
    let rest = λ (at_byte : ℕ).
      find_all_plain_loop fuel text pattern limit (pos + at_byte + length pattern) (
        found_so_far
        ++ record { start = pos + at_byte; end = pos + at_byte + length pattern; captures = [] }
          ∷ []) in
    if ltb (length text) pos || at_limit limit (length found_so_far)
    then ok (done found_so_far)
    else elim (find_bytes_in_slice (drop pos text) pattern) [
      | none ↦ ok (done found_so_far)
      | some at_byte ↦ rest at_byte
    ]

unfoldable pub find_all_matches_plain : List ℕ → List ℕ → ℕ → Option ℕ → Matches
unfolding find_all_plain_loop
find_all_matches_plain text pattern init limit =
    find_all_plain_loop (length text + 2) text pattern limit init []

-- the variables of the loop of `find_all_matches`
pub record ScanState : Type 0 where
  pub matches : List MatchInfo
  pub ms : MatchState
  pub si : ℕ
  pub last_was_nonempty : Bool

-- The body of the loop of `find_all_matches` below the tests of `si` and `max`; `next` is the next
-- round.
unfoldable pub find_all_round : List ℕ → List ℕ → Bool → (ScanState → Matches) → ScanState → Matches
unfolding attempt extract_captures
find_all_round text pp anchored next s = attempt text pp s.si s.ms >>= λ a. elim a [
  | failed e ↦ ok (fail e)
  | missed ms ↦
      if anchored || leb (length text) s.si
      then ok (done s.matches)
      else next (record s { ms = ms; si = s.si + 1; last_was_nonempty = false })
  | found end ms ↦
      if end == s.si && s.last_was_nonempty
      then next (record s {
        ms = ms;
        si = if ltb s.si (length text) then s.si + 1 else s.si;
        last_was_nonempty = false;
      })
      else (extract_captures ms >>= λ caps.
          (let matches = s.matches ++ record { start = s.si; end = end; captures = caps } ∷ [] in
            if end == s.si
            then if ltb s.si (length text)
              then next
                  (record { matches = matches; ms = ms; si = s.si + 1; last_was_nonempty = false })
              else ok (done matches)
            else next (record { matches = matches; ms = ms; si = end; last_was_nonempty = true })))
]

unfoldable pub find_all_loop : ℕ → List ℕ → List ℕ → Bool → Option ℕ → ScanState → Matches
unfolding find_all_round
find_all_loop zero text pp anchored limit s = no_fuel
find_all_loop (suc fuel) text pp anchored limit s =
    if ltb (length text) s.si || at_limit limit (length s.matches)
    then ok (done s.matches)
    else find_all_round text pp anchored (find_all_loop fuel text pp anchored limit) s

-- each round raises `2 * si`, or keeps it and clears the flag
abbrev pub scan_fuel : List ℕ → ℕ
scan_fuel text = 2 * length text + 3

unfoldable pub find_all_matches : List ℕ → List ℕ → ℕ → Option ℕ → Matches
unfolding find_all_matches_plain find_all_loop attempt strip pattern_start new validate_pattern
    is_plain_pattern find_bytes_in_slice
find_all_matches text pat init limit =
    if is_plain_pattern pat && not (is_empty pat)
    then find_all_matches_plain text pat init limit
    else (validate_pattern pat >>= λ v. elim v [
      | fail e ↦ ok (fail e)
      | done _ ↦
          find_all_loop (scan_fuel text) text (pattern_start pat) (strip b'^' pat).0 limit
            (record { matches = []; ms = new; si = init; last_was_nonempty = false })
    ])
