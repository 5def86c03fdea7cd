-- ===== src/Pattern/Validate.antt =====
-- `is_plain_pattern`, `validate_pattern` and `validate_set` of
-- crates/luajit-rs/src/stdlib/pattern/engine.rs.
use luajit_rs.Base.{
  ℕ, zero, suc, Bool, true, false, not, ◌&&◌, ◌||◌, List, [], ◌∷◌, ◌==◌, if◌then◌else◌, length, Run,
  ok, no_fuel,
}
use luajit_rs.Pattern.Class.{strip}
use luajit_rs.Pattern.Error.{
  Result, done, fail, ends_with_percent, missing_balance, missing_frontier_set, missing_bracket,
}

abbrev pub is_special : ℕ → Bool
is_special c =
    c == b'%'
    || c == b'.'
    || c == b'['
    || c == b'*'
    || c == b'+'
    || c == b'-'
    || c == b'?'
    || c == b'^'
    || c == b'$'
    || c == b'('

unfoldable pub is_plain_pattern : List ℕ → Bool
is_plain_pattern [] = true
is_plain_pattern (c ∷ pat) = not (is_special c) && is_plain_pattern pat

-- The loop of `validate_set`.
unfoldable pub validate_set_loop : List ℕ → Result (List ℕ)
validate_set_loop [] = fail missing_bracket
validate_set_loop (x ∷ []) =
    if x == b']'
    then done []
    else if x == b'%'
    then fail ends_with_percent
    else fail missing_bracket
validate_set_loop (x ∷ y ∷ r) = elim (x == b']') [
  | true ↦ done (y ∷ r)
  | false ↦ elim (x == b'%') [ true ↦ validate_set_loop r | false ↦ validate_set_loop (y ∷ r) ]
]

-- The pattern stands behind the opening bracket.
unfoldable pub validate_set : List ℕ → Result (List ℕ)
unfolding strip
validate_set r = validate_set_loop (strip b']' (strip b'^' r).1).1

abbrev pub is_suffix : ℕ → Bool
is_suffix c = c == b'*' || c == b'+' || c == b'-' || c == b'?'

-- Skip an optional repetition suffix.
unfoldable pub skip_suffix : List ℕ → List ℕ
skip_suffix [] = []
skip_suffix (x ∷ r) = if is_suffix x then r else x ∷ r

-- the arm for `%`
unfoldable pub validate_percent : List ℕ → Result (List ℕ)
validate_percent [] = fail ends_with_percent
validate_percent (k ∷ []) =
    if k == b'b'
    then fail missing_balance
    else if k == b'f'
    then fail missing_frontier_set
    else done []
validate_percent (k ∷ x ∷ r) =
    if k == b'b'
    then elim r [ [] ↦ fail missing_balance | y ∷ t ↦ done t ]
    else if k == b'f'
    then if x == b'[' then validate_set r else fail missing_frontier_set
    else done (x ∷ r)

unfoldable pub validate_element : ℕ → List ℕ → Result (List ℕ)
unfolding validate_percent validate_set
validate_element x r =
    if x == b'%' then validate_percent r else if x == b'[' then validate_set r else done r

unfoldable pub validate_loop : ℕ → List ℕ → Run (Result (Unit {0}))
validate_loop zero p = no_fuel
validate_loop (suc fuel) [] = ok (done tt)
validate_loop (suc fuel) (x ∷ r) = elim (validate_element x r) [
  | fail e ↦ ok (fail e)
  | done rest ↦ validate_loop fuel (skip_suffix rest)
]

-- where matching starts: behind a leading `^`
unfoldable pub pattern_start : List ℕ → List ℕ
unfolding strip
pattern_start pat = (strip b'^' pat).1

unfoldable pub validate_pattern : List ℕ → Run (Result (Unit {0}))
unfolding pattern_start validate_loop validate_element skip_suffix
validate_pattern pat = validate_loop (suc (length pat)) (pattern_start pat)
