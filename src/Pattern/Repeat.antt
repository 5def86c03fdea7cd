-- ===== src/Pattern/Repeat.antt =====
-- `count_max_repetition` of crates/luajit-rs/src/stdlib/pattern/engine.rs. The loops run over the
-- rest of the text, `&text[si..]`.
pub mod Equivalence
use luajit_rs.Base.{
  ℕ, zero, suc, Bool, true, false, List, [], ◌∷◌, ◌==◌, if◌then◌else◌, length, Run, ok, panic,
  ◌>>=◌,
}
use luajit_rs.Pattern.Class.{
  is_ascii_uppercase, to_ascii_lowercase, is_class_letter, match_class, singlematch,
}

-- the length of the longest prefix whose bytes all pass the test
unfoldable pub count_while : (ℕ → Bool) → List ℕ → ℕ
count_while test [] = 0
count_while test (c ∷ t) = if test c then suc (count_while test t) else 0

-- the same for a test that may panic
unfoldable pub count_run : (ℕ → Run Bool) → List ℕ → Run ℕ
count_run test [] = ok 0
count_run test (c ∷ t) = test c >>= λ b. if b then (count_run test t >>= λ n. ok (suc n)) else ok 0

-- the letter behind a `%`
unfoldable pub count_escape : List ℕ → ℕ → ℕ
unfolding count_while
count_escape ts cl =
    if is_class_letter cl
    then count_while
        (λ c.
          if is_ascii_uppercase cl
          then (if match_class c (to_ascii_lowercase cl) then false else true)
          else match_class c (to_ascii_lowercase cl))
        ts
    else count_while (λ c. c == cl) ts

unfoldable pub count_max_repetition : List ℕ → List ℕ → Run ℕ
unfolding count_escape count_run count_while
count_max_repetition [] p = ok 0
count_max_repetition (c ∷ t) [] = panic
count_max_repetition (c ∷ t) (x ∷ []) =
    if x == b'.'
    then ok (length (c ∷ t))
    else if x == b'['
    then count_run (λ d. singlematch d (x ∷ [])) (c ∷ t)
    else ok (count_while (λ d. d == x) (c ∷ t))
count_max_repetition (c ∷ t) (x ∷ y ∷ r) =
    if x == b'.'
    then ok (length (c ∷ t))
    else if x == b'%'
    then ok (count_escape (c ∷ t) y)
    else if x == b'['
    then count_run (λ d. singlematch d (x ∷ y ∷ r)) (c ∷ t)
    else ok (count_while (λ d. d == x) (c ∷ t))
