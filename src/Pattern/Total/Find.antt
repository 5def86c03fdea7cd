-- ===== src/Pattern/Total/Find.antt =====
-- `find` of crates/luajit-rs/src/stdlib/pattern/engine.rs on every input.
use luajit_rs.Base.{
  ℕ, ◌+◌, ◌≤◌, ◌≡◌, refl, Bool, true, false, List, [], ◌∷◌, none, some, ltb, ltb→le, if◌then◌else◌,
  length, drop, length-drop, ok, ◌>>=◌, Returns, arith, Bool-cases, Option-cases, inl, inr, ◌⊎◌,
}
use luajit_rs.Pattern.Error.{Result, done, fail}
use luajit_rs.Pattern.Find.{
  extract_captures, found, failed, missed, Found, find_loop, find_pattern, find_plain, find_impl,
  find, find_assume_valid,
}
use luajit_rs.Pattern.Class.{strip}
use luajit_rs.Pattern.Invariant.{Inv, Returns-bind, Returns-map, Returns-if}
use luajit_rs.Pattern.Safe.{Safe, validate_pattern-Safe, validate_pattern-total}
use luajit_rs.Pattern.State.{MatchState, new}
use luajit_rs.Pattern.Validate.{validate_pattern, pattern_start, is_plain_pattern}
use luajit_rs.Pattern.Plain.{find_bytes_in_slice}
use luajit_rs.Pattern.Plain.First.{find_bytes_in_slice-le}
use luajit_rs.Pattern.Total.Attempt.{
  HasSlots, new-HasSlots, attempt-total, InText, All, extract_captures-InText,
}

-- A match that is found starts at or behind `init`, ends in the text, and so do its captures.
abbrev pub FoundPost : List ℕ → ℕ → Found → Type 0
FoundPost text init (fail e) = Unit
FoundPost text init (done none) = Unit
FoundPost text init (done (some (start, end, caps))) =
    (init ≤ start) × (start ≤ end) × (end ≤ length text) × All (InText text) caps

FoundPost-later :
    (text : List ℕ) (init later : ℕ) (r : Found)
    → init ≤ later
    → FoundPost text later r
    → FoundPost text init r
FoundPost-later text init later (fail e) le p = tt
FoundPost-later text init later (done none) le p = tt
FoundPost-later text init later (done (some (start, end, caps))) le p =
    (omega (arith, p.0), p.1, p.2, p.3)

module _ (text pp : List ℕ) (safe : Safe pp) where
  take_match :
      (si end : ℕ) (ms : MatchState)
      → (si ≤ end) × (end ≤ length text) × Inv end ms
      → Returns
          (extract_captures ms >>= λ caps. ok (done (some (si, end, caps))))
          (FoundPost text si)
  take_match si end ms (lo, hi, v) =
      Returns-bind (extract_captures-InText text end ms v hi)
        (λ caps all. (_, refl, (omega arith, lo, hi, all)))

  find_loop-total :
      (t : List ℕ) (anchored : Bool) (si : ℕ) (ms : MatchState)
      → si + length t ≡ length text
      → HasSlots ms
      → Returns (find_loop t text anchored pp si ms) (FoundPost text si)
  unfolding find_loop
  find_loop-total [] anchored si ms e h =
      Returns-bind (attempt-total text pp safe si ms (omega arith) h) (elim [
        | found end ms' ↦ λ p. take_match si end ms' p
        | failed err ↦ λ p. (_, refl, tt)
        | missed ms' ↦ λ p. (_, refl, tt)
      ])
  find_loop-total (c ∷ rest) anchored si ms e h =
      Returns-bind (attempt-total text pp safe si ms (omega arith) h) (elim [
        | found end ms' ↦ λ p. take_match si end ms' p
        | failed err ↦ λ p. (_, refl, tt)
        | missed ms' ↦ λ p.
            Returns-if anchored (_, refl, tt)
              (Returns-map (find_loop-total rest anchored (si + 1) ms' (omega arith) p)
                (λ r. FoundPost-later text si (si + 1) r (omega arith)))
      ])

find_pattern-total :
    (text pat : List ℕ) (init : ℕ)
    → init ≤ length text
    → Safe (pattern_start pat)
    → Returns (find_pattern text pat init) (FoundPost text init)
unfolding find_pattern
find_pattern-total text pat init le safe =
    find_loop-total text (pattern_start pat) safe (drop init text) (strip b'^' pat).0 init new
      (omega (arith, length-drop init text)) new-HasSlots

find_plain-total :
    (text pat : List ℕ) (init : ℕ)
    → init ≤ length text
    → FoundPost text init (find_plain text pat init)
unfolding find_plain
find_plain-total text pat init le = elim (Option-cases (find_bytes_in_slice (drop init text) pat)) [
  | inl h ↦ rw (h, find_plain) tt
  | inr (k, h) ↦
      let fits = find_bytes_in_slice-le (drop init text) pat k h in
      rw (h, find_plain) (omega arith, omega arith, omega (arith, length-drop init text), tt)
]

-- what follows the range test and the fast path
find_impl-Post :
    (text pat : List ℕ) (init : ℕ) (should_validate : Bool)
    → (should_validate ≡ false → validate_pattern pat ≡ ok (done tt))
    → Returns (find_impl text pat init should_validate) (FoundPost text init)
unfolding find_impl
find_impl-Post text pat init should_validate valid = elim (Bool-cases (ltb (length text) init)) [
  | inl g ↦ rw g (_, refl, tt)
  | inr g ↦
      let le : init ≤ length text = ltb→le (length text) init g in
      rw g (
        Returns-if (is_plain_pattern pat) (_, refl, find_plain-total text pat init le)
          (validated le (Bool-cases should_validate)))
]
  where
    checked :
        init ≤ length text
        → (r : Result (Unit {0})) → validate_pattern pat ≡ ok r
        → Returns
            (elim r [ fail e ↦ ok (fail e) | done _ ↦ find_pattern text pat init ])
            (FoundPost text init)
    checked le (fail e) h = (_, refl, tt)
    checked le (done _) h = find_pattern-total text pat init le (validate_pattern-Safe pat h)

    validated :
        init ≤ length text
        → (should_validate ≡ true) ⊎ (should_validate ≡ false)
        → Returns
            (if should_validate
              then (validate_pattern pat >>= λ v. elim v [
                | fail e ↦ ok (fail e)
                | done _ ↦ find_pattern text pat init
              ])
              else find_pattern text pat init)
            (FoundPost text init)
    validated le (inl h) =
        let (r, run, _) = validate_pattern-total pat in rw (h, run) (checked le r run)
    validated le (inr h) =
        rw h (find_pattern-total text pat init le (validate_pattern-Safe pat (valid h)))

-- For every text, pattern and offset `find` returns, without a panic and within its fuel: an error,
-- no match, or a match that starts at or behind the offset and lies in the text with its captures. The
-- depth of `%b` is a natural number in the model, the source's i32 on texts of fewer than 2 ^ 31 bytes.
pub find-total : (text pat : List ℕ) (init : ℕ) → Returns (find text pat init) (FoundPost text init)
unfolding find
find-total text pat init = find_impl-Post text pat init true (λ e. cc)

-- On every pattern that `validate_pattern` accepts `find_assume_valid` returns, without a panic and
-- within its fuel: an error, no match, or a match that starts at or behind the offset and lies in
-- the text with its captures. The depth of `%b` is a natural number in the model, the source's i32 on
-- texts of fewer than 2 ^ 31 bytes.
pub find_assume_valid-total :
    (text pat : List ℕ) (init : ℕ)
    → validate_pattern pat ≡ ok (done tt)
    → Returns (find_assume_valid text pat init) (FoundPost text init)
unfolding find_assume_valid
find_assume_valid-total text pat init valid = find_impl-Post text pat init false (λ _. valid)
