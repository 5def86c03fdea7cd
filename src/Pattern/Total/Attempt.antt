-- ===== src/Pattern/Total/Attempt.antt =====
-- One attempt of the search of crates/luajit-rs/src/stdlib/pattern/engine.rs, and the captures that
-- `extract_captures` returns.
use luajit_rs.Base.{
  ℕ, zero, suc, ◌+◌, ◌≤◌, ◌≡◌, refl, List, [], ◌∷◌, ◌++◌, Option, none, some, length, get_elem?-lt,
  length-replicate, ok, ◌>>=◌, Returns, arith, Bool-cases, inl, inr,
}
use luajit_rs.Pattern.Error.{done, fail, PatternError}
use luajit_rs.Pattern.Find.{
  CaptureValue, substring, position, check_captures_loop, check_captures, capture_values,
  extract_loop, extract_captures, match_fuel, Attempt, found, failed, missed, attempt,
}
use luajit_rs.Pattern.Invariant.{Within, Inv, Post, Inv-Same, Returns-bind}
use luajit_rs.Pattern.Safe.{Safe}
use luajit_rs.Pattern.State.{
  MatchState, Capture, lua_maxcaptures, unfinished_from, new, reset, is_unfinished,
}
use luajit_rs.Pattern.Total.Inner.{match_impl-Post}

-- Between attempts only the array of captures has to have its size.
abbrev pub HasSlots : MatchState → Type 0
HasSlots ms = length ms.captures ≡ lua_maxcaptures

pub new-HasSlots : HasSlots new
unfolding new
new-HasSlots = length-replicate lua_maxcaptures (unfinished_from 0)

pub reset-Inv : (si : ℕ) (ms : MatchState) → HasSlots ms → Inv si (reset ms)
unfolding reset
reset-Inv si ms h = record {
  slots = h;
  used = omega arith;
  within = λ i c lt. absurd (omega arith);
}

pub reset-depth : (ms : MatchState) → (reset ms).depth ≡ 0
unfolding reset
reset-depth ms = refl

pub check_captures_loop-total :
    (caps : List Capture) (i count : ℕ)
    → i + count ≤ length caps
    → Returns (check_captures_loop caps i count) (λ _. Unit {0})
unfolding check_captures_loop
check_captures_loop-total caps i zero h = (done tt, refl, tt)
check_captures_loop-total caps i (suc count) h =
    let (slot, e) = get_elem?-lt caps i (omega arith) in
    rw e (elim (Bool-cases (is_unfinished slot.len)) [
      | inl g ↦ rw g (_, refl, tt)
      | inr g ↦ rw g (check_captures_loop-total caps (i + 1) count (omega arith))
    ])

-- What an attempt at `si` may return.
abbrev pub AttemptPost : List ℕ → ℕ → Attempt → Type 0
AttemptPost text si (found end ms) = (si ≤ end) × (end ≤ length text) × Inv end ms
AttemptPost text si (failed e) = Unit
AttemptPost text si (missed ms) = HasSlots ms

module _ (text pp : List ℕ) (safe : Safe pp) where
  pub attempt-total :
      (si : ℕ) (ms : MatchState)
      → si ≤ length text
      → HasSlots ms
      → Returns (attempt text pp si ms) (AttemptPost text si)
  unfolding attempt check_captures
  attempt-total si ms le h =
      Returns-bind
        (match_impl-Post text match_fuel 0 (omega arith) (omega arith) si pp (reset ms) le safe
          (reset-Inv si ms h) (reset-depth ms))
        outcome
    where
      outcome :
          (r : Option ℕ × MatchState)
          → Post text si (reset ms) r
          → Returns
              (elim r.0 [
                | some end ↦ check_captures r.1 >>= λ checked. elim checked [
                  | done _ ↦ ok (found end r.1)
                  | fail e ↦ ok (failed e)
                ]
                | none ↦ elim r.1.error [ some e ↦ ok (failed e) | none ↦ ok (missed r.1) ]
              ])
              (AttemptPost text si)
      outcome (some end, after) (lo, hi, v, e) =
          Returns-bind
            (check_captures_loop-total after.captures 0 after.num_captures
              (omega (arith, v.slots, v.used)))
            (elim [
              | done _ ↦ λ _. (found end after, refl, (lo, hi, v))
              | fail err ↦ λ _. (failed err, refl, tt)
            ])
      outcome (none, after) s = by_error after.error
        where
          by_error :
              (err : Option PatternError)
              → Returns
                  (elim err [ some e ↦ ok (failed e) | none ↦ ok (missed after) ])
                  (AttemptPost text si)
          by_error (some e) = (failed e, refl, tt)
          by_error none = (missed after, refl, (Inv-Same (reset-Inv si ms h) s).slots)

-- A captured substring lies in the text; a captured position is one of its 1-based positions.
abbrev pub InText : List ℕ → CaptureValue → Type 0
InText text (substring a b) = (a ≤ b) × (b ≤ length text)
InText text (position p) = (1 ≤ p) × (p ≤ length text + 1)

abbrev pub All {ℓ κ} : {A : Type ℓ} → (A → Type κ) → List A → Type κ
All P [] = Unit
All P (x ∷ xs) = P x × All P xs

pub All-append {ℓ κ} :
    {A : Type ℓ} (P : A → Type κ) (xs ys : List A) → All P xs → All P ys → All P (xs ++ ys)
All-append P [] ys h k = k
All-append P (x ∷ xs) ys h k = (h.0, All-append P xs ys h.1 k)

pub capture_values-InText :
    (text : List ℕ) (end : ℕ) (slot : Capture)
    → Within end slot
    → end ≤ length text
    → All (InText text) (capture_values slot)
unfolding capture_values
capture_values-InText text end slot w le = ground arith

module _ (text : List ℕ) (end : ℕ) (ms : MatchState) (v : Inv end ms) (le : end ≤ length text) where
  pub extract_loop-InText :
      (i count : ℕ)
      → i + count ≤ ms.num_captures
      → Returns (extract_loop ms.captures i count) (All (InText text))
  unfolding extract_loop
  extract_loop-InText i zero h = ([], refl, tt)
  extract_loop-InText i (suc count) h =
      let (slot, e) = get_elem?-lt ms.captures i (omega (arith, v.slots, v.used)) in
      let (rest, run, all) = extract_loop-InText (i + 1) count (omega arith) in
      rw (e, run)
        (
          capture_values slot ++ rest,
          refl,
          All-append (InText text) (capture_values slot) rest
              (capture_values-InText text end slot (v.within i slot (omega arith) e) le) all,
        )

  pub extract_captures-InText : Returns (extract_captures ms) (All (InText text))
  unfolding extract_captures
  extract_captures-InText = extract_loop-InText 0 ms.num_captures (omega arith)
