-- ===== src/Pattern/Total/GsubLoop.antt =====
-- The loops of `gsub` and `gsub_plain` of crates/luajit-rs/src/stdlib/pattern/engine.rs.
use luajit_rs.Base.{
  ℕ, zero, suc, ◌+◌, ◌≤◌, ◌<◌, ◌≡◌, refl, Bool, false, not, ◌&&◌, ◌||◌, List, [], ◌∷◌, Option, none,
  some, ltb, leb, ◌==◌, length, ok, Returns, arith, Bool-cases, inl, inr,
}
use luajit_rs.Pattern.Class.{strip}
use luajit_rs.Pattern.Error.{Result, done, fail}
use luajit_rs.Pattern.Find.{found, failed, missed}
use luajit_rs.Pattern.Gsub.{
  Replaced, at_limit, gsub_plain, GsubState, step_over, gsub_round, gsub_loop, gsub_start, is_empty,
  gsub,
}
use luajit_rs.Pattern.Invariant.{Returns-bind, Returns-if}
use luajit_rs.Pattern.Safe.{Safe, validate_pattern-Safe, validate_pattern-total}
use luajit_rs.Pattern.State.{MatchState}
use luajit_rs.Pattern.Total.Attempt.{HasSlots, new-HasSlots, attempt-total}
use luajit_rs.Pattern.Validate.{validate_pattern, pattern_start, is_plain_pattern}
use luajit_rs.Pattern.Total.GsubPlain.{UpTo, CountPost, gsub_plain_loop-total}
use luajit_rs.Pattern.Total.GsubRound.{
  GsubInv, step_over-GsubInv, replace_match-RoundPost, finish-CountPost,
}

module _ (text pp replacement : List ℕ) (anchored : Bool) (limit : Option ℕ) (safe : Safe pp) where
  with_ms :
      (s : GsubState) (ms : MatchState)
      → HasSlots ms
      → GsubInv text limit s
      → GsubInv text limit (record s { ms = ms })
  with_ms s ms slots v = record {
    slots = slots;
    behind = v.behind;
    copied = v.copied;
    up_to = v.up_to;
  }

  gsub_round-CountPost :
      (next : GsubState → Replaced) (s : GsubState)
      → ((t : GsubState)
          → GsubInv text limit t
          → s.si + 1 ≤ t.si
          → t.si ≤ length text + 1
          → Returns (next t) (CountPost limit))
      → GsubInv text limit s
      → s.si ≤ length text
      → at_limit limit s.count ≡ false
      → Returns (gsub_round text pp anchored replacement next s) (CountPost limit)
  unfolding gsub_round
  gsub_round-CountPost next s go_on v le room =
      Returns-bind (attempt-total text pp safe s.si s.ms le v.slots) (elim [
        | failed e ↦ λ _. (_, refl, tt)
        | missed ms ↦ λ slots.
            let w = with_ms s ms slots v in
            Returns-if (anchored || leb (length text) s.si)
              (finish-CountPost text limit (record s { ms = ms }) w)
              (go_on (record s { ms = ms; si = s.si + 1; last_was_nonempty = false })
                (record {
                  slots = slots;
                  behind = omega (arith, v.behind);
                  copied = v.copied;
                  up_to = v.up_to;
                })
                (omega arith) (omega arith))
        | found end ms ↦ λ p.
            let w = with_ms s ms p.2.slots v in
            let (over, e) = step_over-GsubInv text limit (record s { ms = ms }) w in
            Returns-if (end == s.si && s.last_was_nonempty)
              (go_on (step_over text (record s { ms = ms })) over (omega (arith, e))
                (omega (arith, e)))
              (Returns-bind
                (replace_match-RoundPost text replacement end (record s { ms = ms }) limit p.0 p.1
                  p.2 w room)
                (elim [ fail err ↦ λ _. (_, refl, tt) | done t ↦ λ q. go_on t q.0 q.1 q.2 ]))
      ])

  gsub_loop-total :
      (fuel : ℕ) (s : GsubState)
      → GsubInv text limit s
      → s.si ≤ length text + 1
      → length text + 2 ≤ fuel + s.si
      → Returns (gsub_loop fuel text pp anchored replacement limit s) (CountPost limit)
  unfolding gsub_loop
  gsub_loop-total zero s v le enough = absurd (omega arith)
  gsub_loop-total (suc fuel) s v le enough =
      elim (Bool-cases (ltb (length text) s.si || at_limit limit s.count)) [
        | inl h ↦ rw h (finish-CountPost text limit s v)
        | inr h ↦
            let inside : s.si ≤ length text = ground arith in
            let room : at_limit limit s.count ≡ false = ground arith in
            rw h (
              gsub_round-CountPost (gsub_loop fuel text pp anchored replacement limit) s
                (λ t w lo hi. gsub_loop-total fuel t w hi (omega arith)) v inside room)
      ]

pub UpTo-zero : (limit : Option ℕ) → UpTo limit 0
UpTo-zero none = tt
UpTo-zero (some n) = omega arith

-- For every text, pattern, replacement and limit `gsub` returns, without a panic and within its
-- fuel: an error, or a text with a count of replacements that is within the limit. The depth of `%b` is
-- a natural number in the model, the source's i32 on texts of fewer than 2 ^ 31 bytes.
pub gsub-total :
    (text pat replacement : List ℕ) (limit : Option ℕ)
    → Returns (gsub text pat replacement limit) (CountPost limit)
unfolding gsub
gsub-total text pat replacement limit =
    elim (Bool-cases (is_plain_pattern pat && not (is_empty pat))) [
      | inl h ↦ rw h (plain (nonempty pat (ground arith)))
      | inr h ↦ let (r, run, _) = validate_pattern-total pat in rw (h, run) (checked r run)
    ]
  where
    nonempty : (p : List ℕ) → is_empty p ≡ false → 0 < length p
    nonempty [] e = cc
    nonempty (x ∷ p) e = omega arith

    plain : 0 < length pat → Returns (gsub_plain text pat replacement limit) (CountPost limit)
    plain pos =
        unfold gsub_plain in
        gsub_plain_loop-total (length text + 2) text pat replacement limit 0 0 [] pos (omega arith)
          (omega arith) (UpTo-zero limit)

    checked :
        (r : Result (Unit {0}))
        → validate_pattern pat ≡ ok r
        → Returns
            (elim r [
              | fail e ↦ ok (fail e)
              | done _ ↦
                  gsub_loop
                    (length text + 3)
                    text
                    (pattern_start pat)
                    (strip b'^' pat).0
                    replacement
                    limit
                    gsub_start
            ])
            (CountPost limit)
    checked (fail e) h = (_, refl, tt)
    checked (done _) h =
        gsub_loop-total text (pattern_start pat) replacement (strip b'^' pat).0 limit
          (validate_pattern-Safe pat h) (length text + 3) gsub_start
          (record {
            slots = new-HasSlots;
            behind = omega arith;
            copied = omega arith;
            up_to = UpTo-zero limit;
          })
          (omega arith) (omega arith)
