-- ===== src/Pattern/Total/GsubRound.antt =====
-- The steps of a round of `gsub` of crates/luajit-rs/src/stdlib/pattern/engine.rs.
use luajit_rs.Base.{
  ℕ, ◌+◌, ◌≤◌, ◌≡◌, refl, true, false, List, ◌++◌, Option, none, some, ltb, ◌==◌, if◌then◌else◌,
  length, get_elem?, get_elem?-some, Returns, arith, Bool-cases, inl, inr,
}
use luajit_rs.Pattern.Error.{Result, done, fail}
use luajit_rs.Pattern.Gsub.{has_percent, at_limit, GsubState, step_over, replace_match, finish}
use luajit_rs.Pattern.Invariant.{Inv, Returns-bind, Returns-if}
use luajit_rs.Pattern.Total.Attempt.{HasSlots}
use luajit_rs.Pattern.Total.Gsub.{slice-Ends, substitute_captures_bytes-Ends}
use luajit_rs.Pattern.Total.GsubPlain.{UpTo, CountPost, UpTo-suc}

-- what holds of the variables at the head of the loop of `gsub`
pub record GsubInv (text : List ℕ) (limit : Option ℕ) (s : GsubState) : Type 0 where
  pub slots : HasSlots s.ms
  pub behind : s.last_byte_end ≤ s.si
  pub copied : s.last_byte_end ≤ length text
  pub up_to : UpTo limit s.count

pub step_over-GsubInv :
    (text : List ℕ) (limit : Option ℕ) (s : GsubState)
    → GsubInv text limit s
    → GsubInv text limit (step_over text s) × ((step_over text s).si ≡ s.si + 1)
unfolding step_over
step_over-GsubInv text limit s v = from (get_elem? text s.si) refl
  where
    from :
        (o : Option ℕ)
        → get_elem? text s.si ≡ o
        → GsubInv text limit (step_over text s) × ((step_over text s).si ≡ s.si + 1)
    from none h =
        rw (h, step_over)
          (
            record {
              slots = v.slots;
              behind = omega (arith, v.behind);
              copied = v.copied;
              up_to = v.up_to;
            },
            refl,
          )
    from (some c) h =
        let lt = get_elem?-some text s.si h in
        rw (h, step_over)
          (
            record { slots = v.slots; behind = omega arith; copied = omega arith; up_to = v.up_to },
            refl,
          )

-- the state behind a round that replaced a match
abbrev pub RoundPost : List ℕ → Option ℕ → ℕ → Result GsubState → Type 0
RoundPost text limit si (fail e) = Unit {0}
RoundPost text limit si (done t) = GsubInv text limit t × (si + 1 ≤ t.si) × (t.si ≤ length text + 1)

pub advance-RoundPost :
    (text : List ℕ) (limit : Option ℕ) (t : GsubState)
    → t.si ≤ t.last_byte_end
    → t.last_byte_end ≤ length text
    → HasSlots t.ms
    → UpTo limit t.count
    → RoundPost text limit t.si (
        done (
          if t.last_byte_end == t.si
          then step_over text t
          else record t { si = t.last_byte_end; last_was_nonempty = true }))
advance-RoundPost text limit t lo hi slots up = elim (Bool-cases (t.last_byte_end == t.si)) [
  | inl h ↦
      let inv : GsubInv text limit t = record {
        slots = slots;
        behind = ground arith;
        copied = hi;
        up_to = up;
      } in
      let (v, e) = step_over-GsubInv text limit t inv in
      simp h (v, omega (arith, e), omega (arith, e))
  | inr h ↦ simp h (
    record { slots = slots; behind = omega arith; copied = hi; up_to = up },
    ground arith,
    omega arith,
  )
]

pub replace_match-RoundPost :
    (text replacement : List ℕ) (end : ℕ) (s : GsubState) (limit : Option ℕ)
    → s.si ≤ end
    → end ≤ length text
    → Inv end s.ms
    → GsubInv text limit s
    → at_limit limit s.count ≡ false
    → Returns (replace_match text replacement end s) (RoundPost text limit s.si)
unfolding replace_match
replace_match-RoundPost text replacement end s limit lo hi inv v room =
    Returns-bind (slice-Ends text s.last_byte_end s.si v.behind (omega arith)) (λ before _.
      Returns-bind
        (Returns-if (has_percent replacement)
          (Returns-bind (slice-Ends text s.si end lo hi)
            (λ matched _. substitute_captures_bytes-Ends text matched end s.ms inv hi replacement))
          (done replacement, refl, tt))
        (elim [
          | fail e ↦ λ _. (_, refl, tt)
          | done bytes ↦ λ _. (
            _,
            refl,
            advance-RoundPost text limit
                (record s {
                  result = s.result ++ before ++ bytes;
                  count = s.count + 1;
                  last_byte_end = end;
                })
                lo hi inv.slots (UpTo-suc limit s.count room),
          )
        ]))

pub finish-CountPost :
    (text : List ℕ) (limit : Option ℕ) (s : GsubState)
    → GsubInv text limit s
    → Returns (finish text s) (CountPost limit)
unfolding finish
finish-CountPost text limit s v =
    let inside : ltb (length text) s.last_byte_end ≡ false = ground (arith, v.copied) in
    rw inside (_, refl, v.up_to)
