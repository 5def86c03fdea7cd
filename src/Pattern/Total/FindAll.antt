-- ===== src/Pattern/Total/FindAll.antt =====
-- `find_all_matches` of crates/luajit-rs/src/stdlib/pattern/engine.rs on every input.
use luajit_rs.Base.{
  ℕ, zero, suc, ◌+◌, ◌*◌, ◌≤◌, ◌<◌, ◌≡◌, refl, Bool, false, not, ◌&&◌, ◌||◌, List, [], ◌∷◌, ◌++◌,
  Option, none, some, ltb, leb, ◌==◌, if◌then◌else◌, length, length-append, drop, length-drop, ok,
  Returns, arith, Bool-cases, Option-cases, inl, inr,
}
use luajit_rs.Pattern.Class.{strip}
use luajit_rs.Pattern.Error.{Result, done, fail}
use luajit_rs.Pattern.Find.{MatchInfo, found, failed, missed}
use luajit_rs.Pattern.FindAll.{
  Matches, find_all_plain_loop, find_all_matches_plain, ScanState, find_all_round, find_all_loop,
  scan_fuel, find_all_matches,
}
use luajit_rs.Pattern.Gsub.{at_limit, is_empty}
use luajit_rs.Pattern.Invariant.{Returns-bind}
use luajit_rs.Pattern.Plain.{find_bytes_in_slice}
use luajit_rs.Pattern.Plain.First.{find_bytes_in_slice-le}
use luajit_rs.Pattern.Safe.{Safe, validate_pattern-Safe, validate_pattern-total}
use luajit_rs.Pattern.State.{new}
use luajit_rs.Pattern.Total.Attempt.{
  HasSlots, new-HasSlots, attempt-total, InText, All, extract_captures-InText,
}
use luajit_rs.Pattern.Total.GsubLoop.{UpTo-zero}
use luajit_rs.Pattern.Total.GsubPlain.{UpTo}
use luajit_rs.Pattern.Validate.{validate_pattern, pattern_start, is_plain_pattern}

-- The matches lie in the text with their captures, each at or behind the end of the one before it;
-- the first at or behind `lo`, the end of the last at or before `hi`.
abbrev pub InOrder : List ℕ → ℕ → ℕ → List MatchInfo → Type 0
InOrder text lo hi [] = lo ≤ hi
InOrder text lo hi (m ∷ ms) =
    (lo ≤ m.start)
    × (m.start ≤ m.end)
    × (m.end ≤ length text)
    × All (InText text) m.captures
    × InOrder text m.end hi ms

InOrder-snoc :
    (text : List ℕ) (lo hi : ℕ) (ms : List MatchInfo) (m : MatchInfo)
    → InOrder text lo hi ms
    → hi ≤ m.start
    → m.start ≤ m.end
    → m.end ≤ length text
    → All (InText text) m.captures
    → InOrder text lo m.end (ms ++ m ∷ [])
InOrder-snoc text lo hi [] m h a b c caps = (omega arith, b, c, caps, omega arith)
InOrder-snoc text lo hi (x ∷ ms) m h a b c caps =
    (h.0, h.1, h.2, h.3, InOrder-snoc text x.end hi ms m h.4 a b c caps)

InOrder-later :
    (text : List ℕ) (lo hi higher : ℕ) (ms : List MatchInfo)
    → hi ≤ higher
    → InOrder text lo hi ms
    → InOrder text lo higher ms
InOrder-later text lo hi higher [] le h = omega arith
InOrder-later text lo hi higher (x ∷ ms) le h =
    (h.0, h.1, h.2, h.3, InOrder-later text x.end hi higher ms le h.4)

-- The matches of a scan from `init`.
abbrev pub ScanPost : List ℕ → ℕ → Option ℕ → Result (List MatchInfo) → Type 0
ScanPost text init limit (fail e) = Unit {0}
ScanPost text init limit (done ms) = ((hi : ℕ) × InOrder text init hi ms) × UpTo limit (length ms)

UpTo-snoc :
    (limit : Option ℕ) (ms : List MatchInfo) (m : MatchInfo)
    → at_limit limit (length ms) ≡ false
    → UpTo limit (length (ms ++ m ∷ []))
UpTo-snoc none ms m h = tt
UpTo-snoc (some n) ms m h = ground (arith, length-append ms (m ∷ []))

find_all_plain_loop-total :
    (fuel : ℕ) (text pattern : List ℕ) (limit : Option ℕ) (init pos : ℕ) (ms : List MatchInfo)
    → 0 < length pattern
    → length text + 1 ≤ fuel + pos
    → 0 < fuel
    → InOrder text init pos ms
    → UpTo limit (length ms)
    → Returns (find_all_plain_loop fuel text pattern limit pos ms) (ScanPost text init limit)
unfolding find_all_plain_loop
find_all_plain_loop-total zero text pattern limit init pos ms p enough more ord up =
    absurd (omega arith)
find_all_plain_loop-total (suc fuel) text pattern limit init pos ms p enough more ord up =
    elim (Bool-cases (ltb (length text) pos || at_limit limit (length ms))) [
      | inl h ↦ rw h (_, refl, ((pos, ord), up))
      | inr h ↦ rw h (elim (Option-cases (find_bytes_in_slice (drop pos text) pattern)) [
        | inl g ↦ rw (g, find_all_plain_loop) (_, refl, ((pos, ord), up))
        | inr (k, g) ↦
            let fits = find_bytes_in_slice-le (drop pos text) pattern k g in
            let size = length-drop pos text in
            let inside : pos ≤ length text = ground arith in
            rw (g, find_all_plain_loop)
              (find_all_plain_loop-total fuel text pattern limit init (pos + k + length pattern) _ p
                (omega arith) (omega arith)
                (InOrder-snoc text init pos ms _ ord (omega arith) (omega arith) (omega arith) tt)
                (UpTo-snoc limit ms _ (ground arith)))
      ])
    ]

-- what grows from round to round
abbrev progress : ScanState → ℕ
progress s = 2 * s.si + (if s.last_was_nonempty then 0 else 1)

record ScanInv (text : List ℕ) (init : ℕ) (limit : Option ℕ) (s : ScanState) : Type 0 where
  slots : HasSlots s.ms
  order : InOrder text init s.si s.matches
  up_to : UpTo limit (length s.matches)

module _ (text pp : List ℕ) (anchored : Bool) (init : ℕ) (limit : Option ℕ) (safe : Safe pp) where
  find_all_round-ScanPost :
      (next : ScanState → Matches) (s : ScanState)
      → ((t : ScanState)
          → ScanInv text init limit t
          → progress s < progress t
          → t.si ≤ length text
          → Returns (next t) (ScanPost text init limit))
      → ScanInv text init limit s
      → s.si ≤ length text
      → at_limit limit (length s.matches) ≡ false
      → Returns (find_all_round text pp anchored next s) (ScanPost text init limit)
  unfolding find_all_round
  find_all_round-ScanPost next s go_on v le room =
      Returns-bind (attempt-total text pp safe s.si s.ms le v.slots) (elim [
        | failed e ↦ λ _. (_, refl, tt)
        | missed ms ↦ λ slots. elim (Bool-cases (anchored || leb (length text) s.si)) [
          | inl h ↦ rw h (_, refl, ((s.si, v.order), v.up_to))
          | inr h ↦
              let inside : s.si < length text = ground arith in
              rw h (
                go_on (record s { ms = ms; si = s.si + 1; last_was_nonempty = false })
                  (record {
                    slots = slots;
                    order = InOrder-later text init s.si (s.si + 1) s.matches (omega arith) v.order;
                    up_to = v.up_to;
                  })
                  (ground arith) (omega arith))
        ]
        | found end ms ↦ λ p. elim (Bool-cases (end == s.si && s.last_was_nonempty)) [
          | inl h ↦ rw h (
              go_on
                (record s {
                  ms = ms;
                  si = if ltb s.si (length text) then s.si + 1 else s.si;
                  last_was_nonempty = false;
                })
                (record {
                  slots = p.2.slots;
                  order = InOrder-later text init s.si _ s.matches (ground arith) v.order;
                  up_to = v.up_to;
                })
                (ground arith) (ground arith))
          | inr h ↦ rw h (
              Returns-bind (extract_captures-InText text end ms p.2 p.1) (λ caps all.
                let m : MatchInfo = record { start = s.si; end = end; captures = caps } in
                let order : InOrder text init end (s.matches ++ m ∷ []) =
                  InOrder-snoc text init s.si s.matches m v.order (omega arith) p.0 p.1 all in
                let up = UpTo-snoc limit s.matches m room in
                elim (Bool-cases (end == s.si)) [
                  | inl e ↦ rw e (elim (Bool-cases (ltb s.si (length text))) [
                    | inr f ↦ rw f (_, refl, ((end, order), up))
                    | inl f ↦ rw f (
                        go_on _
                          (record {
                            slots = p.2.slots;
                            order =
                                InOrder-later text init end (s.si + 1) (s.matches ++ m ∷ [])
                                  (ground arith) order;
                            up_to = up;
                          })
                          (ground arith) (ground arith))
                  ])
                  | inr e ↦ rw e (
                      go_on _ (record { slots = p.2.slots; order = order; up_to = up })
                        (ground arith) p.1)
                ]))
        ]
      ])

  find_all_loop-total :
      (fuel : ℕ) (s : ScanState)
      → ScanInv text init limit s
      → 0 < fuel
      → 2 * length text + 2 ≤ fuel + progress s
      → Returns (find_all_loop fuel text pp anchored limit s) (ScanPost text init limit)
  unfolding find_all_loop
  find_all_loop-total zero s v more enough = absurd (omega arith)
  find_all_loop-total (suc fuel) s v more enough =
      elim (Bool-cases (ltb (length text) s.si || at_limit limit (length s.matches))) [
        | inl h ↦ rw h (_, refl, ((s.si, v.order), v.up_to))
        | inr h ↦ rw h (
            find_all_round-ScanPost (find_all_loop fuel text pp anchored limit) s
              (λ t w up le. find_all_loop-total fuel t w (ground arith) (ground arith)) v
              (ground arith) (ground arith))
      ]

-- For every text, pattern, offset and limit `find_all_matches` returns, without a panic and within
-- its fuel: an error, or matches within the limit that lie in the text with their captures, each at
-- or behind the end of the one before it, the first at or behind the offset. The depth of `%b` is a
-- natural number in the model, the source's i32 on texts of fewer than 2 ^ 31 bytes.
pub find_all_matches-total :
    (text pat : List ℕ) (init : ℕ) (limit : Option ℕ)
    → Returns (find_all_matches text pat init limit) (ScanPost text init limit)
unfolding find_all_matches
find_all_matches-total text pat init limit =
    elim (Bool-cases (is_plain_pattern pat && not (is_empty pat))) [
      | inl h ↦ rw h (plain (nonempty pat (ground arith)))
      | inr h ↦ let (r, run, _) = validate_pattern-total pat in rw (h, run) (checked r run)
    ]
  where
    nonempty : (p : List ℕ) → is_empty p ≡ false → 0 < length p
    nonempty [] e = cc
    nonempty (x ∷ p) e = omega arith

    plain :
        0 < length pat
        → Returns (find_all_matches_plain text pat init limit) (ScanPost text init limit)
    plain pos =
        unfold find_all_matches_plain in
        find_all_plain_loop-total (length text + 2) text pat limit init init [] pos (omega arith)
          (omega arith) (omega arith) (UpTo-zero limit)

    checked :
        (r : Result (Unit {0}))
        → validate_pattern pat ≡ ok r
        → Returns
            (elim r [
              | fail e ↦ ok (fail e)
              | done _ ↦
                  find_all_loop
                    (scan_fuel text)
                    text
                    (pattern_start pat)
                    (strip b'^' pat).0
                    limit
                    (record { matches = []; ms = new; si = init; last_was_nonempty = false })
            ])
            (ScanPost text init limit)
    checked (fail e) h = (_, refl, tt)
    checked (done _) h =
        find_all_loop-total text (pattern_start pat) (strip b'^' pat).0 init limit
          (validate_pattern-Safe pat h) (scan_fuel text)
          (record { matches = []; ms = new; si = init; last_was_nonempty = false })
          (record { slots = new-HasSlots; order = omega arith; up_to = UpTo-zero limit })
          (omega arith) (omega arith)
