-- ===== src/Pattern/Total/Inner.antt =====
-- The loop of the matcher and the matcher itself, of
-- crates/luajit-rs/src/stdlib/pattern/engine.rs.
use luajit_rs.Base.{
  ℕ, zero, suc, ◌+◌, ◌≤◌, ◌<◌, ◌≡◌, refl, subst, ==_iff, false, List, [], ◌∷◌, Option, none, some,
  ltb, ◌==◌, if◌then◌else◌, length, get_elem?, get_elem?-some, ok, Returns, arith, Bool-cases,
  Option-cases, inl, inr,
}
use luajit_rs.Pattern.Class.{is_ascii_digit}
use luajit_rs.Pattern.Error.{PatternError}
use luajit_rs.Pattern.Invariant.{
  Inv, Post, Keeps, KeepsAll, Same-refl, Inv-mono, Post-later, Returns-bind, Returns-map,
}
use luajit_rs.Pattern.Match.{
  Matcher, match_single, match_element, match_percent, match_paren, match_head, match_inner, leave,
  match_deeper, match_impl,
}
use luajit_rs.Pattern.Safe.{Safe, step, IsElement, Safe-suffix, Safe-head, Safe-tail, Safe-escape}
use luajit_rs.Pattern.State.{MatchState, maxccalls}
use luajit_rs.Pattern.Validate.{validate_element}
use luajit_rs.Pattern.Total.Loops.{match_greedy-Post, match_lazy-Post, match_optional-Post}
use luajit_rs.Pattern.Total.Captures.{match_open_capture-Post, match_position_capture-Post}
use luajit_rs.Pattern.Total.Close.{match_close_capture-Post}
use luajit_rs.Pattern.Total.Special.{match_balanced-Post, match_frontier-Post, match_backref-Post}

-- the last byte of a safe pattern is no `%`
Safe-last : {x : ℕ} → Safe (x ∷ []) → (x == b'%') ≡ false
unfolding validate_element
Safe-last (step e s) = ground arith

-- `$` at the end of the pattern
anchor-Post :
    (text : List ℕ) (si : ℕ) (ms : MatchState)
    → si ≤ length text
    → Inv si ms
    → Returns {A = Option ℕ × MatchState}
        (ok (if si == length text then some si else none, ms))
        (Post text si ms)
anchor-Post text si ms le v = elim (Bool-cases (si == length text)) [
  | inl h ↦ rw h ((some si, ms), refl, (omega arith, le, v, refl))
  | inr h ↦ rw h ((none, ms), refl, Same-refl ms)
]

module _ (text : List ℕ) (again : Matcher) (d : ℕ) (keeps : KeepsAll text d again) where
  module _ (n : ℕ) (next : Matcher) (goes_on : Keeps text d n next) where
    match_single-Post :
        (si : ℕ) (pp ep : List ℕ) (ms : MatchState)
        → IsElement pp ep
        → length pp ≤ n
        → si ≤ length text
        → Inv si ms
        → ms.depth ≡ d
        → Returns (match_single text again next si pp ep ms) (Post text si ms)
    unfolding match_single
    match_single-Post si pp ep ms el short le v e = elim (Option-cases (get_elem? text si)) [
      | inl h ↦ rw (h, match_single) ((none, ms), refl, Same-refl ms)
      | inr (c, h) ↦
          rw (h, match_single)
            (Returns-bind (el.tests c) (λ b _. elim (Bool-cases b) [
              | inr g ↦ rw g ((none, ms), refl, Same-refl ms)
              | inl g ↦ rw g (
                  Returns-map
                    (goes_on (si + 1) ep ms (omega (arith, el.shorter))
                      (omega (arith, get_elem?-some text si h)) el.safe (Inv-mono (omega arith) v)
                      e)
                    (λ r. Post-later text si (si + 1) ms r (omega arith)))
            ]))
    ]

    match_element-Post :
        (si : ℕ) (pp ep : List ℕ) (ms : MatchState)
        → IsElement pp ep
        → length pp ≤ n
        → si ≤ length text
        → Inv si ms
        → ms.depth ≡ d
        → Returns (match_element text again next si pp ms) (Post text si ms)
    unfolding match_element
    match_element-Post si pp [] ms el short le v e =
        rw el.ends (match_single-Post si pp [] ms el short le v e)
    match_element-Post si pp (q ∷ rp) ms el short le v e =
        rw el.ends (elim (Bool-cases (q == b'*')) [
          | inl h ↦ rw h (
              match_greedy-Post text again d keeps si pp rp 0 ms (q ∷ rp) el le
                (Safe-suffix (ground arith) el.safe) v e)
          | inr h₁ ↦ rw h₁ (elim (Bool-cases (q == b'+')) [
            | inl h ↦ rw h (
                match_greedy-Post text again d keeps si pp rp 1 ms (q ∷ rp) el le
                  (Safe-suffix (ground arith) el.safe) v e)
            | inr h₂ ↦ rw h₂ (elim (Bool-cases (q == b'-')) [
              | inl h ↦ rw h (
                  match_lazy-Post text again d keeps si pp rp ms (q ∷ rp) el le
                    (Safe-suffix (ground arith) el.safe) v e)
              | inr h₃ ↦ rw h₃ (elim (Bool-cases (q == b'?')) [
                | inl h ↦ rw h (
                    match_optional-Post text again d keeps si pp rp ms (q ∷ rp) el le
                      (Safe-suffix (ground arith) el.safe) v e)
                | inr h₄ ↦ rw h₄ (match_single-Post si pp (q ∷ rp) ms el short le v e)
              ])
            ])
          ])
        ])

    match_percent-Post :
        (si k : ℕ) (rest : List ℕ) (ms : MatchState)
        → Safe (b'%' ∷ k ∷ rest)
        → length (b'%' ∷ k ∷ rest) ≤ n
        → si ≤ length text
        → Inv si ms
        → ms.depth ≡ d
        → Returns (match_percent text again next si k rest ms) (Post text si ms)
    unfolding match_percent
    match_percent-Post si k rest ms s short le v e = elim (Bool-cases (k == b'b')) [
      | inl h ↦ rw h (
          match_balanced-Post text again d keeps si rest ms le
            (subst (λ c. Safe (b'%' ∷ c ∷ rest)) ((==_iff k b'b').0 h) s) v e)
      | inr h ↦ rw h (elim (Bool-cases (k == b'f')) [
        | inl g ↦ rw g (
            match_frontier-Post text again d keeps si rest ms le
              (subst (λ c. Safe (b'%' ∷ c ∷ rest)) ((==_iff k b'f').0 g) s) v e)
        | inr g ↦
            let el = Safe-escape s h g in
            rw g (elim (Bool-cases (is_ascii_digit k)) [
              | inl l ↦ rw l (match_backref-Post text again d keeps si k rest ms le el.safe v e)
              | inr l ↦ rw l (match_element-Post si (b'%' ∷ k ∷ rest) rest ms el short le v e)
            ])
      ])
    ]

  match_paren-Post :
      (si : ℕ) (r : List ℕ) (ms : MatchState)
      → Safe r
      → si ≤ length text
      → Inv si ms
      → ms.depth ≡ d
      → Returns (match_paren text again si r ms) (Post text si ms)
  unfolding match_paren
  match_paren-Post si [] ms s le v e = match_open_capture-Post text again d keeps si [] ms le s v e
  match_paren-Post si (y ∷ r) ms s le v e = elim (Bool-cases (y == b')')) [
    | inl h ↦ rw h (
        match_position_capture-Post text again d keeps si r ms le
          (Safe-tail s (ground arith) (ground arith)) v e)
    | inr h ↦ rw h (match_open_capture-Post text again d keeps si (y ∷ r) ms le s v e)
  ]

  module _ (n : ℕ) (next : Matcher) (goes_on : Keeps text d n next) where
    match_head-Post :
        (si x : ℕ) (r : List ℕ) (ms : MatchState)
        → Safe (x ∷ r)
        → length (x ∷ r) ≤ n
        → si ≤ length text
        → Inv si ms
        → ms.depth ≡ d
        → Returns (match_head text again next si x r ms) (Post text si ms)
    unfolding match_head
    match_head-Post si x r ms s short le v e = elim (Bool-cases (x == b'(')) [
      | inl h ↦ rw h (match_paren-Post si r ms (Safe-tail s (ground arith) (ground arith)) le v e)
      | inr h ↦ rw h (elim (Bool-cases (x == b')')) [
        | inl g ↦ rw g (
            match_close_capture-Post text again d keeps si r ms le
              (Safe-tail s (ground arith) (ground arith)) v e)
        | inr g ↦ rw g (tail r s short)
      ])
    ]
      where
        tail :
            (q : List ℕ)
            → Safe (x ∷ q)
            → length (x ∷ q) ≤ n
            → Returns
                (elim q [
                  | [] ↦
                      if x == b'$'
                      then ok (if si == length text then some si else none, ms)
                      else match_element text again next si (x ∷ []) ms
                  | k ∷ rest ↦
                      if x == b'%'
                      then match_percent text again next si k rest ms
                      else match_element text again next si (x ∷ k ∷ rest) ms
                ])
                (Post text si ms)
        tail [] s short = elim (Bool-cases (x == b'$')) [
          | inl h ↦ rw h (anchor-Post text si ms le v)
          | inr h ↦
              let (ep, el) = Safe-head s (Safe-last s) in
              rw h (match_element-Post n next goes_on si (x ∷ []) ep ms el short le v e)
        ]
        tail (k ∷ rest) s short = elim (Bool-cases (x == b'%')) [
          | inl h ↦ rw h (
              match_percent-Post n next goes_on si k rest ms
                (subst (λ c. Safe (c ∷ k ∷ rest)) ((==_iff x b'%').0 h) s) short le v e)
          | inr h ↦
              let (ep, el) = Safe-head s h in
              rw h (match_element-Post n next goes_on si (x ∷ k ∷ rest) ep ms el short le v e)
        ]

  match_inner-Keeps : (rounds : ℕ) → Keeps text d rounds (match_inner text again rounds)
  unfolding match_inner
  match_inner-Keeps zero si p ms short le s v e = absurd (omega arith)
  match_inner-Keeps (suc rounds) si [] ms short le s v e =
      ((some si, ms), refl, (omega arith, le, v, refl))
  match_inner-Keeps (suc rounds) si (x ∷ r) ms short le s v e =
      match_head-Post rounds (match_inner text again rounds) (match_inner-Keeps rounds) si x r ms s
        (omega arith) le v e

leave-Post :
    (text : List ℕ) (si : ℕ) (ms : MatchState) (r : Option ℕ × MatchState)
    → Post text si (record ms { depth = ms.depth + 1 }) r
    → Post text si ms (leave r)
leave-Post text si ms (none, after) s = record {
  depth = omega (arith, s.depth);
  count = s.count;
  slots = s.slots;
  kept = s.kept;
}
leave-Post text si ms (some end, after) (lo, hi, v, e) =
    (lo, hi, record { slots = v.slots; used = v.used; within = v.within }, omega (arith, e))

match_deeper-Post :
    (text : List ℕ) (again : Matcher) (d : ℕ)
    → (d + 1 ≤ maxccalls → KeepsAll text (d + 1) again)
    → KeepsAll text d (match_deeper text again)
unfolding match_deeper
match_deeper-Post text again d keeps si p ms le s v e =
    elim (Bool-cases (ltb maxccalls (ms.depth + 1))) [
      | inl g ↦
          rw g (_, refl, record { depth = refl; count = refl; slots = refl; kept = λ i h. refl })
      | inr g ↦
          let room : d + 1 ≤ maxccalls = ground arith in
          rw g (
            Returns-bind
              (match_inner-Keeps text again (d + 1) (keeps room) (suc (length p)) si p
                (record ms { depth = ms.depth + 1 }) (omega arith) le s
                (record { slots = v.slots; used = v.used; within = v.within }) (omega arith))
              (λ r q. (leave r, refl, leave-Post text si ms r q)))
    ]

-- With more fuel than there are levels left below the limit, the matcher keeps its promise.
pub match_impl-Post :
    (text : List ℕ) (fuel d : ℕ)
    → maxccalls < d + fuel
    → d ≤ maxccalls
    → KeepsAll text d (match_impl text fuel)
unfolding match_impl
match_impl-Post text zero d enough low si p ms le s v e = absurd (omega arith)
match_impl-Post text (suc fuel) d enough low si p ms le s v e =
    from
      (match_deeper-Post text (match_impl text fuel) d
        (λ room. match_impl-Post text fuel (d + 1) (omega arith) room) si p ms le s v e)
      ms.error
  where
    from :
        Returns (match_deeper text (match_impl text fuel) si p ms) (Post text si ms)
        → (err : Option PatternError)
        → Returns
            (elim err [
              | some _ ↦ ok (none, ms)
              | none ↦ match_deeper text (match_impl text fuel) si p ms
            ])
            (Post text si ms)
    from deeper (some _) = ((none, ms), refl, Same-refl ms)
    from deeper none = deeper

-- On a safe pattern, from a state that satisfies the invariant, with enough fuel below the depth
-- limit, `match_impl` returns: on a success an end at or behind the start and in the text, with the
-- invariant there; on a failure with every capture in use, their count and the depth as they were.
-- The depth of `%b` is a natural number in the model, the source's i32 on texts of fewer than 2 ^ 31
-- bytes.
pub match_impl_backtracks :
    (text p : List ℕ) (si fuel : ℕ) (ms : MatchState)
    → Safe p
    → si ≤ length text
    → Inv si ms
    → ms.depth ≤ maxccalls
    → maxccalls < ms.depth + fuel
    → Returns (match_impl text fuel si p ms) (Post text si ms)
match_impl_backtracks text p si fuel ms s le v low enough =
    match_impl-Post text fuel ms.depth enough low si p ms le s v refl
