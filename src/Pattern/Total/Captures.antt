-- ===== src/Pattern/Total/Captures.antt =====
-- The capture functions of crates/luajit-rs/src/stdlib/pattern/engine.rs.
use luajit_rs.Base.{
  ℕ, ◌+◌, ◌≤◌, ◌<◌, ◌≡◌, refl, sym, subst, ◌∙◌, List, none, some, leb, length, set, length-set,
  get_elem?-set_self, get_elem?-set_ne, ok, ◌>>=◌, Returns, arith, Bool-cases, inl, inr,
}
use native.Mathlib.Decide.{ℕ_discrete}
use luajit_rs.Pattern.Invariant.{Within, Inv, Same, Post, KeepsAll, Same-refl, Post-bind}
use luajit_rs.Pattern.Match.{Matcher, undo_count, match_open_capture, match_position_capture}
use luajit_rs.Pattern.Safe.{Safe}
use luajit_rs.Pattern.State.{MatchState, Capture, lua_maxcaptures, unfinished_from}

-- a new capture at `si`
abbrev push_capture : MatchState → Capture → MatchState
push_capture ms slot = record ms {
  captures = set ms.captures ms.num_captures slot;
  num_captures = ms.num_captures + 1;
}

push_capture-Inv :
    (si : ℕ) (ms : MatchState) (slot : Capture)
    → ms.num_captures < lua_maxcaptures
    → Within si slot
    → Inv si ms
    → Inv si (push_capture ms slot)
push_capture-Inv si ms slot room w v = record {
  slots = length-set ms.captures ms.num_captures slot ∙ v.slots;
  used = omega arith;
  within = λ i c lt e. elim (ℕ_discrete ms.num_captures i) [
    | yes same ↦
        let here = get_elem?-set_self ms.captures ms.num_captures slot (omega (arith, v.slots)) in
        let is_c : slot ≡ c = cc (here) in subst (Within si) is_c w
    | no other ↦
        v.within i c (omega arith)
          (sym (get_elem?-set_ne ms.captures ms.num_captures i slot other) ∙ e)
  ];
}

undo_count-Same :
    (ms : MatchState) (slot : Capture) (after : MatchState)
    → Same (push_capture ms slot) after
    → Same ms (record after { num_captures = ms.num_captures })
undo_count-Same ms slot after s = record {
  depth = s.depth;
  count = refl;
  slots = s.slots ∙ length-set ms.captures ms.num_captures slot;
  kept = λ i lt.
      s.kept i (omega arith)
      ∙ get_elem?-set_ne ms.captures ms.num_captures i slot (λ e. absurd (omega (arith, e)));
}

module _ (text : List ℕ) (again : Matcher) (d : ℕ) (keeps : KeepsAll text d again) where
  push_capture-Post :
      (si : ℕ) (pp : List ℕ) (ms : MatchState) (slot : Capture)
      → ms.num_captures < lua_maxcaptures
      → Within si slot
      → si ≤ length text
      → Safe pp
      → Inv si ms
      → ms.depth ≡ d
      → Returns
          (again si pp (push_capture ms slot) >>= λ r. ok (undo_count ms.num_captures r))
          (Post text si ms)
  push_capture-Post si pp ms slot room w le s v e =
      Post-bind text _ (Post text si ms)
        (keeps si pp (push_capture ms slot) le s (push_capture-Inv si ms slot room w v) e)
        (λ end after p. ((some end, after), refl, p))
        (λ after p. (_, refl, undo_count-Same ms slot after p))

  pub match_open_capture-Post :
      (si : ℕ) (pp : List ℕ) (ms : MatchState)
      → si ≤ length text
      → Safe pp
      → Inv si ms
      → ms.depth ≡ d
      → Returns (match_open_capture text again si pp ms) (Post text si ms)
  unfolding match_open_capture
  match_open_capture-Post si pp ms le s v e =
      elim (Bool-cases (leb lua_maxcaptures ms.num_captures)) [
        | inl h ↦ rw h ((none, ms), refl, Same-refl ms)
        | inr h ↦ rw h (
            push_capture-Post si pp ms (unfinished_from si) (ground arith) (omega arith, refl) le s
              v e)
      ]

  pub match_position_capture-Post :
      (si : ℕ) (pp : List ℕ) (ms : MatchState)
      → si ≤ length text
      → Safe pp
      → Inv si ms
      → ms.depth ≡ d
      → Returns (match_position_capture text again si pp ms) (Post text si ms)
  unfolding match_position_capture
  match_position_capture-Post si pp ms le s v e =
      elim (Bool-cases (leb lua_maxcaptures ms.num_captures)) [
        | inl h ↦ rw h ((none, ms), refl, Same-refl ms)
        | inr h ↦ rw h (push_capture-Post si pp ms _ (ground arith) (omega arith, refl) le s v e)
      ]
