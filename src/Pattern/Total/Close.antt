-- ===== src/Pattern/Total/Close.antt =====
-- Closing a capture, of crates/luajit-rs/src/stdlib/pattern/engine.rs.
use luajit_rs.Base.{
  ℕ, zero, suc, ◌+◌, ◌-◌, ◌≤◌, ◌<◌, ◌≡◌, refl, sym, subst, ap, ◌∙◌, false, List, none, some, ltb,
  length, get_elem?, set, length-set, get_elem?-set_self, get_elem?-set_ne, get_elem?-lt, ◌>>=◌,
  Returns, arith, Bool-cases, inl, inr,
}
use native.Mathlib.Decide.{ℕ_discrete}
use luajit_rs.Pattern.Invariant.{
  kind_of, Within, Inv, Same, Post, KeepsAll, Post-bind, Post-none, Returns-bind, Returns-map,
}
use luajit_rs.Pattern.Match.{Matcher, last_unfinished, undo_close, match_close_capture}
use luajit_rs.Pattern.Safe.{Safe}
use luajit_rs.Pattern.State.{MatchState, Capture, CaptureLen, CapKind, is_unfinished}

pub last_unfinished-found :
    (ms : MatchState) (n : ℕ)
    → n ≤ length ms.captures
    → Returns (last_unfinished ms n) (λ r.
      (i : ℕ)
      → r ≡ some i
      → (i < n)
        × ((slot : Capture)
            → get_elem? ms.captures i ≡ some slot
            → slot.len ≡ CaptureLen.unfinished))
unfolding last_unfinished
last_unfinished-found ms zero le = (none, refl, λ i e. cc)
last_unfinished-found ms (suc n) le =
    let (slot, e) = get_elem?-lt ms.captures n (omega arith) in
    rw e (elim (Bool-cases (is_unfinished slot.len)) [
      | inl h ↦ rw h (
        some n,
        refl,
        λ i e'.
            let same : n ≡ i = cc in
            (
              omega arith,
              λ s e''.
                  let is_s : slot ≡ s = cc in
                  subst (λ (s : Capture). s.len ≡ CaptureLen.unfinished) is_s (ground arith),
            ),
      )
      | inr h ↦ rw h (
          let (r, run, found) = last_unfinished-found ms n (omega arith) in
          (r, run, λ i e'. let (lt, open_slot) = found i e' in (omega arith, open_slot)))
    ])

-- capture `n`, which was open, closed at length `l`
abbrev pub close_capture : MatchState → ℕ → Capture → ℕ → MatchState
close_capture ms n slot l = record ms {
  captures = set ms.captures n (record slot { len = CaptureLen.len l; kind = CapKind.closed });
}

pub close_capture-Inv :
    (si : ℕ) (ms : MatchState) (n : ℕ) (slot : Capture) (l : ℕ)
    → n < ms.num_captures
    → slot.start + l ≤ si
    → Inv si ms
    → Inv si (close_capture ms n slot l)
close_capture-Inv si ms n slot l lt w v = record {
  slots = length-set ms.captures n _ ∙ v.slots;
  used = v.used;
  within = λ i c lt' e. elim (ℕ_discrete n i) [
    | yes same ↦
        let closed = record slot { len = CaptureLen.len l; kind = CapKind.closed } in
        let here = get_elem?-set_self ms.captures n closed (omega (arith, v.slots, v.used)) in
        let is_c : closed ≡ c = cc (here) in subst (Within si) is_c (w, refl)
    | no other ↦ v.within i c lt' (sym (get_elem?-set_ne ms.captures n i _ other) ∙ e)
  ];
}

pub reopened :
    (slot : Capture)
    → slot.len ≡ CaptureLen.unfinished
    → kind_of slot.len ≡ slot.kind
    → record slot { len = CaptureLen.unfinished; kind = CapKind.unfinished } ≡ slot
reopened slot e k = ground arith

pub close_capture-Same :
    (ms : MatchState) (n : ℕ) (slot : Capture) (l : ℕ) (after : MatchState)
    → n < ms.num_captures
    → n < length ms.captures
    → get_elem? ms.captures n ≡ some slot
    → slot.len ≡ CaptureLen.unfinished
    → kind_of slot.len ≡ slot.kind
    → Same (close_capture ms n slot l) after
    → Returns (undo_close n (none, after)) (λ r. (r.0 ≡ none) × Same ms r.1)
close_capture-Same ms n slot l after used lt e is_open kind s =
    let closed = record slot { len = CaptureLen.len l; kind = CapKind.closed } in
    let back : get_elem? after.captures n ≡ some closed =
      s.kept n used ∙ get_elem?-set_self ms.captures n closed lt in
    rw back (
      _,
      refl,
      (
        refl,
        record {
          depth = s.depth;
          count = s.count;
          slots = length-set after.captures n _ ∙ s.slots ∙ length-set ms.captures n closed;
          kept = λ i lt'. elim (ℕ_discrete n i) [
            | yes same ↦
                let room : n < length after.captures =
                  rw (s.slots, length-set ms.captures n closed) lt in
                rw (← same) (
                  get_elem?-set_self after.captures n _ room
                  ∙ ap (λ c. some c) (reopened slot is_open kind)
                  ∙ sym e)
            | no other ↦
                get_elem?-set_ne after.captures n i _ other
                ∙ s.kept i lt'
                ∙ get_elem?-set_ne ms.captures n i closed other
          ];
        },
      ),
    )

module _ (text : List ℕ) (again : Matcher) (d : ℕ) (keeps : KeepsAll text d again) where
  pub close_found-Post :
      (si : ℕ) (pp : List ℕ) (ms : MatchState) (n : ℕ) (slot : Capture)
      → n < ms.num_captures
      → get_elem? ms.captures n ≡ some slot
      → slot.len ≡ CaptureLen.unfinished
      → slot.start ≤ si
      → si ≤ length text
      → Safe pp
      → Inv si ms
      → ms.depth ≡ d
      → Returns
          (again si pp (close_capture ms n slot (si - slot.start)) >>= undo_close n)
          (Post text si ms)
  close_found-Post si pp ms n slot used found is_open started le s v e =
      Post-bind text (undo_close n) (Post text si ms)
        (keeps si pp (close_capture ms n slot (si - slot.start)) le s
          (close_capture-Inv si ms n slot (si - slot.start) used (omega arith) v) e)
        (λ end after p. ((some end, after), refl, p))
        (λ after p.
          Returns-map
            (close_capture-Same ms n slot (si - slot.start) after used
              (omega (arith, v.slots, v.used)) found is_open (v.within n slot used found).1 p)
            (λ r q. Post-none text si ms r q.0 q.1))

  pub match_close_capture-Post :
      (si : ℕ) (pp : List ℕ) (ms : MatchState)
      → si ≤ length text
      → Safe pp
      → Inv si ms
      → ms.depth ≡ d
      → Returns (match_close_capture text again si pp ms) (Post text si ms)
  unfolding match_close_capture
  match_close_capture-Post si pp ms le s v e =
      Returns-bind (last_unfinished-found ms ms.num_captures (omega (arith, v.slots, v.used)))
        (elim [
          | none ↦ λ _.
              (_, refl, record { depth = refl; count = refl; slots = refl; kept = λ i h. refl })
          | some n ↦ λ found.
              let (lt, is_open) = found n refl in
              let (slot, at_n) = get_elem?-lt ms.captures n (omega (arith, v.slots, v.used)) in
              let started : slot.start ≤ si = omega (arith, (v.within n slot lt at_n).0) in
              let no_underflow : ltb si slot.start ≡ false = ground arith in
              rw (at_n, no_underflow)
                (close_found-Post si pp ms n slot lt at_n (is_open slot at_n) started le s v e)
        ])
