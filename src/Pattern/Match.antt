-- ===== src/Pattern/Match.antt =====
-- The backtracking matcher of crates/luajit-rs/src/stdlib/pattern/engine.rs. `match_impl` recurs on
-- fuel; the functions it calls take it, at the fuel that is left, as the argument `again`.
use luajit_rs.Base.{
  ℕ, zero, suc, ◌+◌, ◌-◌, Bool, true, false, not, ◌&&◌, ◌||◌, List, [], ◌∷◌, Option, none, some,
  ltb, leb, ◌==◌, if◌then◌else◌, length, get_elem?, set, drop, Run, ok, no_fuel, ◌>>=◌, at, sub,
}
use luajit_rs.Pattern.Class.{is_ascii_digit, singlematch, element_end}
use luajit_rs.Pattern.Error.{too_complex, invalid_capture, invalid_capture_index}
use luajit_rs.Pattern.Repeat.{count_max_repetition}
use luajit_rs.Pattern.State.{
  MatchState, CaptureLen, CapKind, lua_maxcaptures, maxccalls, unfinished_from, is_unfinished,
}

-- `Some(end)` or `None`, and the state after it; or a panic
abbrev pub Outcome : Type 0
Outcome = Run (Option ℕ × MatchState)

abbrev pub Matcher : Type 0
Matcher = ℕ → List ℕ → MatchState → Outcome

-- on a failure the capture count goes back to `n`
abbrev pub undo_count : ℕ → Option ℕ × MatchState → Option ℕ × MatchState
undo_count n (some end, ms) = (some end, ms)
undo_count n (none, ms) = (none, record ms { num_captures = n })

-- The search of `match_close_capture`: the last unfinished capture below `n`.
unfoldable pub last_unfinished : MatchState → ℕ → Run (Option ℕ)
last_unfinished ms zero = ok none
last_unfinished ms (suc n) = at ms.captures n >>= λ slot.
    if is_unfinished slot.len then ok (some n) else last_unfinished ms n

-- on a failure capture `n` is open again
abbrev pub undo_close : ℕ → Option ℕ × MatchState → Run (Option ℕ × MatchState)
undo_close n (some end, ms) = ok (some end, ms)
undo_close n (none, ms) = at ms.captures n >>= λ slot. ok (
  none,
  record ms {
    captures =
        set ms.captures n (record slot { len = CaptureLen.unfinished; kind = CapKind.unfinished });
  },
)

-- The loop of `match_balanced`; the list is `&text[i..]`. Returns `depth` and `i`.
-- The source's depth is an i32, which overflows after 2 ^ 31 - 1 nested opening bytes: the model agrees with
-- it on texts of fewer than 2 ^ 31 bytes.
unfoldable pub balanced_loop : ℕ → ℕ → List ℕ → ℕ → ℕ → ℕ × ℕ
balanced_loop open_byte close_byte [] i depth = (depth, i)
balanced_loop open_byte close_byte (c ∷ t) i zero = (0, i)
balanced_loop open_byte close_byte (c ∷ t) i (suc d) =
    balanced_loop open_byte close_byte t (i + 1)
      (if c == close_byte then d else if c == open_byte then suc (suc d) else suc d)

abbrev pub byte_or_zero : Option ℕ → ℕ
byte_or_zero none = 0
byte_or_zero (some c) = c

module _ (text : List ℕ) (again : Matcher) where
  -- The loop of `match_greedy`, from `count` down.
  unfoldable pub greedy_loop : ℕ → List ℕ → ℕ → ℕ → MatchState → Outcome
  greedy_loop si rp least zero ms = if leb least 0 then again (si + 0) rp ms else ok (none, ms)
  greedy_loop si rp least (suc k) ms =
      if leb least (suc k)
      then (again (si + suc k) rp ms >>= λ (r, ms'). elim r [
        | some end ↦ ok (some end, ms')
        | none ↦ greedy_loop si rp least k ms'
      ])
      else ok (none, ms)

  unfoldable pub match_greedy : ℕ → List ℕ → List ℕ → ℕ → MatchState → Outcome
  unfolding greedy_loop
  match_greedy si pp rp least ms =
      count_max_repetition (drop si text) pp >>= λ count. greedy_loop si rp least count ms

  -- The loop of `match_lazy`; the first argument is `&text[i..]`.
  unfoldable pub lazy_loop : List ℕ → List ℕ → List ℕ → ℕ → MatchState → Outcome
  lazy_loop [] pp rp i ms = again i rp ms
  lazy_loop (c ∷ t) pp rp i ms = again i rp ms >>= λ (r, ms'). elim r [
    | some end ↦ ok (some end, ms')
    | none ↦ singlematch c pp >>= λ b. if b then lazy_loop t pp rp (i + 1) ms' else ok (none, ms')
  ]

  unfoldable pub match_lazy : ℕ → List ℕ → List ℕ → MatchState → Outcome
  unfolding lazy_loop
  match_lazy si pp rp ms = lazy_loop (drop si text) pp rp si ms

  unfoldable pub match_optional : ℕ → List ℕ → List ℕ → MatchState → Outcome
  match_optional si pp rp ms = elim (get_elem? text si) [
    | none ↦ again si rp ms
    | some c ↦ singlematch c pp >>= λ b.
        if b
        then (again (si + 1) rp ms >>= λ (r, ms'). elim r [
          | some end ↦ ok (some end, ms')
          | none ↦ again si rp ms'
        ])
        else again si rp ms
  ]

  unfoldable pub match_open_capture : ℕ → List ℕ → MatchState → Outcome
  match_open_capture si pp ms =
      if leb lua_maxcaptures ms.num_captures
      then ok (none, ms)
      else (again si pp (record ms {
        captures = set ms.captures ms.num_captures (unfinished_from si);
        num_captures = ms.num_captures + 1;
      })
          >>= λ r. ok (undo_count ms.num_captures r))

  unfoldable pub match_position_capture : ℕ → List ℕ → MatchState → Outcome
  match_position_capture si pp ms =
      if leb lua_maxcaptures ms.num_captures
      then ok (none, ms)
      else (again si pp (record ms {
        captures =
            set ms.captures ms.num_captures
              (record { start = si; len = CaptureLen.position; kind = CapKind.position });
        num_captures = ms.num_captures + 1;
      })
          >>= λ r. ok (undo_count ms.num_captures r))

  unfoldable pub match_close_capture : ℕ → List ℕ → MatchState → Outcome
  unfolding last_unfinished
  match_close_capture si pp ms = last_unfinished ms ms.num_captures >>= λ found. elim found [
    | none ↦ ok (none, record ms { error = some invalid_capture })
    | some n ↦ at ms.captures n >>= λ slot. sub si slot.start >>= λ l.
        again si pp (record ms {
          captures =
              set ms.captures n (record slot { len = CaptureLen.len l; kind = CapKind.closed });
        })
        >>= undo_close n
  ]

  -- The pattern stands behind `%b`.
  unfoldable pub match_balanced : ℕ → List ℕ → MatchState → Outcome
  unfolding balanced_loop
  match_balanced si (open_byte ∷ close_byte ∷ rest) ms = elim (drop si text) [
    | [] ↦ ok (none, ms)
    | c ∷ t ↦
        if c == open_byte
        then (let (depth, i) = balanced_loop open_byte close_byte t (si + 1) 1 in
            if depth == 0 then again i rest ms else ok (none, ms))
        else ok (none, ms)
  ]
  match_balanced si _ ms = ok (none, ms)

  abbrev pub previous_byte : ℕ → Run ℕ
  previous_byte zero = ok 0
  previous_byte (suc i) = at text i

  -- The pattern stands behind `%f`.
  unfoldable pub match_frontier : ℕ → List ℕ → MatchState → Outcome
  match_frontier si [] ms = ok (none, ms)
  match_frontier si (x ∷ r) ms =
      if x == b'['
      then (element_end (x ∷ r) >>= λ set_end. previous_byte si >>= λ prev_char.
          singlematch prev_char (x ∷ r) >>= λ prev_matches.
          singlematch (byte_or_zero (get_elem? text si)) (x ∷ r) >>= λ curr_matches.
          if not prev_matches && curr_matches then again si set_end ms else ok (none, ms))
      else ok (none, ms)

  -- The byte loop of `match_backref`: `count` bytes from `i` and from `j` agree.
  unfoldable pub same_bytes : ℕ → ℕ → ℕ → Run Bool
  same_bytes i j zero = ok true
  same_bytes i j (suc count) = at text i >>= λ c.
      at text j >>= λ d. if c == d then same_bytes (i + 1) (j + 1) count else ok false

  -- The pattern stands behind the digit `k` of the back reference.
  unfoldable pub match_backref : ℕ → ℕ → List ℕ → MatchState → Outcome
  unfolding same_bytes
  match_backref si k rest ms =
      let n = k - b'0' in
      let invalid : Outcome = ok (none, record ms { error = some (invalid_capture_index n) }) in
      if n == 0 || ltb ms.num_captures n
      then invalid
      else (at ms.captures (n - 1) >>= λ slot. elim slot.len [
        | CaptureLen.len l ↦
            if ltb (length text) (si + l)
            then ok (none, ms)
            else (same_bytes si slot.start l >>= λ same.
                if same then again (si + l) rest ms else ok (none, ms))
        | _ ↦ invalid
      ])

  -- One element without a suffix; `next` goes on with the loop of `match_inner`.
  unfoldable pub match_single : Matcher → ℕ → List ℕ → List ℕ → MatchState → Outcome
  match_single next si pp ep ms = elim (get_elem? text si) [
    | none ↦ ok (none, ms)
    | some c ↦ singlematch c pp >>= λ b. if b then next (si + 1) ep ms else ok (none, ms)
  ]

  -- The part of `match_inner` below "Normal pattern element".
  unfoldable pub match_element : Matcher → ℕ → List ℕ → MatchState → Outcome
  unfolding match_single match_greedy match_lazy match_optional
  match_element next si pp ms = element_end pp >>= λ ep. elim ep [
    | [] ↦ match_single next si pp [] ms
    | q ∷ rp ↦
        if q == b'*'
        then match_greedy si pp rp 0 ms
        else if q == b'+'
        then match_greedy si pp rp 1 ms
        else if q == b'-'
        then match_lazy si pp rp ms
        else if q == b'?'
        then match_optional si pp rp ms
        else match_single next si pp (q ∷ rp) ms
  ]

  -- the arm for `%` with a byte `k` behind it
  unfoldable pub match_percent : Matcher → ℕ → ℕ → List ℕ → MatchState → Outcome
  unfolding match_element match_balanced match_frontier match_backref
  match_percent next si k rest ms =
      if k == b'b'
      then match_balanced si rest ms
      else if k == b'f'
      then match_frontier si rest ms
      else if is_ascii_digit k
      then match_backref si k rest ms
      else match_element next si (b'%' ∷ k ∷ rest) ms

  -- the arm for `(`
  unfoldable pub match_paren : ℕ → List ℕ → MatchState → Outcome
  unfolding match_open_capture match_position_capture
  match_paren si [] ms = match_open_capture si [] ms
  match_paren si (y ∷ r) ms =
      if y == b')' then match_position_capture si r ms else match_open_capture si (y ∷ r) ms

  -- one round of `match_inner`, at a pattern that is not at its end
  unfoldable pub match_head : Matcher → ℕ → ℕ → List ℕ → MatchState → Outcome
  unfolding match_paren match_close_capture match_percent match_element
  match_head next si x r ms =
      if x == b'('
      then match_paren si r ms
      else if x == b')'
      then match_close_capture si r ms
      else elim r [
        | [] ↦
            if x == b'$'
            then ok (if si == length text then some si else none, ms)
            else match_element next si (x ∷ []) ms
        | k ∷ rest ↦
            if x == b'%'
            then match_percent next si k rest ms
            else match_element next si (x ∷ k ∷ rest) ms
      ]

  unfoldable pub match_inner : ℕ → Matcher
  match_inner zero si pp ms = no_fuel
  match_inner (suc rounds) si [] ms = ok (some si, ms)
  match_inner (suc rounds) si (x ∷ r) ms = match_head (match_inner rounds) si x r ms

abbrev pub leave : Option ℕ × MatchState → Option ℕ × MatchState
leave (r, ms) = (r, record ms { depth = ms.depth - 1 })

-- `match_impl` behind the test of the error
unfoldable pub match_deeper : List ℕ → Matcher → Matcher
unfolding match_inner match_head
match_deeper text again si pp ms =
    if ltb maxccalls (ms.depth + 1)
    then ok (none, record ms { error = some too_complex })
    else (match_inner text again (suc (length pp)) si pp (record ms { depth = ms.depth + 1 })
        >>= λ r. ok (leave r))

unfoldable pub match_impl : List ℕ → ℕ → Matcher
unfolding match_deeper
match_impl text zero si pp ms = no_fuel
match_impl text (suc fuel) si pp ms = elim ms.error [
  | some e ↦ ok (none, ms)
  | none ↦ match_deeper text (match_impl text fuel) si pp ms
]
