-- ===== src/Pattern/Gsub.antt =====
-- `gsub` and `substitute_captures_bytes`, with the fast paths `gsub_plain` and
-- `substitute_plain_bytes`, of crates/luajit-rs/src/stdlib/pattern/engine.rs.
use luajit_rs.Base.{
  ℕ, zero, suc, ◌+◌, ◌-◌, ◌/◌, ◌%◌, Bool, true, false, not, ◌&&◌, ◌||◌, List, [], ◌∷◌, ◌++◌, Option,
  none, some, ltb, leb, ◌==◌, if◌then◌else◌, length, get_elem?, take, drop, Run, ok, panic, no_fuel,
  ◌>>=◌, at,
}
use luajit_rs.Pattern.Class.{is_ascii_digit, strip}
use luajit_rs.Pattern.Error.{Result, done, fail, invalid_capture_index, invalid_replacement}
use luajit_rs.Pattern.Find.{found, failed, missed, attempt}
use luajit_rs.Pattern.Plain.{find_bytes_in_slice}
use luajit_rs.Pattern.State.{MatchState, CaptureLen, new}
use luajit_rs.Pattern.Validate.{is_plain_pattern, pattern_start, validate_pattern}

-- `replacement.contains(&b'%')`
unfoldable pub has_percent : List ℕ → Bool
has_percent [] = false
has_percent (c ∷ r) = c == b'%' || has_percent r

-- The decimal digits of `n`, `format!("{}", n)`, before `acc`. The fuel bounds the digit count.
unfoldable pub decimal_loop : ℕ → ℕ → List ℕ → List ℕ
decimal_loop zero n acc = acc
decimal_loop (suc fuel) n acc =
    let rest = decimal_loop fuel (n / 10) ((b'0' + n % 10) ∷ acc) in
    if ltb n 10 then (b'0' + n % 10) ∷ acc else rest

unfoldable pub decimal : ℕ → List ℕ
unfolding decimal_loop
decimal n = decimal_loop (suc n) n []

-- `&text[a..b]`, which panics past the end
unfoldable pub slice : List ℕ → ℕ → ℕ → Run (List ℕ)
slice text a b = if ltb b a || ltb (length text) b then panic else ok (take (b - a) (drop a text))

-- `&text[a..]`
unfoldable pub slice_from : List ℕ → ℕ → Run (List ℕ)
slice_from text a = if ltb (length text) a then panic else ok (drop a text)

-- what `%` and the digit `n` stand for
unfoldable pub substitute_digit : ℕ → List ℕ → List ℕ → MatchState → Run (Result (List ℕ))
unfolding decimal slice
substitute_digit n full_match text ms =
    if n == 0
    then ok (done full_match)
    else if leb n ms.num_captures
    then (at ms.captures (n - 1) >>= λ cap. elim cap.len [
      | CaptureLen.len l ↦ slice text cap.start (cap.start + l) >>= λ bytes. ok (done bytes)
      | CaptureLen.position ↦ ok (done (decimal (cap.start + 1)))
      | CaptureLen.unfinished ↦ ok (done [])
    ])
    else if ms.num_captures == 0 && n == 1
    then ok (done full_match)
    else ok (fail (invalid_capture_index n))

-- put bytes before the result of the rest of the loop
abbrev pub prepend : List ℕ → Run (Result (List ℕ)) → Run (Result (List ℕ))
prepend bytes m = m >>= λ r. elim r [ done rest ↦ ok (done (bytes ++ rest)) | fail e ↦ ok (fail e) ]

abbrev pub and_then : Run (Result (List ℕ)) → Run (Result (List ℕ)) → Run (Result (List ℕ))
and_then m rest = m >>= λ r. elim r [ done bytes ↦ prepend bytes rest | fail e ↦ ok (fail e) ]

-- The loop runs byte by byte; the source copies a whole segment without `%` at once.
unfoldable pub substitute_captures_bytes :
    List ℕ → List ℕ → List ℕ → MatchState → Run (Result (List ℕ))
unfolding substitute_digit
substitute_captures_bytes [] full_match text ms = ok (done [])
substitute_captures_bytes (c ∷ []) full_match text ms = ok (done (c ∷ []))
substitute_captures_bytes (c ∷ k ∷ r) full_match text ms = elim (c == b'%') [
  | false ↦ prepend (c ∷ []) (substitute_captures_bytes (k ∷ r) full_match text ms)
  | true ↦ elim (k == b'%') [
    | true ↦ prepend (b'%' ∷ []) (substitute_captures_bytes r full_match text ms)
    | false ↦ elim (is_ascii_digit k) [
      | true ↦
          and_then (substitute_digit (k - b'0') full_match text ms)
            (substitute_captures_bytes r full_match text ms)
      | false ↦ ok (fail invalid_replacement)
    ]
  ]
]

-- `substitute_plain_bytes`: no captures, so `%0` and `%1` are the match.
unfoldable pub substitute_plain_bytes : List ℕ → List ℕ → Run (Result (List ℕ))
substitute_plain_bytes [] full_match = ok (done [])
substitute_plain_bytes (c ∷ []) full_match = ok (done (c ∷ []))
substitute_plain_bytes (c ∷ k ∷ r) full_match = elim (c == b'%') [
  | false ↦ prepend (c ∷ []) (substitute_plain_bytes (k ∷ r) full_match)
  | true ↦ elim (k == b'%') [
    | true ↦ prepend (b'%' ∷ []) (substitute_plain_bytes r full_match)
    | false ↦ elim (k == b'0' || k == b'1') [
      | true ↦ prepend full_match (substitute_plain_bytes r full_match)
      | false ↦
          if is_ascii_digit k
          then ok (fail (invalid_capture_index (k - b'0')))
          else ok (fail invalid_replacement)
    ]
  ]
]

abbrev pub Replaced : Type 0
Replaced = Run (Result (List ℕ × ℕ))

abbrev pub at_limit : Option ℕ → ℕ → Bool
at_limit none count = false
at_limit (some n) count = leb n count

-- `result.extend_from_slice(&text[pos..])`, and the count
unfoldable pub plain_finish : List ℕ → ℕ → ℕ → List ℕ → Replaced
unfolding slice_from
plain_finish text pos count result =
    slice_from text pos >>= λ tail. ok (done (result ++ tail, count))

-- What a match `start..end` becomes, where `needs_subst` is whether the replacement has a `%`.
unfoldable pub plain_replacement : List ℕ → List ℕ → ℕ → ℕ → Run (Result (List ℕ))
unfolding has_percent slice substitute_plain_bytes
plain_replacement text replacement start end =
    if has_percent replacement
    then (slice text start end >>= λ matched. substitute_plain_bytes replacement matched)
    else ok (done replacement)

-- The loop of `gsub_plain`. The fuel bounds its rounds: `pos` grows by the pattern's length.
unfoldable pub gsub_plain_loop : ℕ → List ℕ → List ℕ → List ℕ → Option ℕ → ℕ → ℕ → List ℕ → Replaced
unfolding plain_finish plain_replacement slice slice_from find_bytes_in_slice
gsub_plain_loop zero text pattern replacement limit pos count result = no_fuel
gsub_plain_loop (suc fuel) text pattern replacement limit pos count result =
    if ltb (length text) pos || at_limit limit count
    then plain_finish text pos count result
    else (slice_from text pos >>= λ tail. elim (find_bytes_in_slice tail pattern) [
      | none ↦ plain_finish text pos count result
      | some at_byte ↦ slice text pos (pos + at_byte) >>= λ before.
          plain_replacement text replacement (pos + at_byte) (pos + at_byte + length pattern)
          >>= λ r. elim r [
            | fail e ↦ ok (fail e)
            | done bytes ↦
                gsub_plain_loop fuel text pattern replacement limit
                  (pos + (at_byte + length pattern)) (count + 1) (result ++ before ++ bytes)
          ]
    ])

unfoldable pub gsub_plain : List ℕ → List ℕ → List ℕ → Option ℕ → Replaced
unfolding gsub_plain_loop
gsub_plain text pattern replacement limit =
    gsub_plain_loop (length text + 2) text pattern replacement limit 0 0 []

-- the variables of the loop of `gsub`
pub record GsubState : Type 0 where
  pub result : List ℕ
  pub count : ℕ
  pub ms : MatchState
  pub si : ℕ
  pub last_was_nonempty : Bool
  pub last_byte_end : ℕ

-- `if si < text.len() { result.push(text[si]); last_byte_end = si + 1; } si += 1;`, and the flag
unfoldable pub step_over : List ℕ → GsubState → GsubState
step_over text s = elim (get_elem? text s.si) [
  | some c ↦ record s {
    result = s.result ++ c ∷ [];
    last_byte_end = s.si + 1;
    si = s.si + 1;
    last_was_nonempty = false;
  }
  | none ↦ record s { si = s.si + 1; last_was_nonempty = false }
]

-- the part of a round behind a match `si..end` that is not skipped
unfoldable pub replace_match : List ℕ → List ℕ → ℕ → GsubState → Run (Result GsubState)
unfolding slice substitute_captures_bytes step_over
replace_match text replacement end s = slice text s.last_byte_end s.si >>= λ before.
    (if has_percent replacement
      then (slice text s.si end >>= λ matched.
          substitute_captures_bytes replacement matched text s.ms)
      else ok (done replacement))
    >>= λ r. elim r [
      | fail e ↦ ok (fail e)
      | done bytes ↦
          let t = record s {
            result = s.result ++ before ++ bytes;
            count = s.count + 1;
            last_byte_end = end;
          } in
          ok (
            done (
              if end == s.si
              then step_over text t
              else record t { si = end; last_was_nonempty = true }))
    ]

-- `result.extend_from_slice(&text[last_byte_end..])`
unfoldable pub finish : List ℕ → GsubState → Replaced
finish text s =
    if ltb (length text) s.last_byte_end
    then panic
    else ok (done (s.result ++ drop s.last_byte_end text, s.count))

-- The body of the loop of `gsub` below the tests of `si` and `max`; `next` is the next round.
unfoldable pub gsub_round :
    List ℕ → List ℕ → Bool → List ℕ → (GsubState → Replaced) → GsubState → Replaced
unfolding attempt replace_match finish step_over
gsub_round text pp anchored replacement next s = attempt text pp s.si s.ms >>= λ a. elim a [
  | failed e ↦ ok (fail e)
  | missed ms ↦
      if anchored || leb (length text) s.si
      then finish text (record s { ms = ms })
      else next (record s { ms = ms; si = s.si + 1; last_was_nonempty = false })
  | found end ms ↦
      if end == s.si && s.last_was_nonempty
      then next (step_over text (record s { ms = ms }))
      else (replace_match text replacement end (record s { ms = ms }) >>= λ r. elim r [
        | fail e ↦ ok (fail e)
        | done t ↦ next t
      ])
]

unfoldable pub gsub_loop : ℕ → List ℕ → List ℕ → Bool → List ℕ → Option ℕ → GsubState → Replaced
unfolding gsub_round
gsub_loop zero text pp anchored replacement limit s = no_fuel
gsub_loop (suc fuel) text pp anchored replacement limit s =
    if ltb (length text) s.si || at_limit limit s.count
    then finish text s
    else gsub_round text pp anchored replacement (gsub_loop fuel text pp anchored replacement limit)
        s

abbrev pub gsub_start : GsubState
gsub_start = record {
  result = [];
  count = 0;
  ms = new;
  si = 0;
  last_was_nonempty = false;
  last_byte_end = 0;
}

abbrev pub is_empty : List ℕ → Bool
is_empty [] = true
is_empty (_ ∷ _) = false

unfoldable pub gsub : List ℕ → List ℕ → List ℕ → Option ℕ → Replaced
unfolding gsub_plain gsub_loop attempt replace_match finish step_over strip pattern_start new
    validate_pattern is_plain_pattern
gsub text pat replacement limit =
    if is_plain_pattern pat && not (is_empty pat)
    then gsub_plain text pat replacement limit
    else (validate_pattern pat >>= λ v. elim v [
      | fail e ↦ ok (fail e)
      | done _ ↦
          gsub_loop (length text + 3) text (pattern_start pat) (strip b'^' pat).0 replacement limit
            gsub_start
    ])
