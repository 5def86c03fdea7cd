-- ===== src/Pattern/Total/Gsub.antt =====
-- The replacement texts of `gsub` of crates/luajit-rs/src/stdlib/pattern/engine.rs.
use luajit_rs.Base.{
  ℕ, ◌+◌, ◌-◌, ◌≤◌, ◌<◌, refl, ◌&&◌, ◌||◌, List, [], ◌∷◌, leb, ◌==◌, length, get_elem?-lt, take,
  drop, Run, ok, ◌>>=◌, Returns, arith, Bool-cases, inl, inr,
}
use luajit_rs.Pattern.Class.{is_ascii_digit}
use luajit_rs.Pattern.Error.{Result, done, fail}
use luajit_rs.Pattern.Gsub.{
  slice, substitute_digit, substitute_captures_bytes, substitute_plain_bytes, prepend, and_then,
  decimal,
}
use luajit_rs.Pattern.Invariant.{Within, width, Inv, Returns-bind, Returns-if}
use luajit_rs.Pattern.State.{MatchState, Capture, CaptureLen}

-- The run ends with a result, of which nothing more is said.
abbrev pub Ends {ℓ} : {A : Type ℓ} → Run A → Type ℓ
Ends m = Returns m (λ _. Unit {0})

pub slice-Ends : (text : List ℕ) (a b : ℕ) → a ≤ b → b ≤ length text → Ends (slice text a b)
unfolding slice
slice-Ends text a b ab le = (take (b - a) (drop a text), ground arith, tt)

prepend-Ends : (bytes : List ℕ) (m : Run (Result (List ℕ))) → Ends m → Ends (prepend bytes m)
prepend-Ends bytes m h =
    Returns-bind h (elim [ done rest ↦ λ _. (_, refl, tt) | fail e ↦ λ _. (_, refl, tt) ])

and_then-Ends : (m rest : Run (Result (List ℕ))) → Ends m → Ends rest → Ends (and_then m rest)
and_then-Ends m rest h k =
    Returns-bind h
      (elim [ done bytes ↦ λ _. prepend-Ends bytes rest k | fail e ↦ λ _. (_, refl, tt) ])

module _ (text full_match : List ℕ) (end : ℕ) (ms : MatchState) (v : Inv end ms)
    (le : end ≤ length text) where
  captured-Ends :
      (slot : Capture)
      → Within end slot
      → Ends (elim slot.len [
        | CaptureLen.len l ↦ slice text slot.start (slot.start + l) >>= λ bytes. ok (done bytes)
        | CaptureLen.position ↦ ok (done (decimal (slot.start + 1)))
        | CaptureLen.unfinished ↦ ok (done [])
      ])
  captured-Ends slot w = from slot.len w.0
    where
      from :
          (cl : CaptureLen)
          → slot.start + width cl ≤ end
          → Ends (elim cl [
            | CaptureLen.len l ↦ slice text slot.start (slot.start + l) >>= λ bytes. ok (done bytes)
            | CaptureLen.position ↦ ok (done (decimal (slot.start + 1)))
            | CaptureLen.unfinished ↦ ok (done [])
          ])
      from CaptureLen.position h = (_, refl, tt)
      from CaptureLen.unfinished h = (_, refl, tt)
      from (CaptureLen.len l) h =
          Returns-bind (slice-Ends text slot.start (slot.start + l) (omega arith) (omega arith))
            (λ bytes _. (_, refl, tt))

  substitute_digit-Ends : (n : ℕ) → Ends (substitute_digit n full_match text ms)
  unfolding substitute_digit
  substitute_digit-Ends n = elim (Bool-cases (n == 0)) [
    | inl h ↦ rw h (_, refl, tt)
    | inr h ↦ rw h (elim (Bool-cases (leb n ms.num_captures)) [
      | inl g ↦
          let used : n - 1 < ms.num_captures = ground arith in
          let (slot, e) = get_elem?-lt ms.captures (n - 1) (omega (arith, v.slots, v.used)) in
          rw (g, e) (captured-Ends slot (v.within (n - 1) slot used e))
      | inr g ↦ rw g (Returns-if (ms.num_captures == 0 && n == 1) (_, refl, tt) (_, refl, tt))
    ])
  ]

  pub substitute_captures_bytes-Ends :
      (repl : List ℕ) → Ends (substitute_captures_bytes repl full_match text ms)
  unfolding substitute_captures_bytes
  substitute_captures_bytes-Ends [] = (_, refl, tt)
  substitute_captures_bytes-Ends (c ∷ []) = (_, refl, tt)
  substitute_captures_bytes-Ends (c ∷ k ∷ r) = elim (Bool-cases (c == b'%')) [
    | inr h ↦
        rw (h, substitute_captures_bytes)
          (prepend-Ends (c ∷ []) _ (substitute_captures_bytes-Ends (k ∷ r)))
    | inl h ↦
        rw (h, substitute_captures_bytes)
          (elim (Bool-cases (k == b'%')) [
            | inl g ↦
                rw (g, substitute_captures_bytes)
                  (prepend-Ends (b'%' ∷ []) _ (substitute_captures_bytes-Ends r))
            | inr g ↦
                rw (g, substitute_captures_bytes)
                  (elim (Bool-cases (is_ascii_digit k)) [
                    | inl l ↦
                        rw (l, substitute_captures_bytes)
                          (and_then-Ends _ _ (substitute_digit-Ends (k - b'0'))
                            (substitute_captures_bytes-Ends r))
                    | inr l ↦ rw (l, substitute_captures_bytes) (_, refl, tt)
                  ])
          ])
  ]

pub substitute_plain_bytes-Ends :
    (repl full_match : List ℕ) → Ends (substitute_plain_bytes repl full_match)
unfolding substitute_plain_bytes
substitute_plain_bytes-Ends [] full_match = (_, refl, tt)
substitute_plain_bytes-Ends (c ∷ []) full_match = (_, refl, tt)
substitute_plain_bytes-Ends (c ∷ k ∷ r) full_match = elim (Bool-cases (c == b'%')) [
  | inr h ↦
      rw (h, substitute_plain_bytes)
        (prepend-Ends (c ∷ []) _ (substitute_plain_bytes-Ends (k ∷ r) full_match))
  | inl h ↦
      rw (h, substitute_plain_bytes)
        (elim (Bool-cases (k == b'%')) [
          | inl g ↦
              rw (g, substitute_plain_bytes)
                (prepend-Ends (b'%' ∷ []) _ (substitute_plain_bytes-Ends r full_match))
          | inr g ↦
              rw (g, substitute_plain_bytes)
                (elim (Bool-cases (k == b'0' || k == b'1')) [
                  | inl l ↦
                      rw (l, substitute_plain_bytes)
                        (prepend-Ends full_match _ (substitute_plain_bytes-Ends r full_match))
                  | inr l ↦
                      rw (l, substitute_plain_bytes)
                        (Returns-if (is_ascii_digit k) (_, refl, tt) (_, refl, tt))
                ])
        ])
]
