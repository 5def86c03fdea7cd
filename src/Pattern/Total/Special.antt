-- ===== src/Pattern/Total/Special.antt =====
-- Balanced matches, frontiers and back references of
-- crates/luajit-rs/src/stdlib/pattern/engine.rs.
use luajit_rs.Base.{
  ℕ, zero, suc, ◌+◌, ◌-◌, ◌≤◌, ◌<◌, ◌≡◌, refl, ap, true, false, not, ◌&&◌, ◌||◌, List, [], ◌∷◌,
  none, some, ltb, ltb→le, ◌==◌, if◌then◌else◌, length, get_elem?, drop, length-drop, get_elem?-lt,
  ok, ◌>>=◌, Returns, arith, Bool-cases, inl, inr,
}
use luajit_rs.Pattern.Error.{invalid_capture_index}
use luajit_rs.Pattern.Invariant.{
  Within, Inv, Same, Post, KeepsAll, Same-refl, Inv-mono, Post-later, Returns-bind, Returns-map,
}
use luajit_rs.Pattern.Match.{
  Matcher, balanced_loop, match_balanced, byte_or_zero, previous_byte, match_frontier, same_bytes,
  match_backref,
}
use luajit_rs.Pattern.Safe.{Safe, Safe-balance, Safe-frontier}
use luajit_rs.Pattern.State.{MatchState, Capture, CaptureLen}

balanced_loop-bounds :
    (o c : ℕ) (t : List ℕ) (i depth : ℕ)
    → (i ≤ (balanced_loop o c t i depth).1) × ((balanced_loop o c t i depth).1 ≤ i + length t)
unfolding balanced_loop
balanced_loop-bounds o c [] i depth = (omega arith, omega arith)
balanced_loop-bounds o c (x ∷ t) i zero = (omega arith, omega arith)
balanced_loop-bounds o c (x ∷ t) i (suc d) =
    let (lo, hi) =
      balanced_loop-bounds o c t (i + 1)
        (if x == c then d else if x == o then suc (suc d) else suc d) in
    (omega arith, omega arith)

failed-Post :
    (ms : MatchState) (k : ℕ) → Same ms (record ms { error = some (invalid_capture_index k) })
failed-Post ms k = record { depth = refl; count = refl; slots = refl; kept = λ i h. refl }

module _ (text : List ℕ) (again : Matcher) (d : ℕ) (keeps : KeepsAll text d again) where
  pub match_balanced-Post :
      (si : ℕ) (rest : List ℕ) (ms : MatchState)
      → si ≤ length text
      → Safe (b'%' ∷ b'b' ∷ rest)
      → Inv si ms
      → ms.depth ≡ d
      → Returns (match_balanced text again si rest ms) (Post text si ms)
  unfolding match_balanced
  match_balanced-Post si [] ms le s v e = ((none, ms), refl, Same-refl ms)
  match_balanced-Post si (o ∷ []) ms le s v e = ((none, ms), refl, Same-refl ms)
  match_balanced-Post si (o ∷ c ∷ rest) ms le s v e = from (drop si text) refl
    where
      from :
          (t : List ℕ)
          → drop si text ≡ t
          → Returns (match_balanced text again si (o ∷ c ∷ rest) ms) (Post text si ms)
      from [] h = rw (h, match_balanced) ((none, ms), refl, Same-refl ms)
      from (x ∷ t) h =
          let (lo, hi) = balanced_loop-bounds o c t (si + 1) 1 in
          let stop = (balanced_loop o c t (si + 1) 1).1 in
          let inside : stop ≤ length text = omega (arith, ap length h, length-drop si text) in
          rw (h, match_balanced)
            (elim (Bool-cases (x == o)) [
              | inr g ↦ rw g ((none, ms), refl, Same-refl ms)
              | inl g ↦ rw g (elim (Bool-cases ((balanced_loop o c t (si + 1) 1).0 == 0)) [
                | inr b ↦ rw b ((none, ms), refl, Same-refl ms)
                | inl b ↦ rw b (
                    Returns-map
                      (keeps stop rest ms inside (Safe-balance s) (Inv-mono (omega arith) v) e)
                      (λ r. Post-later text si stop ms r (omega arith)))
              ])
            ])

  previous_byte-total :
      (si : ℕ) → si ≤ length text → Returns (previous_byte text again si) (λ _. Unit {0})
  previous_byte-total zero le = (0, refl, tt)
  previous_byte-total (suc i) le =
      let (c, e) = get_elem?-lt text i (omega arith) in rw e (c, refl, tt)

  pub match_frontier-Post :
      (si : ℕ) (rest : List ℕ) (ms : MatchState)
      → si ≤ length text
      → Safe (b'%' ∷ b'f' ∷ rest)
      → Inv si ms
      → ms.depth ≡ d
      → Returns (match_frontier text again si rest ms) (Post text si ms)
  unfolding match_frontier
  match_frontier-Post si [] ms le s v e = ((none, ms), refl, Same-refl ms)
  match_frontier-Post si (x ∷ r) ms le s v e = elim (Bool-cases (x == b'[')) [
    | inr h ↦ rw h ((none, ms), refl, Same-refl ms)
    | inl h ↦
        let (ep, el) = Safe-frontier s h in
        rw (h, el.ends)
          (Returns-bind (previous_byte-total si le) (λ prev _. Returns-bind (el.tests prev) (λ p _.
            Returns-bind (el.tests (byte_or_zero (get_elem? text si))) (λ q _.
              elim (Bool-cases (not p && q)) [
                | inl g ↦ rw g (keeps si ep ms le el.safe v e)
                | inr g ↦ rw g ((none, ms), refl, Same-refl ms)
              ]))))
  ]

  same_bytes-total :
      (i j count : ℕ)
      → i + count ≤ length text
      → j + count ≤ length text
      → Returns (same_bytes text again i j count) (λ _. Unit {0})
  unfolding same_bytes
  same_bytes-total i j zero p q = (true, refl, tt)
  same_bytes-total i j (suc count) p q =
      let (c, e) = get_elem?-lt text i (omega arith) in
      let (b, f) = get_elem?-lt text j (omega arith) in
      rw (e, f)
        (elim (Bool-cases (c == b)) [
          | inl h ↦ rw h (same_bytes-total (i + 1) (j + 1) count (omega arith) (omega arith))
          | inr h ↦ rw h (false, refl, tt)
        ])

  -- the part of `match_backref` behind the test of the index
  captured-Post :
      (si n : ℕ) (rest : List ℕ) (ms : MatchState) (slot : Capture)
      → Within si slot
      → si ≤ length text
      → Safe rest
      → Inv si ms
      → ms.depth ≡ d
      → Returns
          (elim slot.len [
            | CaptureLen.len l ↦
                if ltb (length text) (si + l)
                then ok (none, ms)
                else (same_bytes text again si slot.start l >>= λ same.
                    if same then again (si + l) rest ms else ok (none, ms))
            | _ ↦ ok (none, record ms { error = some (invalid_capture_index n) })
          ])
          (Post text si ms)
  captured-Post si n rest ms slot w le s v e = from slot.len refl
    where
      from :
          (cl : CaptureLen)
          → slot.len ≡ cl
          → Returns
              (elim cl [
                | CaptureLen.len l ↦
                    if ltb (length text) (si + l)
                    then ok (none, ms)
                    else (same_bytes text again si slot.start l >>= λ same.
                        if same then again (si + l) rest ms else ok (none, ms))
                | _ ↦ ok (none, record ms { error = some (invalid_capture_index n) })
              ])
              (Post text si ms)
      from CaptureLen.position h = (_, refl, failed-Post ms n)
      from CaptureLen.unfinished h = (_, refl, failed-Post ms n)
      from (CaptureLen.len l) h = elim (Bool-cases (ltb (length text) (si + l))) [
        | inl g ↦ rw g ((none, ms), refl, Same-refl ms)
        | inr g ↦
            let fits : si + l ≤ length text = ltb→le (length text) (si + l) g in
            let covered : slot.start + l ≤ si = rw h at w.0 in
            rw g (
              Returns-bind (same_bytes-total si slot.start l fits (omega arith)) (λ same _.
                elim (Bool-cases same) [
                  | inl b ↦ rw b (
                      Returns-map (keeps (si + l) rest ms fits s (Inv-mono (omega arith) v) e)
                        (λ r. Post-later text si (si + l) ms r (omega arith)))
                  | inr b ↦ rw b ((none, ms), refl, Same-refl ms)
                ]))
      ]

  pub match_backref-Post :
      (si k : ℕ) (rest : List ℕ) (ms : MatchState)
      → si ≤ length text
      → Safe rest
      → Inv si ms
      → ms.depth ≡ d
      → Returns (match_backref text again si k rest ms) (Post text si ms)
  unfolding match_backref
  match_backref-Post si k rest ms le s v e =
      elim (Bool-cases (k - b'0' == 0 || ltb ms.num_captures (k - b'0'))) [
        | inl h ↦ rw h (_, refl, failed-Post ms (k - b'0'))
        | inr h ↦
            let n : ℕ = k - b'0' in
            let used : n - 1 < ms.num_captures = ground arith in
            let (slot, found) = get_elem?-lt ms.captures (n - 1) (omega (arith, v.slots, v.used)) in
            rw (h, found)
              (captured-Post si n rest ms slot (v.within (n - 1) slot used found) le s v e)
      ]
