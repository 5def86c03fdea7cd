-- ===== src/Pattern/Total/Loops.antt =====
-- The repetition functions of crates/luajit-rs/src/stdlib/pattern/engine.rs.
use luajit_rs.Base.{
  ℕ, zero, suc, ◌+◌, ◌≤◌, ◌≡◌, refl, ◌∙◌, Bool, List, [], ◌∷◌, none, some, leb, length, get_elem?,
  drop, length-drop, get_elem?-some, Run, Returns, arith, Bool-cases, Option-cases, inl, inr,
}
use luajit_rs.Pattern.Invariant.{
  Post-bind, Inv, Post, KeepsAll, Same-refl, Inv-Same, Inv-mono, Post-Same, Post-later,
  Returns-bind, Returns-map,
}
use luajit_rs.Pattern.Match.{
  Matcher, greedy_loop, match_greedy, lazy_loop, match_lazy, match_optional,
}
use luajit_rs.Pattern.Repeat.{count_run, count_max_repetition}
use luajit_rs.Pattern.Repeat.Equivalence.{count_max_repetition-count_run}
use luajit_rs.Pattern.Safe.{Safe, IsElement}
use luajit_rs.Pattern.State.{MatchState}

count_run-total :
    (test : ℕ → Run Bool) (t : List ℕ)
    → ((c : ℕ) → Returns (test c) (λ _. Unit {0}))
    → Returns (count_run test t) (λ n. n ≤ length t)
unfolding count_run
count_run-total test [] h = (0, refl, omega arith)
count_run-total test (c ∷ t) h =
    let (b, e, _) = h c in
    let (n, f, le) = count_run-total test t h in
    rw e (elim (Bool-cases b) [
      | inl yes' ↦ rw (yes', f) (suc n, refl, omega arith)
      | inr no' ↦ rw no' (0, refl, omega arith)
    ])

count_max_repetition-total :
    (t p : List ℕ) {ep : List ℕ}
    → IsElement p ep
    → Returns (count_max_repetition t p) (λ n. n ≤ length t)
count_max_repetition-total t p el =
    rw (count_max_repetition-count_run t p (λ c e. let (b, f, _) = el.tests c in cc (e, f)))
      (count_run-total _ t el.tests)

module _ (text : List ℕ) (again : Matcher) (d : ℕ) (keeps : KeepsAll text d again) where
  -- one attempt further on
  ahead :
      (si n : ℕ) (rp : List ℕ) (ms : MatchState)
      → si + n ≤ length text
      → Safe rp
      → Inv si ms
      → ms.depth ≡ d
      → Returns (again (si + n) rp ms) (Post text si ms)
  ahead si n rp ms le s v e =
      Returns-map (keeps (si + n) rp ms le s (Inv-mono (omega arith) v) e)
        (λ r. Post-later text si (si + n) ms r (omega arith))

  pub greedy_loop-Post :
      (si : ℕ) (rp : List ℕ) (least k : ℕ) (ms : MatchState)
      → si + k ≤ length text
      → Safe rp
      → Inv si ms
      → ms.depth ≡ d
      → Returns (greedy_loop text again si rp least k ms) (Post text si ms)
  unfolding greedy_loop
  greedy_loop-Post si rp least zero ms le s v e = elim (Bool-cases (leb least 0)) [
    | inl h ↦ rw h (ahead si 0 rp ms le s v e)
    | inr h ↦ rw h ((none, ms), refl, Same-refl ms)
  ]
  greedy_loop-Post si rp least (suc k) ms le s v e = elim (Bool-cases (leb least (suc k))) [
    | inl h ↦ rw h (
        Post-bind text _ (Post text si ms) (ahead si (suc k) rp ms le s v e)
          (λ end after p. ((some end, after), refl, p))
          (λ after p.
            Returns-map
              (greedy_loop-Post si rp least k after (omega arith) s (Inv-Same v p) (p.depth ∙ e))
              (λ r. Post-Same text si r p)))
    | inr h ↦ rw h ((none, ms), refl, Same-refl ms)
  ]

  pub match_greedy-Post :
      (si : ℕ) (pp rp : List ℕ) (least : ℕ) (ms : MatchState) (ep : List ℕ)
      → IsElement pp ep
      → si ≤ length text
      → Safe rp
      → Inv si ms
      → ms.depth ≡ d
      → Returns (match_greedy text again si pp rp least ms) (Post text si ms)
  unfolding match_greedy
  match_greedy-Post si pp rp least ms ep el le s v e =
      Returns-bind (count_max_repetition-total (drop si text) pp el) (λ count h.
        greedy_loop-Post si rp least count ms (omega (arith, length-drop si text)) s v e)

  pub lazy_loop-Post :
      (t pp rp : List ℕ) (i : ℕ) (ms : MatchState) (ep : List ℕ)
      → IsElement pp ep
      → i + length t ≤ length text
      → Safe rp
      → Inv i ms
      → ms.depth ≡ d
      → Returns (lazy_loop text again t pp rp i ms) (Post text i ms)
  unfolding lazy_loop
  lazy_loop-Post [] pp rp i ms ep el le s v e = keeps i rp ms (omega arith) s v e
  lazy_loop-Post (c ∷ t) pp rp i ms ep el le s v e =
      Post-bind text _ (Post text i ms) (keeps i rp ms (omega arith) s v e)
        (λ end after p. ((some end, after), refl, p))
        (λ after p. Returns-bind (el.tests c) (λ b _. elim (Bool-cases b) [
          | inl h ↦ rw h (
              Returns-map
                (lazy_loop-Post t pp rp (i + 1) after ep el (omega arith) s
                  (Inv-mono (omega arith) (Inv-Same v p)) (p.depth ∙ e))
                (λ r q. Post-Same text i r p (Post-later text i (i + 1) after r (omega arith) q)))
          | inr h ↦ rw h ((none, after), refl, p)
        ]))

  pub match_lazy-Post :
      (si : ℕ) (pp rp : List ℕ) (ms : MatchState) (ep : List ℕ)
      → IsElement pp ep
      → si ≤ length text
      → Safe rp
      → Inv si ms
      → ms.depth ≡ d
      → Returns (match_lazy text again si pp rp ms) (Post text si ms)
  unfolding match_lazy
  match_lazy-Post si pp rp ms ep el le s v e =
      lazy_loop-Post (drop si text) pp rp si ms ep el (omega (arith, length-drop si text)) s v e

  pub match_optional-Post :
      (si : ℕ) (pp rp : List ℕ) (ms : MatchState) (ep : List ℕ)
      → IsElement pp ep
      → si ≤ length text
      → Safe rp
      → Inv si ms
      → ms.depth ≡ d
      → Returns (match_optional text again si pp rp ms) (Post text si ms)
  unfolding match_optional
  match_optional-Post si pp rp ms ep el le s v e = elim (Option-cases (get_elem? text si)) [
    | inl h ↦ rw (h, match_optional) (keeps si rp ms le s v e)
    | inr (c, h) ↦
        rw (h, match_optional)
          (Returns-bind (el.tests c) (λ b _. elim (Bool-cases b) [
            | inr g ↦ rw g (keeps si rp ms le s v e)
            | inl g ↦ rw g (
                Post-bind text _ (Post text si ms)
                  (ahead si 1 rp ms (omega (arith, get_elem?-some text si h)) s v e)
                  (λ end after p. ((some end, after), refl, p))
                  (λ after p.
                    Returns-map (keeps si rp after le s (Inv-Same v p) (p.depth ∙ e))
                      (λ r. Post-Same text si r p)))
          ]))
  ]
