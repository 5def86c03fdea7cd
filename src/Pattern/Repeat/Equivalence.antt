-- ===== src/Pattern/Repeat/Equivalence.antt =====
-- `count_max_repetition` of crates/luajit-rs/src/stdlib/pattern/engine.rs against the plain loop
-- that tests byte after byte with `singlematch`.
use luajit_rs.Base.{
  ℕ, suc, ◌≡◌, ◌≢◌, refl, sym, ap, fun_ext, ◌∙◌, Bool, true, false, List, [], ◌∷◌, ◌==◌, length,
  Run, ok, panic, arith, Bool-cases, inl, inr,
}
use luajit_rs.Pattern.Class.{is_class_letter, match_class, match_escape, singlematch}
use luajit_rs.Pattern.Repeat.{count_while, count_run, count_escape, count_max_repetition}

count_run-count_while :
    (run : ℕ → Run Bool) (test : ℕ → Bool) (t : List ℕ)
    → ((c : ℕ) → run c ≡ ok (test c))
    → count_run run t ≡ ok (count_while test t)
unfolding count_run count_while
count_run-count_while run test [] h = refl
count_run-count_while run test (c ∷ t) h =
    rw (h c, count_run-count_while run test t h) (ground arith)

count_while-all : (t : List ℕ) → count_while (λ c. true) t ≡ length t
unfolding count_while
count_while-all [] = refl
count_while-all (c ∷ t) = ap suc (count_while-all t)

match_class_literal : (c cl : ℕ) → is_class_letter cl ≡ false → match_class c cl ≡ c == cl
unfolding match_class is_class_letter
match_class_literal c cl h = ground arith

count_escape-count_while :
    (t : List ℕ) (y : ℕ) → count_escape t y ≡ count_while (λ c. match_escape c y) t
unfolding count_escape match_escape
count_escape-count_while t y = elim (Bool-cases (is_class_letter y)) [
  | inl h ↦ rw h (ap (λ test. count_while test t) (fun_ext (λ c. ground arith)))
  | inr h ↦
      rw h
        (ap (λ test. count_while test t) (fun_ext (λ c. ground (arith, match_class_literal c y h))))
]

singlematch-any : (c x : ℕ) (r : List ℕ) → (x == b'.') ≡ true → singlematch c (x ∷ r) ≡ ok true
unfolding singlematch
singlematch-any c x r h = rw h

singlematch-literal :
    (c x : ℕ) (r : List ℕ)
    → (x == b'.') ≡ false
    → (x == b'%') ≡ false
    → (x == b'[') ≡ false
    → singlematch c (x ∷ r) ≡ ok (c == x)
unfolding singlematch
singlematch-literal c x r h k l = rw (h, k, l)

singlematch-escape :
    (c x y : ℕ) (r : List ℕ)
    → (x == b'%') ≡ true
    → singlematch c (x ∷ y ∷ r) ≡ ok (match_escape c y)
unfolding singlematch
singlematch-escape c x y r h = ground arith

singlematch-dangling : (c x : ℕ) → (x == b'%') ≡ true → singlematch c (x ∷ []) ≡ panic
unfolding singlematch
singlematch-dangling c x h = ground arith

-- For an element that `singlematch` can read, the specialised loops of `count_max_repetition` give
-- the length of the longest run of bytes that match it one by one.
pub count_max_repetition-count_run :
    (t p : List ℕ)
    → ((c : ℕ) → singlematch c p ≢ panic)
    → count_max_repetition t p ≡ count_run (λ c. singlematch c p) t
unfolding count_max_repetition
count_max_repetition-count_run [] p h = refl
count_max_repetition-count_run (c ∷ t) [] h = absurd (h 0 (unfold singlematch in refl))
count_max_repetition-count_run (c ∷ t) (x ∷ []) h = elim (Bool-cases (x == b'.')) [
  | inl any ↦ rw any (
      sym (
        count_run-count_while _ _ (c ∷ t) (λ d. singlematch-any d x [] any)
        ∙ ap (λ n. ok n) (count_while-all (c ∷ t))))
  | inr e ↦ rw e (elim (Bool-cases (x == b'[')) [
    | inl k ↦ rw k
    | inr k ↦ rw k (elim (Bool-cases (x == b'%')) [
      | inl l ↦ absurd (h 0 (singlematch-dangling 0 x l))
      | inr l ↦ sym (count_run-count_while _ _ (c ∷ t) (λ d. singlematch-literal d x [] e l k))
    ])
  ])
]
count_max_repetition-count_run (c ∷ t) (x ∷ y ∷ r) h = elim (Bool-cases (x == b'.')) [
  | inl any ↦ rw any (
      sym (
        count_run-count_while _ _ (c ∷ t) (λ d. singlematch-any d x (y ∷ r) any)
        ∙ ap (λ n. ok n) (count_while-all (c ∷ t))))
  | inr e ↦ rw e (elim (Bool-cases (x == b'%')) [
    | inl l ↦ rw l (
        ap (λ n. ok n) (count_escape-count_while (c ∷ t) y)
        ∙ sym (count_run-count_while _ _ (c ∷ t) (λ d. singlematch-escape d x y r l)))
    | inr l ↦ rw l (elim (Bool-cases (x == b'[')) [
      | inl k ↦ rw k
      | inr k ↦
          rw k
            (sym (count_run-count_while _ _ (c ∷ t) (λ d. singlematch-literal d x (y ∷ r) e l k)))
    ])
  ])
]
