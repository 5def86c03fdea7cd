-- ===== src/Pattern/Safe.antt =====
-- Patterns that the matcher can walk without reading past their end, and the link to
-- `validate_pattern` of crates/luajit-rs/src/stdlib/pattern/engine.rs.
use luajit_rs.Base.{
  ◌||◌, ==_iff, subst, ℕ, zero, suc, ◌≤◌, ◌<◌, ◌≡◌, ◌≢◌, refl, true, false, List, [], ◌∷◌, ◌==◌,
  length, ok, Returns, arith, Bool-cases, ◌⊎◌, inl, inr, ap, sym,
}
use luajit_rs.Pattern.Class.{strip, set_end, singlematch, element_end, match_escape, matchset}
use luajit_rs.Pattern.Error.{PatternError, Result, done, fail}
use luajit_rs.Pattern.Validate.{
  validate_set_loop, validate_set, validate_element, validate_loop, skip_suffix, is_suffix,
  pattern_start, validate_pattern,
}

-- Element after element passes validation, up to the end.
pub data Safe : List ℕ → Type 0 where
  end : Safe []
  step : {x : ℕ} {r rest : List ℕ} → validate_element x r ≡ done rest → Safe rest → Safe (x ∷ r)

abbrev pub set_rest : List ℕ → List ℕ
set_rest r = set_end (strip b']' (strip b'^' r).1).1

validate_set_loop-set_end : (p q : List ℕ) → validate_set_loop p ≡ done q → set_end p ≡ q
unfolding validate_set_loop set_end
validate_set_loop-set_end [] q h = cc
validate_set_loop-set_end (x ∷ []) q h = ground arith
validate_set_loop-set_end (x ∷ y ∷ r) q h =
    ground (arith, validate_set_loop-set_end r q, validate_set_loop-set_end (y ∷ r) q)

-- The validator and the matcher agree on where a set ends.
pub validate_set-set_rest : (r q : List ℕ) → validate_set r ≡ done q → set_rest r ≡ q
unfolding validate_set
validate_set-set_rest r q h = validate_set_loop-set_end _ q h

pub length-set_end : (p : List ℕ) → length (set_end p) ≤ length p
unfolding set_end
length-set_end [] = omega arith
length-set_end (x ∷ []) = omega arith
length-set_end (x ∷ y ∷ r) = ground (arith, length-set_end r, length-set_end (y ∷ r))

length-strip : (x : ℕ) (p : List ℕ) → length (strip x p).1 ≤ length p
unfolding strip
length-strip x [] = omega arith
length-strip x (y ∷ r) = ground arith

pub length-set_rest : (p : List ℕ) → length (set_rest p) ≤ length p
length-set_rest p = omega (
  arith,
  length-set_end (strip b']' (strip b'^' p).1).1,
  length-strip b']' (strip b'^' p).1,
  length-strip b'^' p,
)

Result-cases {ℓ} :
    {A : Type ℓ} (r : Result A) → ((e : PatternError) × (r ≡ fail e)) ⊎ ((a : A) × (r ≡ done a))
Result-cases (done a) = inr (a, refl)
Result-cases (fail e) = inl (e, refl)

-- A repetition suffix is an element of its own, if it stands where one is expected.
pub Safe-suffix : {q : ℕ} {rp : List ℕ} → is_suffix q ≡ true → Safe (q ∷ rp) → Safe rp
Safe-suffix {q} {rp} h (step {rest = rest} e s) = rw (← plain) s
  where
    plain : rest ≡ rp
    plain = unfold validate_element in ground arith

Safe-skip_suffix : (p : List ℕ) → Safe (skip_suffix p) → Safe p
unfolding skip_suffix validate_element
Safe-skip_suffix [] s = end
Safe-skip_suffix (x ∷ r) s = elim (Bool-cases (is_suffix x)) [
  | inl h ↦ step {rest = r} (ground arith) (rw h at s)
  | inr h ↦ rw h at s
]

validate_loop-Safe : (fuel : ℕ) (p : List ℕ) → validate_loop fuel p ≡ ok (done tt) → Safe p
unfolding validate_loop
validate_loop-Safe zero p h = cc
validate_loop-Safe (suc fuel) [] h = end
validate_loop-Safe (suc fuel) (x ∷ r) h = elim (Result-cases (validate_element x r)) [
  | inl (e, failed) ↦ cc (rw (failed, validate_loop) at h)
  | inr (rest, passed) ↦ step passed (
      Safe-skip_suffix rest
        (validate_loop-Safe fuel (skip_suffix rest) (rw (passed, validate_loop) at h)))
]

-- A pattern that passes `validate_pattern` is safe where matching starts.
pub validate_pattern-Safe :
    (pat : List ℕ) → validate_pattern pat ≡ ok (done tt) → Safe (pattern_start pat)
unfolding validate_pattern
validate_pattern-Safe pat h = validate_loop-Safe (suc (length pat)) (pattern_start pat) h

length-skip_suffix : (p : List ℕ) → length (skip_suffix p) ≤ length p
unfolding skip_suffix
length-skip_suffix [] = omega arith
length-skip_suffix (x ∷ r) = ground arith

length-validate_set : (r q : List ℕ) → validate_set r ≡ done q → length q ≤ length r
length-validate_set r q h = rw (← validate_set-set_rest r q h) (length-set_rest r)

pub length-validate_element :
    (x : ℕ) (r q : List ℕ) → validate_element x r ≡ done q → length q ≤ length r
unfolding validate_element
length-validate_element x [] q h = ground (arith, length-validate_set [] q)
length-validate_element x (k ∷ []) q h = ground (arith, length-validate_set (k ∷ []) q)
length-validate_element x (k ∷ y ∷ []) q h =
    ground (arith, length-validate_set (k ∷ y ∷ []) q, length-validate_set [] q)
length-validate_element x (k ∷ y ∷ z ∷ t) q h =
    ground (arith, length-validate_set (k ∷ y ∷ z ∷ t) q, length-validate_set (z ∷ t) q)

-- The fuel of `validate_pattern` is enough.
validate_loop-total :
    (fuel : ℕ) (p : List ℕ) → length p < fuel → Returns (validate_loop fuel p) (λ _. Unit {0})
unfolding validate_loop
validate_loop-total zero p h = absurd (omega arith)
validate_loop-total (suc fuel) [] h = (done tt, refl, tt)
validate_loop-total (suc fuel) (x ∷ r) h = elim (Result-cases (validate_element x r)) [
  | inl (e, failed) ↦ rw (failed, validate_loop) (fail e, refl, tt)
  | inr (rest, passed) ↦
      rw (passed, validate_loop)
        (validate_loop-total fuel (skip_suffix rest)
          (omega (arith, length-skip_suffix rest, length-validate_element x r rest passed)))
]

pub validate_pattern-total : (pat : List ℕ) → Returns (validate_pattern pat) (λ _. Unit {0})
unfolding validate_pattern
validate_pattern-total pat =
    validate_loop-total (suc (length pat)) (pattern_start pat)
      (omega (arith, length-strip b'^' pat))

-- What the matcher needs of the element at the head of a pattern.
pub record IsElement (p ep : List ℕ) : Type 0 where
  pub ends : element_end p ≡ ok ep
  pub shorter : length ep < length p
  pub safe : Safe ep
  pub tests : (c : ℕ) → Returns (singlematch c p) (λ _. Unit {0})

singlematch-set : (c : ℕ) (r : List ℕ) → singlematch c (b'[' ∷ r) ≡ ok (matchset c r)
unfolding singlematch
singlematch-set c r = refl

-- a set, which `%f` also reads
pub set-IsElement :
    (r rest : List ℕ) → validate_set r ≡ done rest → Safe rest → IsElement (b'[' ∷ r) rest
unfolding element_end
set-IsElement r rest e s = record {
  ends = ap (λ q. ok q) (validate_set-set_rest r rest e);
  shorter = omega (arith, length-validate_set r rest e);
  safe = s;
  tests = λ c. (matchset c r, singlematch-set c r, tt);
}

escape-IsElement : (k : ℕ) (r : List ℕ) → Safe r → IsElement (b'%' ∷ k ∷ r) r
unfolding element_end singlematch
escape-IsElement k r s = record {
  ends = refl;
  shorter = omega arith;
  safe = s;
  tests = λ c. (match_escape c k, refl, tt);
}

literal-IsElement : (x : ℕ) (r : List ℕ) → x ≢ b'%' → x ≢ b'[' → Safe r → IsElement (x ∷ r) r
unfolding element_end singlematch
literal-IsElement x r np nb s = record {
  ends = ground arith;
  shorter = omega arith;
  safe = s;
  tests = λ c. (x == b'.' || c == x, ground arith, tt);
}

pub Safe-head :
    {x : ℕ} {r : List ℕ} → Safe (x ∷ r) → (x == b'%') ≡ false → (ep : List ℕ) × IsElement (x ∷ r) ep
Safe-head {x} {r} (step {rest = rest} e s) h = elim (Bool-cases (x == b'[')) [
  | inl bracket ↦
      let is_bracket : x ≡ b'[' = (==_iff x b'[').0 bracket in
      (
        rest,
        subst (λ y. IsElement (y ∷ r) rest) (sym is_bracket)
            (set-IsElement r rest (unfold validate_element in ground arith) s),
      )
  | inr other ↦
      let plain : r ≡ rest = unfold validate_element in ground arith in
      (r, literal-IsElement x r (ground arith) (ground arith) (rw plain s))
]

pub Safe-escape :
    {k : ℕ} {r : List ℕ}
    → Safe (b'%' ∷ k ∷ r)
    → (k == b'b') ≡ false
    → (k == b'f') ≡ false
    → IsElement (b'%' ∷ k ∷ r) r
Safe-escape {k} {r} (step {rest = rest} e s) nb nf = escape-IsElement k r (rw plain s)
  where
    plain : r ≡ rest
    plain =
        unfold validate_element in
        elim r as (λ q. validate_element b'%' (k ∷ q) ≡ done rest → q ≡ rest) [
          | [] ↦ λ e. ground arith
          | y ∷ t ↦ λ e. ground arith
        ]
          e

pub Safe-balance : {a b : ℕ} {t : List ℕ} → Safe (b'%' ∷ b'b' ∷ a ∷ b ∷ t) → Safe t
Safe-balance {a} {b} {t} (step {rest = rest} e s) = rw plain s
  where
    plain : t ≡ rest
    plain = unfold validate_element in ground arith

pub Safe-frontier :
    {x : ℕ} {r : List ℕ}
    → Safe (b'%' ∷ b'f' ∷ x ∷ r)
    → (x == b'[') ≡ true
    → (ep : List ℕ) × IsElement (x ∷ r) ep
Safe-frontier {x} {r} (step {rest = rest} e s) h =
    let is_bracket : x ≡ b'[' = (==_iff x b'[').0 h in
    (
      rest,
      subst (λ y. IsElement (y ∷ r) rest) (sym is_bracket)
          (set-IsElement r rest (unfold validate_element in ground arith) s),
    )

-- a byte that is no `%` and opens no set
pub Safe-tail :
    {x : ℕ} {r : List ℕ} → Safe (x ∷ r) → (x == b'%') ≡ false → (x == b'[') ≡ false → Safe r
Safe-tail {x} {r} (step {rest = rest} e s) h k = rw plain s
  where
    plain : r ≡ rest
    plain = unfold validate_element in ground arith
