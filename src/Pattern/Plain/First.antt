-- ===== src/Pattern/Plain/First.antt =====
-- `find_bytes_in_slice` of crates/luajit-rs/src/stdlib/pattern/engine.rs and the places where a pattern occurs.
use luajit_rs.Base.{
  ℕ, zero, suc, ◌+◌, ◌≤◌, ◌<◌, ◌≡◌, refl, sym, subst, ap, ap₂, true, false, ◌&&◌, List, [], ◌∷◌,
  Option, none, some, ltb, ltb→lt, ◌==◌, ==_iff, length, take, drop, length-take, length-drop,
  arith, Bool-cases, inl, inr,
}
use luajit_rs.Pattern.Plain.{bytes_eq, position, find_loop, find_bytes_in_slice}

-- The needle stands at index `i`.
abbrev pub IsAt : List ℕ → List ℕ → ℕ → Type 0
IsAt haystack needle i = take (length needle) (drop i haystack) ≡ needle

-- The first index of the needle, counted from `i`, or none if it stands nowhere.
abbrev pub FirstPost : List ℕ → List ℕ → ℕ → Option ℕ → Type 0
FirstPost t needle i (some k) =
    (j : ℕ) × (k ≡ i + j) × IsAt t needle j × ((m : ℕ) → m < j → ¬ IsAt t needle m)
FirstPost t needle i none = (m : ℕ) → ¬ IsAt t needle m

pub bytes_eq_sound : (xs ys : List ℕ) → bytes_eq xs ys ≡ true → xs ≡ ys
unfolding bytes_eq
bytes_eq_sound [] [] h = refl
bytes_eq_sound [] (y ∷ ys) h = cc
bytes_eq_sound (x ∷ xs) [] h = cc
bytes_eq_sound (x ∷ xs) (y ∷ ys) h = ground (arith, bytes_eq_sound xs ys)

bytes_eq_refl : (xs : List ℕ) → bytes_eq xs xs ≡ true
unfolding bytes_eq
bytes_eq_refl [] = refl
bytes_eq_refl (x ∷ xs) = ground (arith, bytes_eq_refl xs)

-- Where the text is too short the needle cannot stand.
too_short :
    (haystack needle : List ℕ)
    → length haystack < length needle
    → (m : ℕ) → ¬ IsAt haystack needle m
too_short haystack needle h m e = omega (
  arith,
  ap (λ (l : List ℕ). length l) e,
  length-take (length needle) (drop m haystack),
  length-drop m haystack,
)

module _ (needle : List ℕ) where
  -- one step on, where the needle does not stand at the head
  FirstPost-cons :
      (c : ℕ) (t : List ℕ) (i : ℕ) (r : Option ℕ)
      → ¬ IsAt (c ∷ t) needle 0
      → FirstPost t needle (i + 1) r
      → FirstPost (c ∷ t) needle i r
  FirstPost-cons c t i (some k) no_head (j, e, here, first) = (suc j, omega arith, here, before)
    where
      before : (m : ℕ) → m < suc j → ¬ IsAt (c ∷ t) needle m
      before zero lt = no_head
      before (suc m) lt = first m (omega arith)
  FirstPost-cons c t i none no_head nowhere = every
    where
      every : (m : ℕ) → ¬ IsAt (c ∷ t) needle m
      every zero = no_head
      every (suc m) = nowhere m

find_loop-FirstPost :
    (first : ℕ) (rest t : List ℕ) (i : ℕ) → FirstPost t (first ∷ rest) i (find_loop first rest t i)
unfolding find_loop
find_loop-FirstPost first rest [] i = too_short [] (first ∷ rest) (omega arith)
find_loop-FirstPost first rest (c ∷ t) i = elim (Bool-cases (ltb (length t) (length rest))) [
  | inl h ↦ rw (h, find_loop) (too_short (c ∷ t) (first ∷ rest) (omega (arith, ltb→lt _ _ h)))
  | inr h ↦
      rw (h, find_loop)
        (elim (Bool-cases (c == first && bytes_eq (take (length rest) t) rest)) [
          | inl g ↦ rw g (
            0,
            omega arith,
            ap₂ (λ x xs. x ∷ xs) (ground arith)
                (bytes_eq_sound (take (length rest) t) rest (ground arith)),
            λ m lt. absurd (omega arith),
          )
          | inr g ↦ rw g (
              FirstPost-cons (first ∷ rest) c t i (find_loop first rest t (i + 1)) (differs g)
                (find_loop-FirstPost first rest t (i + 1)))
        ])
]
  where
    differs :
        (c == first && bytes_eq (take (length rest) t) rest) ≡ false
        → ¬ IsAt (c ∷ t) (first ∷ rest) 0
    differs g e =
        let head : c ≡ first = cc in
        let tail : take (length rest) t ≡ rest = cc in
        let same : bytes_eq (take (length rest) t) rest ≡ true =
          subst (λ (xs : List ℕ). bytes_eq xs rest ≡ true) (sym tail) (bytes_eq_refl rest) in
        ground arith

position-FirstPost : (byte : ℕ) (t : List ℕ) (i : ℕ) → FirstPost t (byte ∷ []) i (position byte t i)
unfolding position
position-FirstPost byte [] i = too_short [] (byte ∷ []) (omega arith)
position-FirstPost byte (c ∷ t) i = elim (Bool-cases (c == byte)) [
  | inl h ↦
      rw h (0, omega arith, ap (λ x. x ∷ []) ((==_iff c byte).0 h), λ m lt. absurd (omega arith))
  | inr h ↦ rw h (
      FirstPost-cons (byte ∷ []) c t i (position byte t (i + 1)) (λ e. ground arith)
        (position-FirstPost byte t (i + 1)))
]

-- `find_bytes_in_slice` returns the first index at which the needle stands, and `None` only if it
-- stands nowhere.
pub find_bytes_in_slice-first :
    (haystack needle : List ℕ) → FirstPost haystack needle 0 (find_bytes_in_slice haystack needle)
unfolding find_bytes_in_slice
find_bytes_in_slice-first haystack [] = (0, omega arith, refl, λ m lt. absurd (omega arith))
find_bytes_in_slice-first haystack (first ∷ []) = elim (Bool-cases (ltb (length haystack) 1)) [
  | inl h ↦ rw h (too_short haystack (first ∷ []) (omega (arith, ltb→lt _ _ h)))
  | inr h ↦ rw h (position-FirstPost first haystack 0)
]
find_bytes_in_slice-first haystack (first ∷ x ∷ rest) =
    elim (Bool-cases (ltb (length haystack) (length (first ∷ x ∷ rest)))) [
      | inl h ↦ rw h (too_short haystack (first ∷ x ∷ rest) (omega (arith, ltb→lt _ _ h)))
      | inr h ↦ rw h (find_loop-FirstPost first (x ∷ rest) haystack 0)
    ]

-- A needle that is found ends in the text.
pub find_bytes_in_slice-le :
    (haystack needle : List ℕ) (k : ℕ)
    → find_bytes_in_slice haystack needle ≡ some k
    → k + length needle ≤ length haystack
find_bytes_in_slice-le haystack [] k h =
    let zero_case : 0 ≡ k = unfold find_bytes_in_slice in ground arith in omega arith
find_bytes_in_slice-le haystack (x ∷ n) k h =
    let (j, e, here, _) =
      subst (FirstPost haystack (x ∷ n) 0) h (find_bytes_in_slice-first haystack (x ∷ n)) in
    omega (
      arith,
      ap (λ (l : List ℕ). length l) here,
      length-take (suc (length n)) (drop j haystack),
      length-drop j haystack,
    )
