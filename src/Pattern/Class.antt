-- ===== src/Pattern/Class.antt =====
-- crates/luajit-rs/src/stdlib/pattern/class.rs: character classes, sets, and the extent of one
-- pattern element. The byte predicates are those of Rust's `u8`.
pub mod Laws
use luajit_rs.Base.{
  ℕ, ◌+◌, Bool, true, false, not, ◌&&◌, ◌||◌, List, [], ◌∷◌, leb, ◌==◌, if◌then◌else◌, drop, Run,
  ok, panic, ◌>>=◌, at,
}

abbrev pub between : ℕ → ℕ → ℕ → Bool
between lo hi c = leb lo c && leb c hi

abbrev pub is_ascii_uppercase : ℕ → Bool
is_ascii_uppercase c = between b'A' b'Z' c

abbrev pub is_ascii_lowercase : ℕ → Bool
is_ascii_lowercase c = between b'a' b'z' c

abbrev pub is_ascii_digit : ℕ → Bool
is_ascii_digit c = between b'0' b'9' c

abbrev pub is_ascii_alphabetic : ℕ → Bool
is_ascii_alphabetic c = is_ascii_uppercase c || is_ascii_lowercase c

abbrev pub is_ascii_alphanumeric : ℕ → Bool
is_ascii_alphanumeric c = is_ascii_alphabetic c || is_ascii_digit c

abbrev pub is_ascii_control : ℕ → Bool
is_ascii_control c = leb c 31 || c == 127

abbrev pub is_ascii_graphic : ℕ → Bool
is_ascii_graphic c = between 33 126 c

abbrev pub is_ascii_punctuation : ℕ → Bool
is_ascii_punctuation c = between 33 47 c || between 58 64 c || between 91 96 c || between 123 126 c

-- space, tab, line feed, form feed, carriage return; not the vertical tab
abbrev pub is_ascii_whitespace : ℕ → Bool
is_ascii_whitespace c = c == 32 || c == 9 || c == 10 || c == 12 || c == 13

abbrev pub is_ascii_hexdigit : ℕ → Bool
is_ascii_hexdigit c = is_ascii_digit c || between b'A' b'F' c || between b'a' b'f' c

abbrev pub to_ascii_lowercase : ℕ → ℕ
to_ascii_lowercase c = if is_ascii_uppercase c then c + 32 else c

unfoldable pub match_class : ℕ → ℕ → Bool
match_class c cl =
    if cl == b'a'
    then is_ascii_alphabetic c
    else if cl == b'c'
    then is_ascii_control c
    else if cl == b'd'
    then is_ascii_digit c
    else if cl == b'g'
    then is_ascii_graphic c
    else if cl == b'l'
    then is_ascii_lowercase c
    else if cl == b'p'
    then is_ascii_punctuation c
    else if cl == b's'
    then is_ascii_whitespace c
    else if cl == b'u'
    then is_ascii_uppercase c
    else if cl == b'w'
    then is_ascii_alphanumeric c
    else if cl == b'x'
    then is_ascii_hexdigit c
    else if cl == b'z'
    then c == 0
    else c == cl

abbrev contains : List ℕ → ℕ → Bool
contains [] c = false
contains (x ∷ xs) c = c == x || contains xs c

unfoldable pub is_class_letter : ℕ → Bool
is_class_letter cl =
    contains (b'a' ∷ b'c' ∷ b'd' ∷ b'g' ∷ b'l' ∷ b'p' ∷ b's' ∷ b'u' ∷ b'w' ∷ b'x' ∷ b'z' ∷ []) cl
    || contains (b'A' ∷ b'C' ∷ b'D' ∷ b'G' ∷ b'L' ∷ b'P' ∷ b'S' ∷ b'U' ∷ b'W' ∷ b'X' ∷ b'Z' ∷ []) cl

-- the letter behind a `%`: an upper-case class letter inverts its class
unfoldable pub match_escape : ℕ → ℕ → Bool
match_escape c cl =
    if is_ascii_uppercase cl && is_class_letter cl
    then not (match_class c (to_ascii_lowercase cl))
    else match_class c cl

-- `if pat[i] == x { i += 1 }`, with whether it did
unfoldable pub strip : ℕ → List ℕ → Bool × List ℕ
strip x [] = (false, [])
strip x (y ∷ r) = if y == x then (true, r) else (false, y ∷ r)

-- The loop of `matchset`, up to the closing bracket or the end of the pattern.
unfoldable pub matchset_loop : ℕ → List ℕ → Bool → Bool
matchset_loop c [] matched = matched
matchset_loop c (x ∷ []) matched = if x == b']' then matched else matched || c == x
matchset_loop c (x ∷ y ∷ []) matched = elim (x == b']') [
  | true ↦ matched
  | false ↦ elim (x == b'%') [
    | true ↦ matched || match_escape c y
    | false ↦ matchset_loop c (y ∷ []) (matched || c == x)
  ]
]
matchset_loop c (x ∷ y ∷ z ∷ r) matched = elim (x == b']') [
  | true ↦ matched
  | false ↦ elim (x == b'%') [
    | true ↦ matchset_loop c (z ∷ r) (matched || match_escape c y)
    | false ↦ elim (y == b'-' && not (z == b']')) [
      | true ↦ matchset_loop c r (matched || between x z c)
      | false ↦ matchset_loop c (y ∷ z ∷ r) (matched || c == x)
    ]
  ]
]

-- The pattern stands behind the opening bracket.
unfoldable pub matchset : ℕ → List ℕ → Bool
unfolding strip
matchset c r =
    let (negated, s) = strip b'^' r in
    let (bracket, t) = strip b']' s in
    let matched = matchset_loop c t (bracket && c == b']') in
    if negated then not matched else matched

unfoldable pub singlematch : ℕ → List ℕ → Run Bool
singlematch c [] = panic
singlematch c (x ∷ r) =
    if x == b'.'
    then ok true
    else if x == b'%'
    then (at r 0 >>= λ cl. ok (match_escape c cl))
    else if x == b'['
    then ok (matchset c r)
    else ok (c == x)

-- The loop of `element_end` over a set, and the step past its closing bracket. An index past the
-- end of the pattern is the empty rest.
unfoldable pub set_end : List ℕ → List ℕ
set_end [] = []
set_end (x ∷ []) = []
set_end (x ∷ y ∷ r) = elim (x == b']') [
  | true ↦ y ∷ r
  | false ↦ elim (x == b'%') [ true ↦ set_end r | false ↦ set_end (y ∷ r) ]
]

unfoldable pub element_end : List ℕ → Run (List ℕ)
unfolding strip
element_end [] = panic
element_end (x ∷ r) =
    if x == b'%'
    then ok (drop 1 r)
    else if x == b'['
    then ok (set_end (strip b']' (strip b'^' r).1).1)
    else ok r
