-- ===== src/Pattern/Plain.antt =====
-- The fast paths for plain patterns of crates/luajit-rs/src/stdlib/pattern/engine.rs.
pub mod First
use luajit_rs.Base.{
  ℕ, zero, suc, ◌+◌, ◌-◌, Bool, true, false, not, ◌&&◌, ◌||◌, List, [], ◌∷◌, ◌++◌, Option, none,
  some, ltb, leb, ◌==◌, if◌then◌else◌, length, take, drop, Run, ok, no_fuel, ◌>>=◌,
}
use luajit_rs.Pattern.Class.{is_ascii_digit}
use luajit_rs.Pattern.Error.{Result, done, fail, invalid_capture_index, invalid_replacement}

-- Equality of byte slices.
unfoldable pub bytes_eq : List ℕ → List ℕ → Bool
bytes_eq [] [] = true
bytes_eq (x ∷ xs) (y ∷ ys) = x == y && bytes_eq xs ys
bytes_eq _ _ = false

-- `haystack.iter().position(|&b| b == byte)`, counted from `i`
unfoldable pub position : ℕ → List ℕ → ℕ → Option ℕ
position byte [] i = none
position byte (c ∷ t) i = if c == byte then some i else position byte t (i + 1)

-- The loop of `find_bytes_in_slice`; the list is `&haystack[i..]`.
unfoldable pub find_loop : ℕ → List ℕ → List ℕ → ℕ → Option ℕ
unfolding bytes_eq
find_loop first rest [] i = none
find_loop first rest (c ∷ t) i =
    if ltb (length t) (length rest)
    then none
    else if c == first && bytes_eq (take (length rest) t) rest
    then some i
    else find_loop first rest t (i + 1)

unfoldable pub find_bytes_in_slice : List ℕ → List ℕ → Option ℕ
unfolding position find_loop
find_bytes_in_slice haystack [] = some 0
find_bytes_in_slice haystack (first ∷ []) =
    if ltb (length haystack) 1 then none else position first haystack 0
find_bytes_in_slice haystack (first ∷ x ∷ rest) =
    if ltb (length haystack) (length (first ∷ x ∷ rest))
    then none
    else find_loop first (x ∷ rest) haystack 0
