-- ===== src/Pattern/Class/Laws.antt =====
-- How the character classes of crates/luajit-rs/src/stdlib/pattern/class.rs relate.
use luajit_rs.Base.{ℕ, ◌-◌, ◌≡◌, Bool, true, false, not, ◌&&◌, ◌||◌, ◌==◌, arith}
use luajit_rs.Pattern.Class.{
  between, is_ascii_lowercase, is_class_letter, match_class, match_escape,
}

-- `isspace` of the C locale
abbrev pub isspace : ℕ → Bool
isspace c = c == 32 || between 9 13 c

-- `%s` is the `isspace` of the C locale without the vertical tab, `%g` is the union of the disjoint
-- `%w` and `%p`, and `%w` the union of the disjoint `%a` and `%d`.
pub match_class_algebra :
    (c : ℕ)
    → (match_class c b's' ≡ (isspace c && not (c == 11)))
      × (match_class c b'g' ≡ (match_class c b'w' || match_class c b'p'))
      × ((match_class c b'w' && match_class c b'p') ≡ false)
      × (match_class c b'w' ≡ (match_class c b'a' || match_class c b'd'))
      × ((match_class c b'a' && match_class c b'd') ≡ false)
unfolding match_class
match_class_algebra c = (ground arith, ground arith, ground arith, ground arith, ground arith)

-- For every lower-case class letter, `%` with its upper-case letter matches exactly the bytes that
-- `%` with the letter itself does not match.
pub match_escape-upper :
    (c cl : ℕ)
    → is_ascii_lowercase cl ≡ true
    → is_class_letter cl ≡ true
    → match_escape c (cl - 32) ≡ not (match_escape c cl)
unfolding match_escape is_class_letter
match_escape-upper c cl lower letter = ground arith
