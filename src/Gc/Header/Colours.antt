-- ===== src/Gc/Header/Colours.antt =====
-- Colours and ages in the header byte of crates/luajit-rs/src/runtime/gc_gen/header.rs.
use luajit_rs.Base.{
  ℕ, ◌-◌, ◌<◌, ◌≡◌, refl, ap, ◌∙◌, arith, Bool, true, false, not, ◌&&◌, ◌==◌, ==_iff, bit_and,
  bit_or, if◌then◌else◌,
}
use luajit_rs.Gc.Header.{
  bit_black, color_mask, age_mask, without, Age, age_bits, age_of, GcObjectKind, from_u8, GcHeader,
  new_header, white_bits, change_white_bits, is_white, is_black, is_gray, change_white, nw2black,
  make_gray, is_dead, otherwhite, age, set_age, kind,
}
use luajit_rs.Gc.Header.Bytes.{holds_below, below-holds}

abbrev same_age : (ℕ → ℕ) → ℕ → Bool
same_age f b = bit_and (f b) age_mask == bit_and b age_mask

kept_age :
    (f : ℕ → ℕ) (b : ℕ)
    → holds_below 256 (same_age f) ≡ true
    → b < 256
    → age_of (bit_and (f b) age_mask) ≡ age_of (bit_and b age_mask)
kept_age f b h lt = ap age_of ((==_iff _ _).0 (below-holds 256 (same_age f) b h lt))

-- Blackening a header makes it black, neither white nor gray; graying it makes it gray, neither
-- white nor black; and blackening, graying and changing the white all leave its age.
pub recolour-age :
    (h : GcHeader)
    → h.bits < 256
    → ((is_black (nw2black h) ≡ true)
        × (is_white (nw2black h) ≡ false)
        × (is_gray (nw2black h) ≡ false))
      × ((is_gray (make_gray h) ≡ true)
          × (is_white (make_gray h) ≡ false)
          × (is_black (make_gray h) ≡ false))
      × ((age (nw2black h) ≡ age h) × (age (make_gray h) ≡ age h) × (age (change_white h) ≡ age h))
unfolding is_black is_white is_gray nw2black make_gray change_white age
recolour-age h lt = (
  (
    below-holds 256 (λ b. not (bit_and (bit_or (without color_mask b) bit_black) bit_black == 0))
        h.bits refl lt,
    not-true (
        below-holds 256 (λ b. not (white_bits (bit_or (without color_mask b) bit_black))) h.bits
          refl lt),
    not-true (
        below-holds 256
          (λ b. not (bit_and (bit_or (without color_mask b) bit_black) color_mask == 0)) h.bits refl
          lt),
  ),
  (
    below-holds 256 (λ b. bit_and (without color_mask b) color_mask == 0) h.bits refl lt,
    not-true (below-holds 256 (λ b. not (white_bits (without color_mask b))) h.bits refl lt),
    not-true (
        below-holds 256 (λ b. not (not (bit_and (without color_mask b) bit_black == 0))) h.bits refl
          lt),
  ),
  (
    kept_age (λ b. bit_or (without color_mask b) bit_black) h.bits refl lt,
    kept_age (without color_mask) h.bits refl lt,
    kept_age change_white_bits h.bits refl lt,
  ),
)
  where
    not-true : {b : Bool} → not b ≡ true → b ≡ false
    not-true {b} e = ground arith

-- Changing the white of a black header leaves it black and makes it white at once.
pub change_white-black :
    (h : GcHeader)
    → h.bits < 256
    → (is_black (change_white (nw2black h)) ≡ true) × (is_white (change_white (nw2black h)) ≡ true)
unfolding is_black is_white nw2black change_white
change_white-black h lt = (
  below-holds 256
      (λ b.
        not (bit_and (change_white_bits (bit_or (without color_mask b) bit_black)) bit_black == 0))
      h.bits refl lt,
  below-holds 256 (λ b. white_bits (change_white_bits (bit_or (without color_mask b) bit_black)))
      h.bits refl lt,
)

abbrev colours_kept : Age → ℕ → Bool
colours_kept a b =
    bit_and (bit_or (without age_mask b) (age_bits a)) color_mask == bit_and b color_mask

abbrev age_written : Age → ℕ → Bool
age_written a b = bit_and (bit_or (without age_mask b) (age_bits a)) age_mask == age_bits a

set_age-bits : (a : Age) (b : ℕ) → b < 256 → (colours_kept a b ≡ true) × (age_written a b ≡ true)
set_age-bits Age.new b lt = (
  below-holds 256 (colours_kept Age.new) b refl lt,
  below-holds 256 (age_written Age.new) b refl lt,
)
set_age-bits Age.survival b lt = (
  below-holds 256 (colours_kept Age.survival) b refl lt,
  below-holds 256 (age_written Age.survival) b refl lt,
)
set_age-bits Age.old0 b lt = (
  below-holds 256 (colours_kept Age.old0) b refl lt,
  below-holds 256 (age_written Age.old0) b refl lt,
)
set_age-bits Age.old1 b lt = (
  below-holds 256 (colours_kept Age.old1) b refl lt,
  below-holds 256 (age_written Age.old1) b refl lt,
)
set_age-bits Age.old b lt = (
  below-holds 256 (colours_kept Age.old) b refl lt,
  below-holds 256 (age_written Age.old) b refl lt,
)
set_age-bits Age.touched1 b lt = (
  below-holds 256 (colours_kept Age.touched1) b refl lt,
  below-holds 256 (age_written Age.touched1) b refl lt,
)
set_age-bits Age.touched2 b lt = (
  below-holds 256 (colours_kept Age.touched2) b refl lt,
  below-holds 256 (age_written Age.touched2) b refl lt,
)

age_of-bits : (a : Age) → age_of (age_bits a) ≡ a
age_of-bits a = ground arith

-- Setting an age makes `age` return it, and leaves whether the header is white or gray.
pub set_age-age :
    (h : GcHeader) (a : Age)
    → h.bits < 256
    → (age (set_age h a) ≡ a)
      × (is_white (set_age h a) ≡ is_white h)
      × (is_gray (set_age h a) ≡ is_gray h)
unfolding age set_age is_white is_gray
set_age-age h a lt =
    let (colours, written) = set_age-bits a h.bits lt in
    let same_colours : bit_and (bit_or (without age_mask h.bits) (age_bits a)) color_mask
        ≡ bit_and h.bits color_mask =
      (==_iff _ _).0 colours in
    (
      ap age_of ((==_iff _ _).0 written) ∙ age_of-bits a,
      ap (λ c. not (c == bit_black) && not (c == 0)) same_colours,
      ap (λ c. c == 0) same_colours,
    )

-- A new header has the kind, the size and the youngest age; it is white, not dead for the current
-- white, and dead for the other.
pub new_header-alive :
    (w : Bool) (k : GcObjectKind) (size : ℕ)
    → let white : ℕ = if w then 1 else 0 in
      let h = new_header white k size in
      (kind h ≡ k)
      × (h.alloc_size ≡ size)
      × (age h ≡ Age.new)
      × (is_white h ≡ true)
      × (is_dead h white ≡ false)
      × (is_dead h (1 - white) ≡ true)
unfolding kind from_u8 new_header age is_white is_dead
new_header-alive true k size = (ground arith, refl, refl, refl, refl, refl)
new_header-alive false k size = (ground arith, refl, refl, refl, refl, refl)

-- For the current white 0 or 1, a header is dead if and only if it has the bit that `otherwhite` returns.
-- With that bit in place of the number of the current white, `is_dead` answers as for the current white
-- 1, whatever the current white is: a new header of the current white is then dead if and only if that
-- is 0, and a new header of the other white if and only if the current white is 1.
pub is_dead-otherwhite :
    (h : GcHeader) (w : Bool) (k : GcObjectKind) (size : ℕ)
    → let white : ℕ = if w then 1 else 0 in
      (is_dead h white ≡ not (bit_and h.bits (otherwhite white) == 0))
      × (is_dead h (otherwhite white) ≡ is_dead h 1)
      × (is_dead (new_header white k size) (otherwhite white) ≡ not w)
      × (is_dead (new_header (1 - white) k size) (otherwhite white) ≡ w)
unfolding is_dead otherwhite new_header
is_dead-otherwhite h true k size = (refl, refl, refl, refl)
is_dead-otherwhite h false k size = (refl, refl, refl, refl)
