-- ===== src/Gc/Header.antt =====
-- `GcHeader`, `Age` and `GcObjectKind` of crates/luajit-rs/src/runtime/gc_gen/header.rs. The cells of
-- a header are fields, and a method that sets a cell returns the header that is then there.
pub mod Bytes
pub mod Colours
use luajit_rs.Base.{
  ℕ, ◌-◌, Bool, true, false, not, ◌&&◌, Option, none, some, ◌==◌, if◌then◌else◌, bit_and, bit_or,
  List, [], ◌∷◌, get_elem?, get_or,
}

abbrev pub bit_white0 : ℕ
bit_white0 = 8

abbrev pub bit_white1 : ℕ
bit_white1 = 16

abbrev pub bit_black : ℕ
bit_black = 32

abbrev pub color_mask : ℕ
color_mask = bit_or (bit_or bit_white0 bit_white1) bit_black

abbrev pub age_mask : ℕ
age_mask = 7

-- `!x` on u8
abbrev pub without : ℕ → ℕ → ℕ
without x b = bit_and b (255 - x)

pub data Age : Type 0 where
  new survival old0 old1 old touched1 touched2 : Age

abbrev pub age_bits : Age → ℕ
age_bits Age.new = 0
age_bits Age.survival = 1
age_bits Age.old0 = 2
age_bits Age.old1 = 3
age_bits Age.old = 4
age_bits Age.touched1 = 5
age_bits Age.touched2 = 6

-- `Age::is_old`
unfoldable pub is_old_age : Age → Bool
is_old_age Age.old = true
is_old_age Age.touched1 = true
is_old_age Age.touched2 = true
is_old_age _ = false

pub data GcObjectKind : Type 0 where
  string table func upval thread proto cdata userdata : GcObjectKind

abbrev pub kind_bits : GcObjectKind → ℕ
kind_bits GcObjectKind.string = 0
kind_bits GcObjectKind.table = 1
kind_bits GcObjectKind.func = 2
kind_bits GcObjectKind.upval = 3
kind_bits GcObjectKind.thread = 4
kind_bits GcObjectKind.proto = 5
kind_bits GcObjectKind.cdata = 6
kind_bits GcObjectKind.userdata = 7

-- the kinds in the order of the arms of `from_u8`
abbrev all_kinds : List GcObjectKind
all_kinds =
    GcObjectKind.string ∷ GcObjectKind.table ∷ GcObjectKind.func ∷ GcObjectKind.upval
    ∷ GcObjectKind.thread ∷ GcObjectKind.proto ∷ GcObjectKind.cdata ∷ GcObjectKind.userdata ∷ []

unfoldable pub from_u8 : ℕ → Option GcObjectKind
from_u8 v = get_elem? all_kinds v

pub record GcHeader : Type 0 where
  pub bits : ℕ
  pub kind_byte : ℕ
  pub index : ℕ
  pub alloc_size : ℕ

unfoldable pub new_header : ℕ → GcObjectKind → ℕ → GcHeader
new_header current_white kind size = record {
  bits = if current_white == 0 then bit_white0 else bit_white1;
  kind_byte = kind_bits kind;
  index = 0;
  alloc_size = size;
}

-- the tests and updates of `bits`
abbrev pub white_bits : ℕ → Bool
white_bits b = not (bit_and b color_mask == bit_black) && not (bit_and b color_mask == 0)

abbrev pub change_white_bits : ℕ → ℕ
change_white_bits b =
    if not (bit_and b bit_white0 == 0)
    then bit_or (without bit_white0 b) bit_white1
    else bit_or (without bit_white1 b) bit_white0

unfoldable pub is_white : GcHeader → Bool
is_white h = white_bits h.bits

unfoldable pub is_black : GcHeader → Bool
is_black h = not (bit_and h.bits bit_black == 0)

unfoldable pub is_gray : GcHeader → Bool
is_gray h = bit_and h.bits color_mask == 0

unfoldable pub change_white : GcHeader → GcHeader
change_white h = record h { bits = change_white_bits h.bits }

unfoldable pub nw2black : GcHeader → GcHeader
nw2black h = record h { bits = bit_or (without color_mask h.bits) bit_black }

unfoldable pub make_gray : GcHeader → GcHeader
make_gray h = record h { bits = without color_mask h.bits }

unfoldable pub is_dead : GcHeader → ℕ → Bool
is_dead h current_white =
    if current_white == 0
    then not (bit_and h.bits bit_white1 == 0)
    else not (bit_and h.bits bit_white0 == 0)

unfoldable pub otherwhite : ℕ → ℕ
otherwhite current_white = if current_white == 0 then bit_white1 else bit_white0

-- the ages in the order of the arms of `age`
abbrev all_ages : List Age
all_ages = Age.new ∷ Age.survival ∷ Age.old0 ∷ Age.old1 ∷ Age.old ∷ Age.touched1 ∷ Age.touched2 ∷ []

abbrev pub age_of : ℕ → Age
age_of b = get_or all_ages b Age.old

unfoldable pub age : GcHeader → Age
age h = age_of (bit_and h.bits age_mask)

unfoldable pub set_age : GcHeader → Age → GcHeader
set_age h a = record h { bits = bit_or (without age_mask h.bits) (age_bits a) }

unfoldable pub is_old : GcHeader → Bool
unfolding age is_old_age
is_old h = is_old_age (age h)

unfoldable pub kind : GcHeader → GcObjectKind
unfolding from_u8
kind h = elim (from_u8 h.kind_byte) [ some k ↦ k | none ↦ GcObjectKind.table ]
