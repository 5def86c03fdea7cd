-- ===== src/Gc/Tests.antt =====
-- Headers of concrete objects.
use luajit_rs.Base.{◌+◌, ◌≡◌, refl, arith, true, false, not, ◌==◌, bit_and}
use luajit_rs.Gc.Header.{
  Age, GcObjectKind, GcHeader, new_header, is_white, is_black, is_gray, change_white, nw2black,
  make_gray, is_dead, otherwhite, age, set_age, is_old, is_old_age, kind,
}
use luajit_rs.Gc.Header.Colours.{
  recolour-age, change_white-black, set_age-age, new_header-alive, is_dead-otherwhite,
}

abbrev old_table : GcHeader
old_table = record { bits = 8 + 4; kind_byte = 1; index = 3; alloc_size = 40 }

is_old-old_table : is_old (set_age old_table Age.touched1) ≡ true
unfolding is_old set_age age is_old_age
is_old-old_table = refl

recolour-age_example :
    ((is_black (nw2black old_table) ≡ true)
      × (is_white (nw2black old_table) ≡ false)
      × (is_gray (nw2black old_table) ≡ false))
    × ((is_gray (make_gray old_table) ≡ true)
        × (is_white (make_gray old_table) ≡ false)
        × (is_black (make_gray old_table) ≡ false))
    × ((age (nw2black old_table) ≡ age old_table)
        × (age (make_gray old_table) ≡ age old_table)
        × (age (change_white old_table) ≡ age old_table))
recolour-age_example = recolour-age old_table (omega arith)

change_white-black_example :
    (is_black (change_white (nw2black old_table)) ≡ true)
    × (is_white (change_white (nw2black old_table)) ≡ true)
change_white-black_example = change_white-black old_table (omega arith)

set_age-age_example :
    (age (set_age old_table Age.old1) ≡ Age.old1)
    × (is_white (set_age old_table Age.old1) ≡ is_white old_table)
    × (is_gray (set_age old_table Age.old1) ≡ is_gray old_table)
set_age-age_example = set_age-age old_table Age.old1 (omega arith)

new_header-alive_example :
    (kind (new_header 0 GcObjectKind.thread 64) ≡ GcObjectKind.thread)
    × ((new_header 0 GcObjectKind.thread 64).alloc_size ≡ 64)
    × (age (new_header 0 GcObjectKind.thread 64) ≡ Age.new)
    × (is_white (new_header 0 GcObjectKind.thread 64) ≡ true)
    × (is_dead (new_header 0 GcObjectKind.thread 64) 0 ≡ false)
    × (is_dead (new_header 0 GcObjectKind.thread 64) 1 ≡ true)
new_header-alive_example = new_header-alive false GcObjectKind.thread 64

is_dead-otherwhite_example :
    (is_dead old_table 0 ≡ not (bit_and (8 + 4) (otherwhite 0) == 0))
    × (is_dead old_table (otherwhite 0) ≡ is_dead old_table 1)
    × (is_dead (new_header 0 GcObjectKind.thread 64) (otherwhite 0) ≡ true)
    × (is_dead (new_header 1 GcObjectKind.thread 64) (otherwhite 0) ≡ false)
is_dead-otherwhite_example = is_dead-otherwhite old_table false GcObjectKind.thread 64
