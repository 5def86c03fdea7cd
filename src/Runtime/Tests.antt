-- ===== src/Runtime/Tests.antt =====
-- Values for examples, and tables over them.
use luajit_rs.Base.{
  ℕ, ◌^◌, ◌<◌, ◌≡◌, ◌≢◌, ◌↔◌, ◌⊎◌, refl, sym, ◌∙◌, subst, arith, Bool, true, false, Option, none,
  some, [], ◌∷◌, ltb, ◌==◌, if◌then◌else◌, length, Run, ok, ◌>>=◌, Returns,
}
use luajit_rs.Base.Int.{ℤ, pos, negsuc}
use luajit_rs.Runtime.Table.Values.{Values}
use luajit_rs.Runtime.Table.State.{Table, hsize2hbits, has_hpart, array_key, unmark, dup, new}
use luajit_rs.Runtime.Table.Find.{lookup, get, get_int}
use luajit_rs.Runtime.Table.Count.{count_values}
use luajit_rs.Runtime.Table.Insert.{
  rehashed, entries, set, set_int, set_str, reasize, rehash, set_depth, try_new_key,
}
use luajit_rs.Runtime.Table.Traverse.{next}
use luajit_rs.Runtime.Table.Nodes.{keyed}
use luajit_rs.Runtime.Table.Valid.{node_at, Outside, Found, lookup_lem}
use luajit_rs.Runtime.Table.TryNewKey.{Slotted, try_new_key_lem}
use luajit_rs.Runtime.Table.SetAll.{latest}
use luajit_rs.Runtime.Table.Resized.{emptied}
use luajit_rs.Runtime.Table.Rehash.{population, Rehashed, rehash_lem}
use luajit_rs.Runtime.Table.Map.{IsKey, Represents, Stored, update, set-Represents}
use luajit_rs.Runtime.Table.Integers.{number-IsKey, get_int-get, set_int-Stored, Grown, reasize_lem}
use luajit_rs.Runtime.Table.Strings.{emptied-Represents, new-Represents, set_str-Stored}
use luajit_rs.Runtime.Table.Dup.{dup-Represents}
use luajit_rs.Runtime.Table.Length.{len}
use luajit_rs.Runtime.Table.Len.{IsBorder, len_lem}
use luajit_rs.Runtime.Table.Next.{head?, listing, Follows, next-enumerates, listing-get}

data Value : Type 0 where
  nil : Value
  int : ℤ → Value
  str : ℕ → Value
  tab : ℕ → Value

abbrev equal_int : ℤ → ℤ → Bool
equal_int (pos m) (pos n) = m == n
equal_int (negsuc m) (negsuc n) = m == n
equal_int (pos m) (negsuc n) = false
equal_int (negsuc m) (pos n) = false

abbrev equal_value : Value → Value → Bool
equal_value nil nil = true
equal_value (int a) (int b) = equal_int a b
equal_value (str a) (str b) = a == b
equal_value (tab a) (tab b) = a == b
equal_value _ _ = false

abbrev int32_exact : Value → Option ℤ
int32_exact (int (pos n)) = if ltb n (2 ^ 31) then some (pos n) else none
int32_exact (int (negsuc n)) = if ltb n (2 ^ 31) then some (negsuc n) else none
int32_exact _ = none

abbrev hash_value : Value → ℕ
hash_value (int (pos n)) = n
hash_value (int (negsuc n)) = n
hash_value (str n) = n
hash_value (tab n) = n
hash_value nil = 0

equal_int_iff : (a b : ℤ) → (equal_int a b ≡ true) ↔ (a ≡ b)
equal_int_iff a b = ground arith

equal_value_iff : (a b : Value) → (equal_value a b ≡ true) ↔ (a ≡ b)
equal_value_iff a b = ground arith

number_int : (a : Value) (k : ℤ) → int32_exact a ≡ some k → int k ≡ a
number_int a k h = ground arith

abbrev values : Values Value
values = record {
  nil = nil;
  equal = equal_value;
  is_nil = λ a. equal_value a nil;
  is_string = λ a. elim a [ str n ↦ true | _ ↦ false ];
  is_table = λ a. elim a [ tab n ↦ true | _ ↦ false ];
  hash_key = hash_value;
  number = int;
  as_int32_exact = int32_exact;
  normalize_key = λ a. a;
  equal_iff = equal_value_iff;
  is_nil_iff = λ a. equal_value_iff a nil;
  is_nil-string = λ a h. ground arith;
  string-int = λ a h. ground arith;
  int-nil = refl;
  int-number = λ n h. ground arith;
  number-int = λ a k h e. number_int a k h;
  normalize-number = λ k. refl;
}

-- an array of two slots and two nodes
abbrev small : Table Value
small = emptied values (nil ∷ nil ∷ []) none 1 255

small-Represents : Represents values small (λ k. nil)
small-Represents = emptied-Represents values 2 1 255 (omega arith) (omega arith)

abbrev five : Value
five = int (pos 5)

keys : (n : ℕ) → n < 2 ^ 31 → IsKey values (int (pos n))
keys n h = number-IsKey values n h

-- the table after a write that goes to a node
abbrev one_entry : Table Value
one_entry = record small {
  node =
      record { val = nil; key = nil; next = none }
      ∷ record { val = str 3; key = five; next = none }
      ∷ [];
  nomm = 0;
}

one_entry-run : set values small five (str 3) ≡ ok one_entry
unfolding set
one_entry-run = refl

-- three keys in two nodes: the last one resizes the table
abbrev three : Run (Table Value)
three = set values small five (str 3) >>= λ t.
    set values t (str 5) (str 4) >>= λ t'. set values t' (str 7) (str 6)

three-get : (three >>= λ t. get values t (str 7)) ≡ ok (str 6)
unfolding set get hsize2hbits
three-get = refl

three-old : (three >>= λ t. get values t five) ≡ ok (str 3)
unfolding set get hsize2hbits
three-old = refl

-- the same steps one by one
abbrev full : Table Value
full = record small {
  node =
      record { val = str 4; key = str 5; next = none }
      ∷ record { val = str 3; key = five; next = some 0 }
      ∷ [];
  freetop = 0;
  nomm = 0;
}

full-run : set values one_entry (str 5) (str 4) ≡ ok full
unfolding set
full-run = refl

Returns-at : {A : Type 0} {P : A → Type 0} (r : Run A) (a : A) → r ≡ ok a → Returns r P → P a
Returns-at {A} {P} r a e (b, f, p) =
    let same : ok b ≡ ok a = sym f ∙ e in subst P (ok-injective b a same) p
  where
    ok-injective : (x y : A) → ok x ≡ ok y → x ≡ y
    ok-injective x y h = cc

strings : (n : ℕ) → IsKey values (str n)
strings n = record { not_nil = refl; normal = refl }

abbrev after_five : Value → Value
after_five = update values (λ k. nil) five (str 3)

few :
    (population values small < 2 ^ 26)
    × (population values one_entry < 2 ^ 26)
    × (population values full < 2 ^ 26)
unfolding count_values entries
few = (omega arith, omega arith, omega arith)

one_entry-Represents : Represents values one_entry after_five
one_entry-Represents =
    Returns-at {P = λ t. Represents values t after_five} (set values small five (str 3)) one_entry
      one_entry-run
      (set-Represents values small (λ k. nil) five (str 3) small-Represents (keys 5 (omega arith))
        few.0)

abbrev after_both : Value → Value
after_both = update values after_five (str 5) (str 4)

full-Represents : Represents values full after_both
full-Represents =
    Returns-at {P = λ t. Represents values t after_both} (set values one_entry (str 5) (str 4)) full
      full-run
      (set-Represents values one_entry after_five (str 5) (str 4) one_entry-Represents (strings 5)
        few.1)

set-Represents_example :
    Returns
      (set values full (str 7) (str 6))
      (λ t. Represents values t (update values after_both (str 7) (str 6)))
set-Represents_example =
    set-Represents values full after_both (str 7) (str 6) full-Represents (strings 7) few.2

new-Represents_example : Returns (new values 2 1) (λ t. Represents values t (λ k. nil))
new-Represents_example = new-Represents values 2 1 (omega arith) (omega arith)

rehash_lem_example :
    Returns (rehash values (set_depth values 1) full (str 7)) (λ t. Rehashed values full t (str 7))
rehash_lem_example = rehash_lem values 0 full (str 7) full-Represents.valid few.2

set_int-Stored_example :
    Returns (set_int values full (pos 2) (str 1)) (λ t. Stored values full t (int (pos 2)) (str 1))
set_int-Stored_example =
    set_int-Stored values full (pos 2) (str 1) full-Represents.valid (keys 2 (omega arith)) few.2

set_str-Stored_example :
    Returns (set_str values full (str 5) (str 1)) (λ t. Stored values full t (str 5) (str 1))
set_str-Stored_example =
    set_str-Stored values full (str 5) (str 1) full-Represents.valid (strings 5) refl few.2

get_int-get_example : get_int values full (pos 1) ≡ get values full (int (pos 1))
get_int-get_example = get_int-get values full (pos 1) full-Represents.valid

reasize_lem_example : Returns (reasize values full 2) (λ t. Grown values full t 2)
reasize_lem_example = reasize_lem values full 2 full-Represents.valid (omega arith) (omega arith)

-- a template with a marker
abbrev template : Table Value
template = record full {
  node =
      record { val = tab 1; key = str 5; next = none }
      ∷ record { val = str 3; key = five; next = some 0 }
      ∷ [];
}

template-run : set values full (str 5) (tab 1) ≡ ok template
unfolding set
template-run = refl

abbrev with_marker : Value → Value
with_marker = update values after_both (str 5) (tab 1)

template-Represents : Represents values template with_marker
template-Represents =
    Returns-at {P = λ t. Represents values t with_marker} (set values full (str 5) (tab 1)) template
      template-run
      (set-Represents values full after_both (str 5) (tab 1) full-Represents (strings 5) few.2)

dup-marker : get values (dup values template) (str 5) ≡ ok nil
unfolding dup get
dup-marker = refl

dup-kept : get values (dup values template) five ≡ ok (str 3)
unfolding dup get
dup-kept = refl

dup-Represents_example :
    Represents values (dup values template) (λ k. unmark values (with_marker k))
dup-Represents_example = dup-Represents values template with_marker template-Represents

len_lem_example : Returns (len values full) (λ n. IsBorder values full n)
len_lem_example = len_lem values full full-Represents.valid few.2

has_nodes : has_hpart values full ≡ true
unfolding has_hpart
has_nodes = refl

lookup_lem_example :
    Returns (lookup values full (str 5)) (Found values full full-Represents.valid (str 5))
lookup_lem_example = lookup_lem values full full-Represents.valid (str 5) refl has_nodes

next-enumerates_example :
    (next values full nil ≡ ok (head? (listing values full full-Represents.valid)))
    × Follows values full full-Represents.valid (listing values full full-Represents.valid)
next-enumerates_example = next-enumerates values full full-Represents.valid

listing-get_example :
    latest values (listing values full full-Represents.valid) (str 5) (ok nil)
    ≡ get values full (str 5)
listing-get_example = listing-get values full full-Represents.valid (str 5) (strings 5)

Outside-small : Outside values 2 (str 3)
unfolding array_key
Outside-small n e = cc

absent : (i : ℕ) → (node_at values one_entry.node i).key ≢ str 3
absent i e = ground arith

one_hpart : has_hpart values one_entry ≡ true
unfolding has_hpart
one_hpart = refl

try_new_key_lem_example :
    Slotted values one_entry (str 3) (try_new_key values (λ t k. ok t) one_entry (str 3))
    ⊎ ((try_new_key values (λ t k. ok t) one_entry (str 3)
          ≡ (ok (record one_entry { nomm = 0 }) >>= λ t₁. ok (rehashed t₁)))
        × (keyed (λ a. equal_value a nil) one_entry.node ≡ length one_entry.node))
try_new_key_lem_example =
    try_new_key_lem values one_entry one_entry-Represents.valid one_hpart (str 3) refl refl
      Outside-small absent (λ t k. ok t)
