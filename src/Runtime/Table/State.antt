-- ===== src/Runtime/Table/State.antt =====
-- `LuaTable`, `Node` and the sizes of crates/luajit-rs/src/runtime/table.rs. `aptr`, which mirrors
-- the address of the array, and the two pointers into the collector are left out; so is `barrier`,
-- which changes the collector's lists only.
use luajit_rs.Base.{
  ℕ, zero, suc, ◌+◌, ◌-◌, ◌^◌, Bool, ◌&&◌, ◌||◌, Option, none, some, List, [], ◌∷◌, ltb, ◌==◌,
  if◌then◌else◌, length, replicate, set, bit_and, Run, ok, panic, at,
}
use luajit_rs.Base.Int.{pos, negsuc}
use luajit_rs.Runtime.Table.Values.{Values}

abbrev pub max_abits : ℕ
max_abits = 28

abbrev pub max_asize : ℕ
max_asize = 2 ^ 27 + 1

abbrev pub max_hbits : ℕ
max_hbits = 26

-- `next` is an index into `node`; `NIL_NODE` is `none`.
pub record Node (V : Type 0) : Type 0 where
  pub val : V
  pub key : V
  pub next : Option ℕ

pub record Table (V : Type 0) : Type 0 where
  pub array : List V
  pub node : List (Node V)
  pub metatable : Option ℕ
  pub asize : ℕ
  pub hmask : ℕ
  pub freetop : ℕ
  pub nomm : ℕ

-- `31 - x.leading_zeros()`, the position of the highest bit, from `b` on
unfoldable pub fls_from : ℕ → ℕ → ℕ → ℕ
fls_from zero x b = b
fls_from (suc fuel) x b =
    let higher = fls_from fuel x (b + 1) in if ltb x (2 ^ (b + 1)) then b else higher

unfoldable pub fls : ℕ → ℕ
unfolding fls_from
fls x = fls_from 31 x 0

unfoldable pub hsize2hbits : ℕ → ℕ
unfolding fls
hsize2hbits s = if s == 0 then 0 else if s == 1 then 1 else 1 + fls (s - 1)

module _ {V : Type 0} (values : Values V) where
  open values use {nil, is_table, hash_key, as_int32_exact}

  abbrev pub empty_node : Node V
  empty_node = record { val = nil; key = nil; next = none }

  unfoldable pub new_hpart : Table V → ℕ → Run (Table V)
  new_hpart t hbits =
      if ltb max_hbits hbits
      then panic
      else ok (record t {
        node = replicate (2 ^ hbits) empty_node;
        hmask = 2 ^ hbits - 1;
        freetop = 2 ^ hbits;
      })

  unfoldable pub new : ℕ → ℕ → Run (Table V)
  unfolding new_hpart
  new asize hbits =
      if ltb max_asize asize || ltb max_hbits hbits
      then panic
      else (let t : Table V = record {
        array = replicate asize nil;
        node = [];
        metatable = none;
        asize = asize;
        hmask = 0;
        freetop = 0;
        nomm = 255;
      } in
          if hbits == 0 then ok t else new_hpart t hbits)

  unfoldable pub has_hpart : Table V → Bool
  has_hpart t = ltb 0 t.hmask

  -- a table without a hash part shares one empty node
  unfoldable pub node_slot : Table V → ℕ → Run (Node V)
  unfolding has_hpart
  node_slot t i = if has_hpart t then at t.node i else ok empty_node

  -- `*self.node_slot_mut(i) = nd`, after its assertion
  unfoldable pub node_write : Table V → ℕ → Node V → Run (Table V)
  unfolding has_hpart
  node_write t i nd =
      if has_hpart t && ltb i (length t.node)
      then ok (record t { node = set t.node i nd })
      else panic

  unfoldable pub array_write : Table V → ℕ → V → Run (Table V)
  array_write t i v =
      if ltb i (length t.array) then ok (record t { array = set t.array i v }) else panic

  unfoldable pub hash_slot : Table V → V → ℕ
  hash_slot t k = bit_and (hash_key k) t.hmask

  -- the index of a key that is an integer from 0 to the largest array size
  unfoldable pub array_key : V → Option ℕ
  array_key k = elim (as_int32_exact k) [
    | none ↦ none
    | some i ↦ elim i [ pos n ↦ if ltb n max_asize then some n else none | negsuc n ↦ none ]
  ]

  -- `array_key(key)` below `asize`
  unfoldable pub array_slot : Table V → V → Option ℕ
  unfolding array_key
  array_slot t k = elim (array_key k) [
    | none ↦ none
    | some i ↦ if ltb i t.asize then some i else none
  ]

  -- tables among the values of a template are markers
  unfoldable pub unmark : V → V
  unmark v = if is_table v then nil else v

  unfoldable pub unmark_all : List V → List V
  unfolding unmark
  unmark_all [] = []
  unmark_all (v ∷ vs) = unmark v ∷ unmark_all vs

  unfoldable pub unmark_nodes : List (Node V) → List (Node V)
  unfolding unmark
  unmark_nodes [] = []
  unmark_nodes (nd ∷ nds) = record nd { val = unmark nd.val } ∷ unmark_nodes nds

  unfoldable pub dup : Table V → Table V
  unfolding has_hpart unmark_all unmark_nodes
  dup t = record t {
    array = unmark_all t.array;
    node = if has_hpart t then unmark_nodes t.node else [];
    nomm = 0;
    metatable = none;
  }
