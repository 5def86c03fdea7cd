-- ===== src/Runtime/Table/Strings.antt =====
-- A new table of crates/luajit-rs/src/runtime/table.rs, and its shortcut for string keys.
use luajit_rs.Base.{
  ℕ, zero, suc, ◌^◌, ◌≤◌, ◌<◌, ◌≡◌, inl, inr, refl, sym, ◌∙◌, ap, subst, arith, true, false, Option,
  none, some, Bool-cases, Option-cases, length-replicate, replicate, Run, ok, ◌>>=◌, Returns,
}
use luajit_rs.Runtime.Table.Values.{Values}
use luajit_rs.Runtime.Table.State.{
  max_asize, Table, empty_node, has_hpart, array_key, array_slot, new_hpart, new,
}
use luajit_rs.Runtime.Table.Find.{lookup}
use luajit_rs.Runtime.Table.Insert.{set, set_str, val_write}
use luajit_rs.Runtime.Table.Nodes.{get_or-replicate, keyed-replicate}
use luajit_rs.Runtime.Table.Valid.{node_at, Keyed, Valid, Found, lookup_lem}
use luajit_rs.Runtime.Table.TryNewKey.{nomm-Valid}
use luajit_rs.Runtime.Table.Assign.{val_write-run, val_write-Updated}
use luajit_rs.Runtime.Table.Resized.{room, emptied, emptied-Valid}
use luajit_rs.Runtime.Table.Contents.{get-element, get-empty}
use luajit_rs.Runtime.Table.Rehash.{population}
use luajit_rs.Runtime.Table.Map.{IsKey, Represents, Stored, Updated-Stored, set-Stored, Stored-nomm}

module _ {V : Type 0} (values : Values V) where
  open values use {nil, is_nil, is_string, string-int, is_nil_iff}

  new-emptied :
      (asize hbits : ℕ)
      → asize ≤ max_asize
      → hbits ≤ 26
      → new values asize hbits ≡ ok (emptied values (replicate asize nil) none hbits 255)
  unfolding new new_hpart
  new-emptied asize zero le hle = ground (arith, length-replicate asize nil)
  new-emptied asize (suc b) le hle = ground (arith, length-replicate asize nil)

  pub emptied-Represents :
      (asize hbits nomm : ℕ)
      → asize ≤ max_asize
      → hbits ≤ 26
      → Represents values (emptied values (replicate asize nil) none hbits nomm) (λ k. nil)
  emptied-Represents asize hbits nomm le hle =
      let t = emptied values (replicate asize nil) none hbits nomm in
      let v =
        emptied-Valid values (replicate asize nil) none hbits nomm
          (rw (length-replicate asize nil) le) hle in
      let unused =
        keyed-replicate is_nil (room hbits) (empty_node values) ((is_nil_iff nil).1 refl) in
      record {
        valid = v;
        reads = λ k ok_k. elim (Option-cases (array_slot values t k)) [
          | inr (i, h) ↦ get-element values t k i v h ∙ ap ok (get_or-replicate asize i nil)
          | inl out ↦ get-empty values t k v unused ok_k.not_nil out
        ];
      }

  -- For an array size of at most 2 ^ 27 + 1 and at most 26 hash bits, `new` ends with a valid table in
  -- which every key has the value nil.
  pub new-Represents :
      (asize hbits : ℕ)
      → asize ≤ max_asize
      → hbits ≤ 26
      → Returns (new values asize hbits) (λ t. Represents values t (λ k. nil))
  new-Represents asize hbits le hle =
      (_, new-emptied asize hbits le hle, emptied-Represents asize hbits 255 le hle)

  string-slot : (t : Table V) (k : V) → is_string k ≡ true → array_slot values t k ≡ none
  unfolding array_slot array_key
  string-slot t k h = rw (array_slot, array_key, string-int k h) refl

  -- the body of `set_str`
  abbrev set_found : Table V → V → V → Run (Table V)
  set_found t key x = lookup values t key >>= λ found. elim found [
    | some n ↦ val_write values t n x
    | none ↦ set values t key x
  ]

  set_str-empty :
      (t : Table V) (key x : V)
      → has_hpart values (record t { nomm = 0 }) ≡ false
      → set_str values t key x ≡ set values (record t { nomm = 0 }) key x
  unfolding set_str has_hpart
  set_str-empty t key x h = rw h refl

  set_str-found :
      (t : Table V) (key x : V)
      → has_hpart values (record t { nomm = 0 }) ≡ true
      → set_str values t key x ≡ set_found (record t { nomm = 0 }) key x
  unfolding set_str has_hpart
  set_str-found t key x h = rw h refl

  set_found-Stored :
      (t : Table V) (key x : V)
      → Valid values t
      → IsKey values key
      → is_string key ≡ true
      → population values t < 2 ^ 26
      → has_hpart values t ≡ true
      → Returns (set_found t key x) (λ t'. Stored values t t' key x)
  set_found-Stored t key x v ok_key str few h =
      let (found, run, finds) = lookup_lem values t v key ok_key.not_nil h in
      rw run (settle found finds)
    where
      settle :
          (found : Option ℕ)
          → Found values t v key found
          → Returns
              (elim found [ some n ↦ val_write values t n x | none ↦ set values t key x ])
              (λ t'. Stored values t t' key x)
      settle none absent = set-Stored values t key x v ok_key few
      settle (some n) at_n =
          let taken : Keyed values (node_at values t.node) n =
            subst (λ k. is_nil k ≡ false) (sym at_n) ok_key.not_nil in
          (
            _,
            val_write-run values t v n x taken h,
            Updated-Stored values
                (val_write-Updated values t v n x taken key at_n (string-slot t key str)),
          )

  -- On a valid table of fewer than 2 ^ 26 entries and for a normalized string key `set_str` ends: the table
  -- is valid, the key has the value, and `get` returns for every other key what it did.
  pub set_str-Stored :
      (t : Table V) (key x : V)
      → Valid values t
      → IsKey values key
      → is_string key ≡ true
      → population values t < 2 ^ 26
      → Returns (set_str values t key x) (λ t'. Stored values t t' key x)
  set_str-Stored t key x v ok_key str few =
      let v₀ = nomm-Valid values t 0 v in
      let back = λ (t' : Table V). Stored-nomm values t t' key x v in
      elim (Bool-cases (has_hpart values (record t { nomm = 0 }))) [
        | inr h ↦
            let (t', run, s) = set-Stored values (record t { nomm = 0 }) key x v₀ ok_key few in
            (t', set_str-empty t key x h ∙ run, back t' s)
        | inl h ↦
            let (t', run, s) = set_found-Stored (record t { nomm = 0 }) key x v₀ ok_key str few h in
            (t', set_str-found t key x h ∙ run, back t' s)
      ]
