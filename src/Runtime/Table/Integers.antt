-- ===== src/Runtime/Table/Integers.antt =====
-- The constructor and the shortcuts of crates/luajit-rs/src/runtime/table.rs for integer and string keys:
-- they give what `get` and `set` give.

use luajit_rs.Base.{
  ℕ, ◌+◌, ◌-◌, ◌^◌, ◌≤◌, ◌<◌, ◌≡◌, inl, inr, refl, sym, ◌∙◌, ap, arith, min, true, not, ◌&&◌, some,
  List, [], ◌∷◌, ltb, leb, ◌==◌, if◌then◌else◌, Bool-cases, length, length-drop, drop, Run, ◌>>=◌,
  Returns,
}
use luajit_rs.Base.Int.{ℤ, pos, negsuc}
use luajit_rs.Runtime.Table.Values.{Values}
use luajit_rs.Runtime.Table.State.{max_asize, Node, Table, fls, array_slot, array_write}
use luajit_rs.Runtime.Table.Find.{get, get_int}
use luajit_rs.Runtime.Table.Insert.{dropped, next_power_of_two, entries, reasize, set_int}
use luajit_rs.Runtime.Table.Valid.{Valid}
use luajit_rs.Runtime.Table.Assign.{get-array, number-array_key, array_write-lem}
use luajit_rs.Runtime.Table.SetAll.{costs}
use luajit_rs.Runtime.Table.Resized.{room}
use luajit_rs.Runtime.Table.Entries.{number-keyed}
use luajit_rs.Runtime.Table.Rehash.{population, costs-le}
use luajit_rs.Runtime.Table.Contents.{length-nil, dropped_of}
use luajit_rs.Runtime.Table.Resize.{resize_lem}
use luajit_rs.Runtime.Table.Log.{pow_mono, fls-bounds, fls-lt}
use luajit_rs.Runtime.Table.Map.{IsKey, Stored, Updated-Stored, set-Stored}

module _ {V : Type 0} (values : Values V) where
  open values use {nil, is_nil, number, normalize_key}

  pub slot-number :
      (t : Table V) (n : ℕ)
      → n < t.asize
      → t.asize ≤ max_asize
      → array_slot values t (number (pos n)) ≡ some n
  unfolding array_slot
  slot-number t n lt le =
      let inside : ltb n t.asize ≡ true = ground arith in
      rw (array_slot, number-array_key values n (omega arith), inside) refl

  -- On a valid table `get_int` returns what `get` returns for the number.
  pub get_int-get :
      (t : Table V) (k : ℤ) → Valid values t → get_int values t k ≡ get values t (number k)
  unfolding get_int
  get_int-get t (negsuc n) v = refl
  get_int-get t (pos n) v = elim (Bool-cases (ltb n t.asize)) [
    | inl e ↦
        rw e
          (sym (get-array values t (number (pos n)) n (slot-number t n (ground arith) v.asize_le)))
    | inr e ↦ rw e refl
  ]

  pub number-IsKey : (n : ℕ) → n < 2 ^ 31 → IsKey values (number (pos n))
  number-IsKey n h = record {
    not_nil = number-keyed values n h;
    normal = values.normalize-number (pos n);
  }

  -- `array[k] = v` is `set` of the number
  array_write-Stored :
      (t : Table V) (n : ℕ) (x : V)
      → Valid values t
      → n < t.asize
      → Returns (array_write values t n x) (λ t'. Stored values t t' (number (pos n)) x)
  array_write-Stored t n x v lt =
      let (t', run, u) =
        array_write-lem values t v (number (pos n)) x n (values.normalize-number (pos n))
          (slot-number t n lt v.asize_le) in
      (t', run, Updated-Stored values u)

  pow-fls : (n : ℕ) → 1 < n → n < 2 ^ 31 → n ≤ 2 ^ (1 + fls (n - 1))
  pow-fls n big small =
      let e : 1 + fls (n - 1) ≡ fls (n - 1) + 1 = omega arith in
      rw e (omega (arith, (fls-bounds (n - 1) (omega arith)).0))

  next_power_of_two-ge : (n : ℕ) → n < 2 ^ 31 → n ≤ next_power_of_two n
  unfolding next_power_of_two
  next_power_of_two-ge n h = elim (Bool-cases (leb n 1)) [
    | inl e ↦ rw e (ground arith)
    | inr e ↦ rw e (pow-fls n (ground arith) h)
  ]

  length-entries : (nds : List (Node V)) → length (entries values nds) ≤ length nds
  unfolding entries
  length-entries [] = omega arith
  length-entries (nd ∷ nds) = ground (arith, length-entries nds)

  dropped-none : (t : Table V) (asize : ℕ) → length t.array ≤ asize → dropped_of values t asize ≡ []
  unfolding dropped
  dropped-none t asize h =
      ap (dropped values asize)
        (length-nil (drop asize t.array) (omega (arith, length-drop asize t.array)))

  -- the hash part that `reasize` keeps
  abbrev kept_bits : Table V → ℕ
  kept_bits t = if ltb 0 t.hmask then fls t.hmask + 1 else 0

  kept_bits-room :
      (t : Table V) → Valid values t → (length t.node ≤ room (kept_bits t)) × (kept_bits t ≤ 26)
  kept_bits-room t v =
      let small : t.hmask < 2 ^ 26 = omega (arith, pow_mono v.hbits 26 v.hbits_le, v.mask) in
      elim (Bool-cases (ltb 0 t.hmask)) [
        | inr e ↦ rw e (ground (arith, v.node_len), omega arith)
        | inl e ↦
            let (up, lo) = fls-bounds t.hmask (omega arith) in
            let bits = fls-lt t.hmask 25 (omega arith) (omega arith) in
            rw e (ground (arith, v.node_len), omega arith)
      ]

  -- what a growth of the array keeps
  pub record Grown (t t' : Table V) (nasize : ℕ) : Type 0 where
    pub valid : Valid values t'
    pub covers : nasize < t'.asize
    pub metatable : t'.metatable ≡ t.metatable
    pub reads : (k : V) → IsKey values k → get values t' k ≡ get values t k

  -- On a valid table, for an index that the array lacks and that is below the largest size, `reasize` ends:
  -- the array covers the index, the table is valid, and `get` returns for every key what it did.
  pub reasize_lem :
      (t : Table V) (nasize : ℕ)
      → Valid values t
      → t.asize ≤ nasize
      → nasize < max_asize
      → Returns (reasize values t nasize) (λ t'. Grown t t' nasize)
  unfolding reasize
  reasize_lem t nasize v le lt =
      let asize = min (next_power_of_two (nasize + 1)) max_asize in
      let covers : nasize < asize = ground (arith, next_power_of_two-ge (nasize + 1)) in
      let (kept, bits) = kept_bits-room t v in
      let none_dropped : costs values (record t { asize = asize }) (dropped_of values t asize) ≡ 0 =
        ap (costs values (record t { asize = asize }))
          (dropped-none t asize (omega (arith, v.array_len))) in
      let few = costs-le values (record t { asize = asize }) (entries values t.node) in
      let (t', run, z) =
        resize_lem values 1 t asize (kept_bits t) v (omega arith) bits
          (omega (arith, length-entries t.node)) in
      (
        t',
        run,
        record {
          valid = z.valid;
          covers = rw z.new_asize covers;
          metatable = z.metatable;
          reads = λ k ok_k. z.reads k ok_k.not_nil ok_k.normal;
        },
      )

  -- On a valid table of fewer than 2 ^ 26 entries, for an integer whose number is a key, `set_int` ends, also
  -- where it grows the array or rehashes: the table is valid, the number has the value, and `get` returns
  -- for every other key what it did.
  pub set_int-Stored :
      (t : Table V) (k : ℤ) (x : V)
      → Valid values t
      → IsKey values (number k)
      → population values t < 2 ^ 26
      → Returns (set_int values t k x) (λ t'. Stored values t t' (number k) x)
  unfolding set_int
  set_int-Stored t (negsuc n) x v ok_k few = set-Stored values t (number (negsuc n)) x v ok_k few
  set_int-Stored t (pos n) x v ok_k few = elim (Bool-cases (ltb 0 n && ltb n t.asize)) [
    | inl e ↦ rw e (array_write-Stored t n x v (ground arith))
    | inr e ↦ elim (Bool-cases (ltb 0 n && ltb n max_asize && not (is_nil x) && n == t.asize)) [
      | inr f ↦ rw (e, f) (set-Stored values t (number (pos n)) x v ok_k few)
      | inl f ↦
          let (t₁, run, g) = reasize_lem t n v (ground arith) (ground arith) in
          let (t', run', s) = array_write-Stored t₁ n x g.valid g.covers in
          rw (e, f)
            (
              t',
              ap (λ (r : Run (Table V)). r >>= λ t₂. array_write values t₂ n x) run ∙ run',
              record {
                valid = s.valid;
                metatable = s.metatable ∙ g.metatable;
                at_key = s.at_key;
                others = λ j ok_j ne. s.others j ok_j ne ∙ g.reads j ok_j;
              },
            )
    ]
  ]
