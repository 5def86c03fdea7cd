-- ===== src/Runtime/Table/Resize.antt =====
-- `resize` of crates/luajit-rs/src/runtime/table.rs: where the new nodes are enough for the entries that go
-- there, it ends with the same contents.
use luajit_rs.Base.{
  ℕ, suc, ◌+◌, ◌^◌, ◌≤◌, ◌≡◌, inl, inr, refl, ◌∙◌, ap, arith, false, [], ltb, if◌then◌else◌, length,
  length-drop, drop, Run, ◌>>=◌, Returns, Bool-cases,
}
use luajit_rs.Runtime.Table.Values.{Values}
use luajit_rs.Runtime.Table.State.{max_asize, Table, has_hpart}
use luajit_rs.Runtime.Table.Find.{get}
use luajit_rs.Runtime.Table.Insert.{dropped, entries, set_all, set_depth, resized, resize}
use luajit_rs.Runtime.Table.Nodes.{keyed}
use luajit_rs.Runtime.Table.Valid.{node_at, Keyed, Valid}
use luajit_rs.Runtime.Table.SetAll.{latest, Entries, costs, costs-congr, Merged-width, set_all_lem}
use luajit_rs.Runtime.Table.Resized.{room, resized_lem}
use luajit_rs.Runtime.Table.Entries.{dropped-Entries, entries-Entries}
use luajit_rs.Runtime.Table.Contents.{length-nil, dropped_of, contents}

module _ {V : Type 0} (values : Values V) where
  open values use {nil, is_nil, normalize_key}

  -- `t'` has the new sizes and the contents of `t`.
  pub record Resizes (t t' : Table V) (asize hbits : ℕ) : Type 0 where
    pub valid : Valid values t'
    pub new_asize : t'.asize ≡ asize
    pub metatable : t'.metatable ≡ t.metatable
    pub width : length t'.node ≡ room hbits
    pub used :
        keyed is_nil t'.node
        ≤ costs values (record t { asize = asize }) (dropped_of values t asize)
          + costs values (record t { asize = asize }) (entries values t.node)
    pub reads : (k : V) → is_nil k ≡ false → normalize_key k ≡ k → get values t' k ≡ get values t k

  -- the entries are set again whether or not a part is empty
  dropped-always :
      (t : Table V) (asize : ℕ)
      → length t.array ≡ t.asize
      → (if ltb asize t.asize then dropped_of values t asize else []) ≡ dropped_of values t asize
  unfolding dropped
  dropped-always t asize e = elim (Bool-cases (ltb asize t.asize)) [
    | inl h ↦ rw h refl
    | inr h ↦
        rw (h, length-nil (drop asize t.array) (ground (arith, length-drop asize t.array))) refl
  ]

  entries-always :
      (t : Table V)
      → Valid values t
      → (if has_hpart values t then entries values t.node else []) ≡ entries values t.node
  unfolding has_hpart entries
  entries-always t v = elim (Bool-cases (ltb 0 t.hmask)) [
    | inl h ↦ rw h refl
    | inr h ↦ rw (h, length-nil t.node (ground (arith, v.node_len))) refl
  ]

  node-Entries : (t : Table V) → Valid values t → Entries values (entries values t.node)
  node-Entries t v = entries-Entries values t.node (λ i live.
      let keyed_i : Keyed values (node_at values t.node) i = ground (arith, v.chains.blank i) in
      (keyed_i, v.normal i keyed_i))

  resize-run :
      (set : Table V → V → V → Run (Table V)) (t : Table V) (asize hbits : ℕ)
      → Valid values t
      → asize ≤ max_asize
      → resize values set t asize hbits ≡ (
          resized values t asize hbits >>= λ t₁.
          set_all values set (dropped_of values t asize) t₁ >>= λ t₂.
          set_all values set (entries values t.node) t₂)
  unfolding resize
  resize-run set t asize hbits v le =
      let fits : ltb max_asize asize ≡ false = ground arith in
      rw (resize, fits, dropped-always t asize v.array_len, entries-always t v) refl

  -- `resize` ends, with the same contents, if there are nodes for the entries outside the array.
  pub resize_lem :
      (fuel : ℕ) (t : Table V) (asize hbits : ℕ)
      → Valid values t
      → asize ≤ max_asize
      → hbits ≤ 26
      → costs values (record t { asize = asize }) (dropped_of values t asize)
          + costs values (record t { asize = asize }) (entries values t.node)
        ≤ room hbits
      → Returns
          (resize values (set_depth values (suc fuel)) t asize hbits)
          (λ t'. Resizes t t' asize hbits)
  resize_lem fuel t asize hbits v le hle enough =
      let sized : Table V = record t { asize = asize } in
      let (t₁, run₁, f) = resized_lem values t asize hbits v hle le in
      let c₁ = costs-congr values sized t₁ (dropped_of values t asize) f.new_asize in
      let small : asize + length (drop asize t.array) ≤ 2 ^ 31 =
        omega (arith, length-drop asize t.array, v.array_len, v.asize_le) in
      let (t₂, run₂, m) =
        set_all_lem values fuel (dropped_of values t asize) t₁ f.valid
          (dropped-Entries values (drop asize t.array) asize small)
          (omega (arith, f.unused, f.width)) in
      let c₂ = costs-congr values sized t₂ (entries values t.node) (m.asize ∙ f.new_asize) in
      let (t₃, run₃, n) =
        set_all_lem values fuel (entries values t.node) t₂ m.valid (node-Entries t v)
          (omega (arith, f.unused, f.width, m.used, Merged-width values f.valid m)) in
      (
        t₃,
        resize-run (set_depth values (suc fuel)) t asize hbits v le
            ∙ rw (run₁, ◌>>=◌, run₂, run₃) refl,
        record {
          valid = n.valid;
          new_asize = n.asize ∙ m.asize ∙ f.new_asize;
          metatable = n.metatable ∙ m.metatable ∙ f.metatable;
          width = Merged-width values m.valid n ∙ Merged-width values f.valid m ∙ f.width;
          used = omega (arith, n.used, m.used, f.unused);
          reads = λ k nk normal_k.
              n.reads k nk normal_k
              ∙ ap (latest values (entries values t.node) k) (m.reads k nk normal_k)
              ∙ contents values t v k nk normal_k t₁ asize hbits le f;
        },
      )
