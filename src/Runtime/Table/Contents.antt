-- ===== src/Runtime/Table/Contents.antt =====
-- What lookups give in a table of crates/luajit-rs/src/runtime/table.rs, before and after `resize` sets the
-- entries again.
use luajit_rs.Base.{
  ℕ, zero, suc, ◌+◌, ◌-◌, ◌≤◌, ◌<◌, ◌≡◌, ◌⊎◌, inl, inr, refl, sym, ◌∙◌, ap, subst, arith, Bool,
  true, false, none, some, List, [], ◌∷◌, ltb, if◌then◌else◌, length, length-drop, get_or, drop,
  Run, ok, Bool-cases, Option-cases,
}
use luajit_rs.Runtime.Table.Values.{Values}
use luajit_rs.Runtime.Table.State.{max_asize, Table, empty_node, array_key, array_slot}
use luajit_rs.Runtime.Table.Find.{get}
use luajit_rs.Runtime.Table.Insert.{dropped, entries}
use luajit_rs.Runtime.Table.Nodes.{at-get_or, get_or-ge, keyed, keyed-pos}
use luajit_rs.Runtime.Table.Valid.{node_at, Keyed, Holds, Valid, get-nodes, get-Holds, Keyed-lt}
use luajit_rs.Runtime.Table.Assign.{
  get-array, array_key-number, number-array_key, array_slot-some, array_slot-none,
}
use luajit_rs.Runtime.Table.SetAll.{latest}
use luajit_rs.Runtime.Table.Resized.{Fresh}
use luajit_rs.Runtime.Table.Entries.{dropped-skip, dropped-at, entries-absent, entries-at}

pub length-nil {ℓ} : {A : Type ℓ} (xs : List A) → length xs ≡ 0 → xs ≡ []
length-nil [] h = refl
length-nil (x ∷ xs) h = absurd (omega arith)

module _ {V : Type 0} (values : Values V) where
  open values use {nil, is_nil, number, normalize_key, is_nil_iff}

  abbrev pub element : Table V → ℕ → V
  element t i = get_or t.array i nil

  pub get-element :
      (t : Table V) (k : V) (i : ℕ)
      → Valid values t
      → array_slot values t k ≡ some i
      → get values t k ≡ ok (element t i)
  get-element t k i v h =
      let (e, lt) = array_slot-some values t k i h in
      get-array values t k i h ∙ at-get_or t.array i nil (omega (arith, v.array_len))

  -- a table whose nodes are empty has only the array
  pub get-empty :
      (t : Table V) (k : V)
      → Valid values t
      → keyed is_nil t.node ≡ 0
      → is_nil k ≡ false
      → array_slot values t k ≡ none
      → get values t k ≡ ok nil
  get-empty t k v unused nk out = get-Holds values t v k nil nk out (
      inr (
        λ i e.
            let keyed_i : Keyed values (node_at values t.node) i =
              subst (λ x. is_nil x ≡ false) (sym e) nk in
            omega (
              arith,
              keyed-pos is_nil t.node i (empty_node values) (Keyed-lt values t v i keyed_i) keyed_i,
            ),
        refl,
      ))

  -- the entries that `resize` sets again
  abbrev pub dropped_of : Table V → ℕ → List (V × V)
  dropped_of t asize = dropped values asize (drop asize t.array)

  get_or-drop : (xs : List V) (n i : ℕ) → get_or (drop n xs) i nil ≡ get_or xs (n + i) nil
  get_or-drop xs zero i = let e : i ≡ 0 + i = omega arith in ap (λ (j : ℕ). get_or xs j nil) e
  get_or-drop [] (suc n) i = refl
  get_or-drop (x ∷ xs) (suc n) i =
      let e : suc (n + i) ≡ suc n + i = omega arith in
      get_or-drop xs n i ∙ ap (λ (j : ℕ). get_or (x ∷ xs) j nil) e

  module _ (t : Table V) (v : Valid values t) (k : V) (nk : is_nil k ≡ false)
      (normal_k : normalize_key k ≡ k) where
    -- the nodes' entries give what the nodes hold
    entries-none :
        (i : ℕ) (d : Run V)
        → array_slot values t k ≡ some i
        → latest values (entries values t.node) k d ≡ d
    entries-none i d h =
        let (e, lt) = array_slot-some values t k i h in
        entries-absent values t.node k d (λ j up q.
          let keyed_j : Keyed values (node_at values t.node) j =
            subst (λ x. is_nil x ≡ false) (sym q) nk in
          absurd (omega (arith, v.outside j keyed_j i (ap (array_key values) q ∙ e))))

    entries-get :
        array_slot values t k ≡ none
        → latest values (entries values t.node) k (ok nil) ≡ get values t k
    entries-get out = let (w, run, held) = get-nodes values t v k nk out in settle w held ∙ sym run
      where
        settle :
            (w : V)
            → Holds values (node_at values t.node) k w
            → latest values (entries values t.node) k (ok nil) ≡ ok w
        settle w (inr (apart_k, e)) =
            entries-absent values t.node k (ok nil) (λ j up q. absurd (apart_k j q)) ∙ ap ok (sym e)
        settle w (inl (i, ki, vi)) =
            let keyed_i : Keyed values (node_at values t.node) i =
              subst (λ x. is_nil x ≡ false) (sym ki) nk in
            let same = λ (j : ℕ) (q : (node_at values t.node j).key ≡ k).
              v.chains.distinct i j keyed_i (ki ∙ sym q) in
            elim (Bool-cases (is_nil (node_at values t.node i).val)) [
              | inl dead ↦
                  entries-absent values t.node k (ok nil) (λ j up q.
                    subst (λ (m : ℕ). is_nil (node_at values t.node m).val ≡ true) (same j q) dead)
                  ∙ ap ok (sym ((is_nil_iff _).0 dead) ∙ vi)
              | inr live ↦
                  entries-at values t.node i k (ok nil) (Keyed-lt values t v i keyed_i) ki live
                    (λ j up q. sym (same j q))
                  ∙ ap ok vi
            ]

    module _ (t₁ : Table V) (asize hbits : ℕ) (le : asize ≤ max_asize)
        (fresh : Fresh values t t₁ asize hbits) where
      slot-fresh :
          (i : ℕ)
          → array_key values k ≡ some i
          → array_slot values t₁ k ≡ (if ltb i asize then some i else none)
      unfolding array_slot
      slot-fresh i e = rw (array_slot, e, fresh.new_asize) refl

      slot-other : array_key values k ≡ none → array_slot values t₁ k ≡ none
      unfolding array_slot
      slot-other e = rw (array_slot, e) refl

      dropped-other :
          (d : Run V)
          → ((i : ℕ) → array_key values k ≡ some i → (i < asize) ⊎ (t.asize ≤ i))
          → latest values (dropped_of t asize) k d ≡ d
      dropped-other d h =
          let size = length-drop asize t.array in
          dropped-skip values (drop asize t.array) asize k d (λ j lo up q.
            let e : array_key values k ≡ some j =
              ap (array_key values) q
              ∙ number-array_key values j (omega (arith, v.array_len, v.asize_le)) in
            elim (h j e) [ inl lt ↦ omega arith | inr ge ↦ omega (arith, v.array_len) ])

      fresh-inside :
          (i : ℕ)
          → array_key values k ≡ some i
          → ltb i asize ≡ true
          → get values t₁ k ≡ ok (element t i)
      fresh-inside i e lo =
          get-element t₁ k i fresh.valid
            (slot-fresh i e ∙ ap (λ (b : Bool). if b then some i else none) lo)
          ∙ ap ok (fresh.elements i (ground arith))

      fresh-outside :
          (i : ℕ) → array_key values k ≡ some i → ltb i asize ≡ false → get values t₁ k ≡ ok nil
      fresh-outside i e hi =
          get-empty t₁ k fresh.valid fresh.unused nk
            (slot-fresh i e ∙ ap (λ (b : Bool). if b then some i else none) hi)

      -- a key that the old array has no slot for has no value yet
      fresh-none : array_slot values t k ≡ none → get values t₁ k ≡ ok nil
      fresh-none out = elim (Option-cases (array_key values k)) [
        | inl e ↦ get-empty t₁ k fresh.valid fresh.unused nk (slot-other e)
        | inr (i, e) ↦ elim (Bool-cases (ltb i asize)) [
          | inl lo ↦
              let over : t.asize ≤ i = array_slot-none values t k out i e in
              fresh-inside i e lo ∙ ap ok (get_or-ge t.array i nil (omega (arith, v.array_len)))
          | inr hi ↦ fresh-outside i e hi
        ]
      ]

      -- a key whose slot the smaller array lacks is among the dropped values
      dropped-here :
          (i : ℕ)
          → array_slot values t k ≡ some i
          → asize ≤ i
          → latest values (dropped_of t asize) k (ok nil) ≡ ok (element t i)
      dropped-here i h over =
          let (e, lt) = array_slot-some values t k i h in
          let size = length-drop asize t.array in
          let there : get_or (drop asize t.array) (i - asize) nil ≡ element t i =
            get_or-drop t.array asize (i - asize)
            ∙ ap (λ (j : ℕ). element t j) (let q : asize + (i - asize) ≡ i = omega arith in q) in
          let at_i =
            dropped-at values (drop asize t.array) asize i (ok nil)
              (omega (arith, v.array_len, v.asize_le)) over (omega (arith, v.array_len)) in
          ap (λ j. latest values (dropped_of t asize) j (ok nil))
            (sym (array_key-number values k i e normal_k))
          ∙ at_i
          ∙ ap (λ x. if is_nil x then ok nil else ok x) there
          ∙ elim (Bool-cases (is_nil (element t i))) [
            | inl f ↦ rw f (ap ok (sym ((is_nil_iff (element t i)).0 f)))
            | inr f ↦ rw f refl
          ]

      -- The entries that are set again give back the contents.
      pub contents :
          latest values
            (entries values t.node)
            k
            (latest values (dropped_of t asize) k (get values t₁ k))
          ≡ get values t k
      contents = elim (Option-cases (array_slot values t k)) [
        | inl out ↦
            ap (latest values (entries values t.node) k) (
              dropped-other (get values t₁ k) (λ i e. inr (array_slot-none values t k out i e))
              ∙ fresh-none out)
            ∙ entries-get out
        | inr (i, h) ↦
            let (e, lt) = array_slot-some values t k i h in
            entries-none i _ h
            ∙ elim (Bool-cases (ltb i asize)) [
              | inl lo ↦
                  dropped-other (get values t₁ k)
                    (λ j e'. inl (let same : some i ≡ some j = sym e ∙ e' in ground arith))
                  ∙ fresh-inside i e lo
              | inr hi ↦
                  ap (latest values (dropped_of t asize) k) (fresh-outside i e hi)
                  ∙ dropped-here i h (ground arith)
            ]
            ∙ sym (get-element t k i v h)
      ]
