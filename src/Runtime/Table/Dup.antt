-- ===== src/Runtime/Table/Dup.antt =====
-- The copy of a template table of crates/luajit-rs/src/runtime/table.rs, `dup`.
use luajit_rs.Base.{
  ℕ, zero, suc, ◌-◌, ◌≡◌, inl, inr, refl, sym, ◌∙◌, ap, subst, fun_ext, arith, false, none, List,
  [], ◌∷◌, Bool-cases, Option-cases, length, get_or, ok,
}
use luajit_rs.Runtime.Table.Values.{Values}
use luajit_rs.Runtime.Table.State.{
  Node, Table, empty_node, has_hpart, unmark, unmark_all, unmark_nodes, dup, array_slot,
}
use luajit_rs.Runtime.Table.Find.{get}
use luajit_rs.Runtime.Table.Chains.{Reach, here, there, Chains}
use luajit_rs.Runtime.Table.Nodes.{keyed}
use luajit_rs.Runtime.Table.Valid.{node_at, slot_of, Outside, Holds, Valid, get-nodes, get-Holds}
use luajit_rs.Runtime.Table.Assign.{array_slot-congr}
use luajit_rs.Runtime.Table.Contents.{length-nil, get-element}
use luajit_rs.Runtime.Table.Map.{Represents}

module _ {V : Type 0} (values : Values V) where
  open values use {nil, is_nil, is_nil_iff}

  -- A function of the value of every node changes no chain, if it keeps nil.
  module _ (f : V → V) (f-nil : f nil ≡ nil) where
    abbrev over : (ℕ → Node V) → ℕ → Node V
    over g i = record (g i) { val = f (g i).val }

    Reach-over : {g : ℕ → Node V} {a b : ℕ} → Reach g a b → Reach (over g) a b
    Reach-over here = here
    Reach-over (there e p) = there e (Reach-over p)

    Chains-over :
        {slot : V → ℕ} {bound : ℕ} {g : ℕ → Node V}
        → Chains is_nil slot bound g
        → Chains is_nil slot bound (over g)
    Chains-over {g = g} c = record {
      next_keyed = c.next_keyed;
      unique = c.unique;
      reach = λ i h. Reach-over (c.reach i h);
      main = c.main;
      distinct = c.distinct;
      blank = λ i h.
          let (last, dead) = c.blank i h in
          (last, (is_nil_iff (f (g i).val)).1 (ap f ((is_nil_iff (g i).val).0 dead) ∙ f-nil));
      rank = c.rank;
      falls = c.falls;
      rank_le = c.rank_le;
    }

  unmark-nil : unmark values nil ≡ nil
  unfolding unmark
  unmark-nil = ground arith

  length-unmark_all : (vs : List V) → length (unmark_all values vs) ≡ length vs
  unfolding unmark_all
  length-unmark_all [] = refl
  length-unmark_all (v ∷ vs) = ap suc (length-unmark_all vs)

  get_or-unmark_all :
      (vs : List V) (i : ℕ) → get_or (unmark_all values vs) i nil ≡ unmark values (get_or vs i nil)
  unfolding unmark_all
  get_or-unmark_all [] i = sym unmark-nil
  get_or-unmark_all (v ∷ vs) zero = refl
  get_or-unmark_all (v ∷ vs) (suc i) = get_or-unmark_all vs i

  length-unmark_nodes : (nds : List (Node V)) → length (unmark_nodes values nds) ≡ length nds
  unfolding unmark_nodes
  length-unmark_nodes [] = refl
  length-unmark_nodes (nd ∷ nds) = ap suc (length-unmark_nodes nds)

  keyed-unmark_nodes :
      (nds : List (Node V)) → keyed is_nil (unmark_nodes values nds) ≡ keyed is_nil nds
  unfolding unmark_nodes
  keyed-unmark_nodes [] = refl
  keyed-unmark_nodes (nd ∷ nds) = rw (keyed-unmark_nodes nds) refl

  node_at-unmark_nodes :
      (nds : List (Node V)) (i : ℕ)
      → node_at values (unmark_nodes values nds) i
        ≡ over (unmark values) unmark-nil (node_at values nds) i
  unfolding unmark_nodes
  node_at-unmark_nodes [] i =
      ap (λ (x : V). record (empty_node values) { val = x }) (sym unmark-nil)
  node_at-unmark_nodes (nd ∷ nds) zero = refl
  node_at-unmark_nodes (nd ∷ nds) (suc i) = node_at-unmark_nodes nds i

  -- `dup` where a table without a hash part has no nodes
  abbrev copied : Table V → Table V
  copied t = record t {
    array = unmark_all values t.array;
    node = unmark_nodes values t.node;
    nomm = 0;
    metatable = none;
  }

  dup-copied : (t : Table V) → Valid values t → dup values t ≡ copied t
  unfolding dup unmark_nodes has_hpart
  dup-copied t v = elim (Bool-cases (has_hpart values t)) [
    | inl h ↦ rw h refl
    | inr h ↦
        let no_nodes : t.node ≡ [] = length-nil t.node (ground (arith, v.node_len)) in
        rw (h, no_nodes) refl
  ]

  module _ (t : Table V) (v : Valid values t) where
    nodes-copied :
        node_at values (copied t).node ≡ over (unmark values) unmark-nil (node_at values t.node)
    nodes-copied = fun_ext (node_at-unmark_nodes t.node)

    key-copied : (i : ℕ) → (node_at values (copied t).node i).key ≡ (node_at values t.node i).key
    key-copied i = ap (λ (nd : Node V). nd.key) (node_at-unmark_nodes t.node i)

    copied-Valid : Valid values (copied t)
    copied-Valid = record {
      array_len = length-unmark_all t.array ∙ v.array_len;
      asize_le = v.asize_le;
      hbits = v.hbits;
      hbits_le = v.hbits_le;
      mask = v.mask;
      node_len = length-unmark_nodes t.node ∙ v.node_len;
      chains =
          subst
            (λ b. Chains is_nil (slot_of values t.hmask) (b - 1) (node_at values (copied t).node))
            (sym (keyed-unmark_nodes t.node))
            (subst (λ g. Chains is_nil (slot_of values t.hmask) (keyed is_nil t.node - 1) g)
              (sym nodes-copied) (Chains-over (unmark values) unmark-nil v.chains));
      normal = λ i h.
          subst (λ k. values.normalize_key k ≡ k) (sym (key-copied i))
            (v.normal i (subst (λ k. is_nil k ≡ false) (key-copied i) h));
      outside = λ i h.
          subst (λ k. Outside values t.asize k) (sym (key-copied i))
            (v.outside i (subst (λ k. is_nil k ≡ false) (key-copied i) h));
      freetop_le = rw (length-unmark_nodes t.node) v.freetop_le;
      full_above = λ i le lt.
          subst (λ k. is_nil k ≡ false) (sym (key-copied i))
            (v.full_above i le (omega (arith, length-unmark_nodes t.node)));
    }

    Holds-copied :
        (k w : V)
        → Holds values (node_at values t.node) k w
        → Holds values (node_at values (copied t).node) k (unmark values w)
    Holds-copied k w (inl (i, ki, vi)) = inl (
      i,
      key-copied i ∙ ki,
      ap (λ (nd : Node V). nd.val) (node_at-unmark_nodes t.node i) ∙ ap (unmark values) vi,
    )
    Holds-copied k w (inr (out, e)) =
        inr (λ i e'. out i (sym (key-copied i) ∙ e'), ap (unmark values) e ∙ unmark-nil)

    copied-get :
        (k w : V)
        → is_nil k ≡ false
        → get values t k ≡ ok w
        → get values (copied t) k ≡ ok (unmark values w)
    copied-get k w nk h =
        let same = array_slot-congr values t (copied t) k refl in
        elim (Option-cases (array_slot values t k)) [
          | inl out ↦
              let (x, run, held) = get-nodes values t v k nk out in
              let e : w ≡ x = ok-injective w x (sym h ∙ run) in
              get-Holds values (copied t) copied-Valid k (unmark values w) nk (same ∙ out)
                (Holds-copied k w (subst (Holds values (node_at values t.node) k) (sym e) held))
          | inr (i, at_i) ↦
              let e =
                ok-injective w (get_or t.array i nil) (sym h ∙ get-element values t k i v at_i) in
              get-element values (copied t) k i copied-Valid (same ∙ at_i)
              ∙ ap ok (get_or-unmark_all t.array i ∙ ap (unmark values) (sym e))
        ]
      where
        ok-injective : (x y : V) → ok x ≡ ok y → x ≡ y
        ok-injective x y q = cc

  -- The copy of a table that holds a map holds, for each key, the value of the map, or nil where that is
  -- a table.
  pub dup-Represents :
      (t : Table V) (m : V → V)
      → Represents values t m
      → Represents values (dup values t) (λ k. unmark values (m k))
  dup-Represents t m r =
      subst (λ t'. Represents values t' (λ k. unmark values (m k))) (sym (dup-copied t r.valid))
        (record {
          valid = copied-Valid t r.valid;
          reads = λ k ok_k. copied-get t r.valid k (m k) ok_k.not_nil (r.reads k ok_k);
        })
