-- ===== src/Runtime/Table/Search.antt =====
-- The searches of crates/luajit-rs/src/runtime/table.rs for a free node and for the node before one.

use luajit_rs.Base.{
  ℕ, zero, suc, ◌≤◌, ◌<◌, ◌≡◌, ◌≢◌, inl, inr, refl, sym, ◌∙◌, ap, subst, arith, true, Option, none,
  some, ◌==◌, if◌then◌else◌, length, Run, ok, panic, ◌>>=◌, fun_ext, Returns, Option-cases,
  Bool-cases,
}
use luajit_rs.Runtime.Table.Values.{Values}
use luajit_rs.Runtime.Table.State.{Node, Table, has_hpart, node_slot}
use luajit_rs.Runtime.Table.Insert.{free_node, find_pred}
use luajit_rs.Runtime.Table.Chains.{Reach, Reach-last, Reach-next}
use luajit_rs.Runtime.Table.Valid.{node_at, Keyed, Valid, node_slot-at, Keyed-lt}

module _ {V : Type 0} (values : Values V) where
  open values use {nil, is_nil, normalize_key, is_nil_iff}

  -- what the search below `top` finds
  abbrev pub FreeBelow : (ℕ → Node V) → ℕ → Option ℕ → Type 0
  FreeBelow g top none = (i : ℕ) → i < top → Keyed values g i
  FreeBelow g top (some free) =
      (free < top)
      × (is_nil (g free).key ≡ true)
      × ((i : ℕ) → free < i → i < top → Keyed values g i)

  module _ (t : Table V) (v : Valid values t) (hpart : has_hpart values t ≡ true) where
    open v use {hbits, mask, node_len, chains, normal, outside, freetop_le, full_above}
    open chains use {next_keyed, reach, rank, falls, rank_le}

    extend :
        (top : ℕ) (o : Option ℕ)
        → Keyed values (node_at values t.node) top
        → FreeBelow (node_at values t.node) top o
        → FreeBelow (node_at values t.node) (suc top) o
    extend top none h below = λ i lt. elim (Bool-cases (i == top)) [
      | inl e ↦ subst (λ (j : ℕ). Keyed values (node_at values t.node) j) (sym (ground arith)) h
      | inr e ↦ below i (ground arith)
    ]
    extend top (some free) h (lt, blank, above) = (
      omega arith,
      blank,
      λ i up lt'. elim (Bool-cases (i == top)) [
        | inl e ↦ subst (λ (j : ℕ). Keyed values (node_at values t.node) j) (sym (ground arith)) h
        | inr e ↦ above i up (ground arith)
      ],
    )

    pub free_node_lem :
        (top : ℕ)
        → top ≤ length t.node
        → Returns (free_node values t top) (FreeBelow (node_at values t.node) top)
    unfolding free_node
    free_node_lem zero le = (none, refl, λ i lt. elim lt [ ])
    free_node_lem (suc top) le =
        rw (node_slot-at values t v top hpart (omega arith))
          (elim (Bool-cases (is_nil (node_at values t.node top).key)) [
            | inl e ↦ rw e (some top, refl, (omega arith, e, λ i up lt. absurd (omega arith)))
            | inr e ↦
                let (o, run, below) = free_node_lem top (omega arith) in
                rw e (o, run, extend top o e below)
          ])

    pub find_pred_lem :
        (n fuel pred : ℕ)
        → pred < length t.node
        → rank pred < fuel
        → pred ≢ n
        → Reach (node_at values t.node) pred n
        → Returns (find_pred values fuel t pred n) (λ p. (node_at values t.node p).next ≡ some n)
    unfolding find_pred
    find_pred_lem n zero pred lt le ne r = elim le [ ]
    find_pred_lem n (suc fuel) pred lt le ne r =
        let read = node_slot-at values t v pred hpart lt in
        elim (Option-cases (node_at values t.node pred).next) [
          | inl e ↦ absurd (ne (Reach-last e r))
          | inr (m, step) ↦ elim (Reach-next step r) [
            | inl e ↦ absurd (ne e)
            | inr r' ↦ elim (Bool-cases (m == n)) [
              | inl e ↦ rw (read, ◌>>=◌, step, e) (pred, refl, step ∙ ap some (ground arith))
              | inr e ↦
                  let near = Keyed-lt values t v m (next_keyed pred m step) in
                  let (p, run, before) =
                    find_pred_lem n fuel m near (ground (arith, falls pred m)) (λ q. ground arith)
                      r' in
                  rw (read, ◌>>=◌, step, e) (p, run, before)
            ]
          ]
        ]

  -- the search for the node before reads the nodes only
  pub find_pred_congr :
      (t : Table V) (fuel free pred n : ℕ)
      → find_pred values fuel (record t { nomm = 0; freetop = free }) pred n
        ≡ find_pred values fuel t pred n
  unfolding find_pred node_slot has_hpart
  find_pred_congr t zero free pred n = refl
  find_pred_congr t (suc fuel) free pred n =
      ap (λ k. node_slot values t pred >>= k)
        (fun_ext (λ nd. step (λ m. find_pred_congr t fuel free m n) nd.next))
    where
      step :
          ((m : ℕ)
            → find_pred values fuel (record t { nomm = 0; freetop = free }) m n
              ≡ find_pred values fuel t m n)
          → (o : Option ℕ)
          → elim o [
            | none ↦ panic
            | some m ↦
                if m == n
                then ok pred
                else find_pred values fuel (record t { nomm = 0; freetop = free }) m n
          ]
            ≡ elim o [
              | none ↦ panic
              | some m ↦ if m == n then ok pred else find_pred values fuel t m n
            ]
      step rest none = refl
      step rest (some m) = ap (λ (r : Run ℕ). if m == n then ok pred else r) (rest m)
