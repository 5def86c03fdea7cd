-- ===== src/Runtime/Table/Placed.antt =====
-- What a new key's node changes in the contents of the hash part, for the three ways in which
-- crates/luajit-rs/src/runtime/table.rs makes room for it.
use native.Mathlib.Decide.{ℕ_discrete}
use luajit_rs.Base.{ℕ, ◌≡◌, ◌≢◌, ◌⊎◌, inl, inr, arith, true, false, some}
use luajit_rs.Runtime.Table.Values.{Values}
use luajit_rs.Runtime.Table.State.{Node}
use luajit_rs.Runtime.Table.Chains.{Chains, at_main, behind, away}
use luajit_rs.Runtime.Table.Valid.{Keyed, Holds}

module _ {V : Type 0} (values : Values V) where
  open values use {nil, is_nil, is_nil_iff}

  -- `g'` has the new key at the node `n`, with no value yet, and the same values for all others.
  pub record Placed (g g' : ℕ → Node V) (key : V) (n : ℕ) : Type 0 where
    pub at_key : (g' n).key ≡ key
    pub at_val : (g' n).val ≡ nil
    pub keeps : (k v : V) → k ≢ key → is_nil k ≡ false → Holds values g k v → Holds values g' k v
    pub comes :
        (i : ℕ) → Keyed values g' i → ((g' i).key ≡ key) ⊎ ((j : ℕ) × ((g' i).key ≡ (g j).key))
    pub stays : (i : ℕ) → Keyed values g i → Keyed values g' i

  module _ (slot : V → ℕ) (bound : ℕ) (g : ℕ → Node V) (c : Chains is_nil slot bound g) (key : V)
      (keyed_key : is_nil key ≡ false) (absent : (i : ℕ) → (g i).key ≢ key) where
    open c use {distinct, blank, falls}

    pub at_main-Placed :
        is_nil (g (slot key)).val ≡ true → Placed g (at_main g (slot key) key) key (slot key)
    at_main-Placed dead = record {
      at_key = ground arith;
      at_val = ground (arith, is_nil_iff (g (slot key)).val);
      keeps = keep;
      comes = λ i h. elim (ℕ_discrete (slot key) i) [
        | yes e ↦ inl (ground arith)
        | no e ↦ inr (i, ground arith)
      ];
      stays = λ i h. ground arith;
    }
      where
        keep :
            (k v : V)
            → k ≢ key
            → is_nil k ≡ false
            → Holds values g k v
            → Holds values (at_main g (slot key) key) k v
        keep k v ne nk (inr (apart_k, e)) = inr (λ j e'. ground (arith, apart_k j), e)
        keep k v ne nk (inl (i, ki, vi)) = elim (ℕ_discrete (slot key) i) [
          | yes e ↦ inr (λ j e'. ground (arith, distinct i j), ground (arith, is_nil_iff v))
          | no e ↦ inl (i, ground arith, ground arith)
        ]

    module _ (free : ℕ) (fresh : is_nil (g free).key ≡ true)
        (taken : is_nil (g (slot key)).key ≡ false) where
      pub behind-Placed : Placed g (behind g (slot key) key free) key free
      behind-Placed = record {
        at_key = ground arith;
        at_val = ground (arith, blank free, is_nil_iff (g free).val);
        keeps = keep;
        comes = λ i h. elim (ℕ_discrete free i) [
          | yes e ↦ inl (ground arith)
          | no e ↦ inr (i, ground arith)
        ];
        stays = λ i h. ground arith;
      }
        where
          keep :
              (k v : V)
              → k ≢ key
              → is_nil k ≡ false
              → Holds values g k v
              → Holds values (behind g (slot key) key free) k v
          keep k v ne nk (inr (apart_k, e)) = inr (λ j e'. ground (arith, apart_k j), e)
          keep k v ne nk (inl (i, ki, vi)) = inl (i, ground arith, ground arith)

      module _ (pred : ℕ) (before : (g pred).next ≡ some (slot key)) where
        pub away-Placed : Placed g (away g (slot key) key free nil pred) key (slot key)
        away-Placed = record {
          at_key = ground arith;
          at_val = ground arith;
          keeps = keep;
          comes = λ i h. elim (ℕ_discrete (slot key) i) [
            | yes e ↦ inl (ground arith)
            | no e ↦ elim (ℕ_discrete free i) [
              | yes f ↦ inr (slot key, ground arith)
              | no f ↦ inr (i, ground arith)
            ]
          ];
          stays = λ i h. ground arith;
        }
          where
            keep :
                (k v : V)
                → k ≢ key
                → is_nil k ≡ false
                → Holds values g k v
                → Holds values (away g (slot key) key free nil pred) k v
            keep k v ne nk (inr (apart_k, e)) =
                inr (λ j e'. ground (arith, apart_k j, apart_k (slot key)), e)
            keep k v ne nk (inl (i, ki, vi)) = elim (ℕ_discrete (slot key) i) [
              | yes e ↦ inl (free, ground arith, ground arith)
              | no e ↦ inl (i, ground arith, ground arith)
            ]
