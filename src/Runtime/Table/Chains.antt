-- ===== src/Runtime/Table/Chains.antt =====
-- The chains of the hash part of crates/luajit-rs/src/runtime/table.rs: what holds of the nodes
-- between operations, with a node read by its index.
use luajit_rs.Base.{
  ℕ, ◌≤◌, ◌<◌, ◌≡◌, ◌⊎◌, inl, inr, refl, sym, subst, arith, Bool, true, false, none, some, ◌==◌,
  if◌then◌else◌,
}
use luajit_rs.Runtime.Table.State.{Node}

module _ {V : Type 0} where
  abbrev pub write : (ℕ → Node V) → ℕ → Node V → ℕ → Node V
  write g i x j = if i == j then x else g j

  -- The new key takes over the node of its main position `n`.
  abbrev pub at_main : (ℕ → Node V) → ℕ → V → ℕ → Node V
  at_main g n key = write g n (record (g n) { key = key })

  -- The new key is put into the free node, behind `n`.
  abbrev pub behind : (ℕ → Node V) → ℕ → V → ℕ → ℕ → Node V
  behind g n key free =
      write (write g free (record (g free) { next = (g n).next; key = key })) n
        (record (g n) { next = some free })

  -- The node `n`, which follows `pred`, moves to the free node.
  abbrev pub away : (ℕ → Node V) → ℕ → V → ℕ → V → ℕ → ℕ → Node V
  away g n key free nil pred =
      write (write (write g pred (record (g pred) { next = some free })) free (g n)) n
        (record { val = nil; key = key; next = none })

  -- `b` is on the chain that starts at `a`.
  pub data Reach (g : ℕ → Node V) : ℕ → ℕ → Type 0 where
    here : {a : ℕ} → Reach g a a
    there : {a b c : ℕ} → (g a).next ≡ some b → Reach g b c → Reach g a c

  pub Reach-trans : {g : ℕ → Node V} {a b c : ℕ} → Reach g a b → Reach g b c → Reach g a c
  Reach-trans here q = q
  Reach-trans (there e p) q = there e (Reach-trans p q)

  pub Reach-last : {g : ℕ → Node V} {a b : ℕ} → (g a).next ≡ none → Reach g a b → a ≡ b
  Reach-last h here = refl
  Reach-last h (there e p) = cc

  pub Reach-next :
      {g : ℕ → Node V} {a b m : ℕ} → (g a).next ≡ some m → Reach g a b → (a ≡ b) ⊎ Reach g m b
  Reach-next h here = inl refl
  Reach-next {g = g} {b = b} {m = m} h (there e p) =
      inr (subst (λ (j : ℕ). Reach g j b) (ground arith) p)

  -- `slot` gives the main position of a key; chains have at most `bound` links.
  pub record Chains (is_nil : V → Bool) (slot : V → ℕ) (bound : ℕ) (g : ℕ → Node V) : Type 0 where
    pub next_keyed : (i j : ℕ) → (g i).next ≡ some j → is_nil (g j).key ≡ false
    pub unique : (i j k : ℕ) → (g i).next ≡ some k → (g j).next ≡ some k → i ≡ j
    pub reach : (i : ℕ) → is_nil (g i).key ≡ false → Reach g (slot (g i).key) i
    pub main :
        (i : ℕ)
        → is_nil (g i).key ≡ false
        → (is_nil (g (slot (g i).key)).key ≡ false)
          × (slot (g (slot (g i).key)).key ≡ slot (g i).key)
    pub distinct : (i j : ℕ) → is_nil (g i).key ≡ false → (g i).key ≡ (g j).key → i ≡ j
    pub blank : (i : ℕ) → is_nil (g i).key ≡ true → ((g i).next ≡ none) × (is_nil (g i).val ≡ true)
    pub rank : ℕ → ℕ
    pub falls : (i j : ℕ) → (g i).next ≡ some j → rank j < rank i
    pub rank_le : (i : ℕ) → rank i ≤ bound

module _ {V : Type 0} {is_nil : V → Bool} {slot : V → ℕ} {bound : ℕ} {g : ℕ → Node V}
    (c : Chains is_nil slot bound g) where
  open c use {next_keyed, unique, reach, main, distinct, blank, rank, falls, rank_le}

  pub Chains-weaken : {wide : ℕ} → bound ≤ wide → Chains is_nil slot wide g
  Chains-weaken h = record {
    next_keyed = next_keyed;
    unique = unique;
    reach = reach;
    main = main;
    distinct = distinct;
    blank = blank;
    rank = rank;
    falls = falls;
    rank_le = λ i. ground (arith, rank_le i);
  }

  module _ (n : ℕ) (v : V) (taken : is_nil (g n).key ≡ false) where
    abbrev valued : ℕ → Node V
    valued = write g n (record (g n) { val = v })

    Reach-valued : {a b : ℕ} → Reach g a b → Reach valued a b
    Reach-valued here = here
    Reach-valued (there {a = a} e p) = there (ground arith) (Reach-valued p)

    Reach-valued_key :
        (i : ℕ) → is_nil (valued i).key ≡ false → Reach valued (slot (valued i).key) i
    Reach-valued_key i h =
        let same : (valued i).key ≡ (g i).key = ground arith in
        subst (λ k. Reach valued (slot k) i) (sym same) (Reach-valued (reach i (ground arith)))

    -- A value written to a node with a key changes no chain.
    pub Chains-val : Chains is_nil slot bound (write g n (record (g n) { val = v }))
    Chains-val = record {
      next_keyed = λ i j e. ground (arith, next_keyed i j);
      unique = λ i j k e f. ground (arith, unique i j k);
      reach = Reach-valued_key;
      main = λ i h. ground (arith, main i);
      distinct = λ i j h e. ground (arith, distinct i j);
      blank = λ i h. ground (arith, blank i);
      rank = rank;
      falls = λ i j e. ground (arith, falls i j);
      rank_le = rank_le;
    }
