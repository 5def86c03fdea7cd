-- ===== src/Runtime/Table/Brent.antt =====
-- The three ways in which `try_new_key` of crates/luajit-rs/src/runtime/table.rs puts a new key into
-- the chains of the hash part.
use luajit_rs.Base.{
  ℕ, suc, ◌+◌, ◌≡◌, ◌≢◌, sym, ◌∙◌, subst, arith, Bool, true, false, some, ltb, ◌==◌, if◌then◌else◌,
}
use native.Mathlib.Decide.{ℕ_discrete}
use luajit_rs.Runtime.Table.State.{Node}
use luajit_rs.Runtime.Table.Chains.{Chains, Reach, here, there, at_main, behind, away}

module _ {V : Type 0} {is_nil : V → Bool} {slot : V → ℕ} {bound : ℕ} {g : ℕ → Node V}
    (c : Chains is_nil slot bound g) (key : V) (keyed : is_nil key ≡ false)
    (absent : (i : ℕ) → (g i).key ≢ key) where
  open c use {next_keyed, unique, reach, main, distinct, blank, rank, falls, rank_le}

  abbrev g₁ : ℕ → Node V
  g₁ = at_main g (slot key) key

  next_take : (i : ℕ) → (g₁ i).next ≡ (g i).next
  next_take i = ground arith

  Reach-take : {a b : ℕ} → Reach g a b → Reach g₁ a b
  Reach-take here = here
  Reach-take (there {a = a} e p) = there (next_take a ∙ e) (Reach-take p)

  Reach-take_key : (i : ℕ) → is_nil (g₁ i).key ≡ false → Reach g₁ (slot (g₁ i).key) i
  Reach-take_key i h = elim (ℕ_discrete (slot key) i) [
    | yes e ↦
        let same : slot (g₁ i).key ≡ i = ground arith in
        subst (λ (s : ℕ). Reach g₁ s i) (sym same) here
    | no e ↦
        let same : (g₁ i).key ≡ (g i).key = ground arith in
        subst (λ k. Reach g₁ (slot k) i) (sym same) (Reach-take (reach i (ground arith)))
  ]

  -- The main position of the new key holds no value.
  pub take_main : Chains is_nil slot bound (at_main g (slot key) key)
  take_main = record {
    next_keyed = λ i j e. ground (arith, next_take i, next_keyed i j);
    unique = λ i j k e f. ground (arith, next_take i, next_take j, unique i j k);
    reach = Reach-take_key;
    main = λ i h. ground (arith, main i);
    distinct = λ i j h e. ground (arith, absent i, absent j, distinct i j);
    blank = λ i h. ground (arith, blank i);
    rank = rank;
    falls = λ i j e. ground (arith, next_take i, falls i j);
    rank_le = rank_le;
  }

  module _ (free : ℕ) (fresh : is_nil (g free).key ≡ true)
      (taken : is_nil (g (slot key)).key ≡ false) where
    unlinked : (i : ℕ) → (g i).next ≢ some free
    unlinked i e = ground (arith, next_keyed i free)

    abbrev g₂ : ℕ → Node V
    g₂ = behind g (slot key) key free

    new_rank : ℕ → ℕ
    new_rank i =
        if i == free
        then rank (slot key)
        else if ltb (rank i) (rank (slot key))
        then rank i
        else rank i + 1

    Reach-behind : {a b : ℕ} → Reach g a b → Reach g₂ a b
    Reach-behind here = here
    Reach-behind (there {a = a} e p) = elim (ℕ_discrete (slot key) a) [
      | yes s ↦ there {b = free} (ground arith) (there (ground arith) (Reach-behind p))
      | no s ↦ there (ground (arith, blank free)) (Reach-behind p)
    ]

    Reach-behind_key : (i : ℕ) → is_nil (g₂ i).key ≡ false → Reach g₂ (slot (g₂ i).key) i
    Reach-behind_key i h = elim (ℕ_discrete free i) [
      | yes e ↦
          let same : slot (g₂ i).key ≡ slot key = ground arith in
          subst (λ (s : ℕ). Reach g₂ s i) (sym same)
            (subst (λ (j : ℕ). Reach g₂ (slot key) j) e (there (ground arith) here))
      | no e ↦
          let same : (g₂ i).key ≡ (g i).key = ground arith in
          subst (λ k. Reach g₂ (slot k) i) (sym same) (Reach-behind (reach i (ground arith)))
    ]

    -- The new key's chain starts at its main position.
    pub chain_behind_lem :
        slot (g (slot key)).key ≡ slot key
        → Chains is_nil slot (suc bound) (behind g (slot key) key free)
    unfolding new_rank
    chain_behind_lem same = record {
      next_keyed = λ i j e. ground (arith, next_keyed i j, next_keyed (slot key) j);
      unique = λ i j k e f. ground (
        arith,
        unique i j k,
        unique (slot key) j k,
        unique i (slot key) k,
        unlinked i,
        unlinked j,
        unlinked (slot key),
      );
      reach = Reach-behind_key;
      main = λ i h. ground (arith, main i);
      distinct = λ i j h e. ground (arith, absent i, absent j, distinct i j);
      blank = λ i h. ground (arith, blank i);
      rank = new_rank;
      falls =
          λ i j e. ground (arith, falls i j, falls (slot key) j, unlinked i, unlinked (slot key));
      rank_le = λ i. ground (arith, rank_le i, rank_le (slot key));
    }

    module _ (nil : V) (pred : ℕ) (before : (g pred).next ≡ some (slot key)) where
      abbrev g₃ : ℕ → Node V
      g₃ = away g (slot key) key free nil pred

      -- where the content of a node stands afterwards
      abbrev moved : ℕ → ℕ
      moved i = if i == slot key then free else i

      swapped_rank : ℕ → ℕ
      swapped_rank i = if i == free then rank (slot key) else rank i

      Reach-away : {a b : ℕ} → Reach g a b → Reach g₃ (moved a) (moved b)
      Reach-away here = here
      Reach-away (there {a = a} {b = b} e p) =
          there {b = moved b}
            (ground (
              arith,
              blank free,
              falls pred (slot key),
              falls a b,
              unique a pred (slot key),
              next_keyed pred (slot key),
              unlinked a,
            ))
            (Reach-away p)

      module _ (other : slot (g (slot key)).key ≢ slot key) where
        -- No key has its main position at `slot key`, which holds a key of another chain.
        elsewhere : (i : ℕ) → is_nil (g i).key ≡ false → slot (g i).key ≢ slot key
        elsewhere i h e = other (subst (λ (s : ℕ). slot (g s).key ≡ s) e (main i h).1)

        Reach-away_key : (i : ℕ) → is_nil (g₃ i).key ≡ false → Reach g₃ (slot (g₃ i).key) i
        Reach-away_key i h = elim (ℕ_discrete (slot key) i) [
          | yes e ↦
              let same : slot (g₃ i).key ≡ i = ground arith in
              subst (λ (s : ℕ). Reach g₃ s i) (sym same) here
          | no e ↦ elim (ℕ_discrete free i) [
            | yes f ↦
                let path = Reach-away (reach (slot key) taken) in
                let start : moved (slot (g (slot key)).key) ≡ slot (g₃ i).key = ground arith in
                let end : moved (slot key) ≡ i = ground arith in
                subst (λ (s : ℕ). Reach g₃ s i) start
                  (subst (λ (j : ℕ). Reach g₃ (moved (slot (g (slot key)).key)) j) end path)
            | no f ↦
                let keyed_i : is_nil (g i).key ≡ false = ground arith in
                let path = Reach-away (reach i keyed_i) in
                let start : moved (slot (g i).key) ≡ slot (g₃ i).key =
                  ground (arith, elsewhere i) in
                let end : moved i ≡ i = ground arith in
                subst (λ (s : ℕ). Reach g₃ s i) start
                  (subst (λ (j : ℕ). Reach g₃ (moved (slot (g i).key)) j) end path)
          ]
        ]

        -- The node at the new key's main position moves to the free node.
        pub move_away_lem : Chains is_nil slot (suc bound) (away g (slot key) key free nil pred)
        unfolding swapped_rank
        move_away_lem = record {
          next_keyed = λ i j e. ground (arith, next_keyed i j, next_keyed (slot key) j);
          unique = λ i j k e f. ground (
            arith,
            unique i j k,
            unique i (slot key) k,
            unique j (slot key) k,
            unlinked i,
            unlinked j,
            unlinked (slot key),
            falls (slot key) k,
            falls pred (slot key),
          );
          reach = Reach-away_key;
          main = λ i h. ground (
            arith,
            main i,
            main (slot key),
            elsewhere i,
            elsewhere (slot key),
            falls pred (slot key),
          );
          distinct = λ i j h e. ground (
            arith,
            absent i,
            absent j,
            distinct i j,
            distinct i (slot key),
            distinct (slot key) j,
          );
          blank = λ i h. ground (arith, blank i);
          rank = swapped_rank;
          falls = λ i j e. ground (
            arith,
            falls i j,
            falls (slot key) j,
            falls pred (slot key),
            unlinked i,
            unlinked (slot key),
            unique i pred j,
          );
          rank_le = λ i. ground (arith, rank_le i, rank_le (slot key));
        }
