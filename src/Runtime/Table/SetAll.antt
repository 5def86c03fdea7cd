-- ===== src/Runtime/Table/SetAll.antt =====
-- `set` of crates/luajit-rs/src/runtime/table.rs for several entries, where the nodes are enough for all
-- of them.
use luajit_rs.Base.{
  ℕ, suc, ◌+◌, ◌≤◌, ◌≡◌, inl, inr, refl, sym, ◌∙◌, ap, ap₂, subst, arith, false, List, [], ◌∷◌, ltb,
  if◌then◌else◌, length, Run, ok, ◌>>=◌, Returns, Bool-cases,
}
use luajit_rs.Runtime.Table.Values.{Values}
use luajit_rs.Runtime.Table.State.{Table}
use luajit_rs.Runtime.Table.Find.{get}
use luajit_rs.Runtime.Table.Insert.{rehash, written, again, set_fuel, set_depth, set_all}
use luajit_rs.Runtime.Table.Nodes.{keyed}
use luajit_rs.Runtime.Table.Valid.{Valid}
use luajit_rs.Runtime.Table.TryNewKey.{nomm-Valid}
use luajit_rs.Runtime.Table.Assign.{Updated, Updated-weaken, array_slot-congr, get-congr}
use luajit_rs.Runtime.Table.SetRound.{cost, set_round_lem}

module _ {V : Type 0} (values : Values V) where
  open values use {equal, is_nil, is_string, normalize_key, equal_iff}

  -- the value of the last entry for a key, or else `d`
  abbrev pub latest : List (V × V) → V → Run V → Run V
  latest [] k d = d
  latest ((key, x) ∷ rest) k d = latest rest k (if equal k key then ok x else d)

  abbrev pub Entries : List (V × V) → Type 0
  Entries [] = Unit
  Entries ((key, x) ∷ rest) = (is_nil key ≡ false) × (normalize_key key ≡ key) × Entries rest

  abbrev pub costs : Table V → List (V × V) → ℕ
  costs t [] = 0
  costs t ((key, x) ∷ rest) = cost values t key + costs t rest

  pub cost-congr :
      (t t' : Table V) (key : V) → t'.asize ≡ t.asize → cost values t' key ≡ cost values t key
  cost-congr t t' key e = rw (cost, array_slot-congr values t t' key e) refl

  pub costs-congr :
      (t t' : Table V) (es : List (V × V)) → t'.asize ≡ t.asize → costs t' es ≡ costs t es
  costs-congr t t' [] e = refl
  costs-congr t t' ((key, x) ∷ rest) e =
      ap₂ (λ a b. a + b) (cost-congr t t' key e) (costs-congr t t' rest e)

  pub Updated-width :
      {t t' : Table V} {key x : V} {new : ℕ}
      → Valid values t
      → Updated values t t' key x new
      → length t'.node ≡ length t.node
  Updated-width {t} {t'} v u =
      u.valid.node_len ∙ ap (λ (m : ℕ). if ltb 0 m then suc m else 0) u.hmask ∙ sym v.node_len

  -- with room, the first round writes
  pub set_fuel-room :
      (fuel : ℕ) (t : Table V) (key x : V)
      → Valid values t
      → is_nil key ≡ false
      → normalize_key key ≡ key
      → keyed is_nil t.node + cost values t key ≤ length t.node
      → Returns
          (set_fuel values (suc fuel) t key x)
          (λ t'. Updated values t t' key x (cost values t key))
  unfolding set_fuel
  set_fuel-room fuel t key x v nk normal room =
      elim (set_round_lem values t v key x nk normal (rehash values (set_depth values fuel))) [
        | inl (t', run, u) ↦ (
          t',
          ap
              (λ r.
                r >>= λ m. elim m [ written t₁ ↦ ok t₁ | again t₁ ↦ set_fuel values fuel t₁ key x ])
              run,
          u,
        )
        | inr (run, out, full) ↦
            let one : cost values t key ≡ 1 = rw (cost, out) refl in absurd (omega arith)
      ]

  pub get-nomm :
      (t : Table V) (cache : ℕ) (k : V)
      → Valid values t
      → is_nil k ≡ false
      → get values (record t { nomm = cache }) k ≡ get values t k
  get-nomm t cache k v nk =
      get-congr values t (record t { nomm = cache }) k v (nomm-Valid values t cache v) nk refl
        (λ i h. refl) (λ w h. h)

  pub Updated-nomm :
      (t t' : Table V) (key x : V) (new : ℕ)
      → Valid values t
      → Updated values (record t { nomm = 0 }) t' key x new
      → Updated values t t' key x new
  Updated-nomm t t' key x new v u = record {
    valid = u.valid;
    asize = u.asize;
    hmask = u.hmask;
    metatable = u.metatable;
    used = u.used;
    at_key = u.at_key;
    others = λ k nk normal_k ne. u.others k nk normal_k ne ∙ get-nomm t 0 k v nk;
  }

  set_depth-room :
      (fuel : ℕ) (t : Table V) (key x : V)
      → Valid values t
      → is_nil key ≡ false
      → normalize_key key ≡ key
      → keyed is_nil t.node + cost values t key ≤ length t.node
      → Returns
          (set_depth values (suc fuel) t key x)
          (λ t'. Updated values t t' key x (cost values t key))
  set_depth-room fuel t key x v nk normal room = elim (Bool-cases (is_string key)) [
    | inr e ↦ rw e (set_fuel-room fuel t key x v nk normal room)
    | inl e ↦
        let same = cost-congr t (record t { nomm = 0 }) key refl in
        let (t', run, u) =
          set_fuel-room fuel (record t { nomm = 0 }) key x (nomm-Valid values t 0 v) nk normal
            (omega (arith, same)) in
        rw e (
          t',
          run,
          Updated-nomm t t' key x (cost values t key) v
              (Updated-weaken values u (omega (arith, same))),
        )
  ]

  -- `t'` is `t` with the entries set in order, as lookups see it.
  pub record Merged (t t' : Table V) (es : List (V × V)) : Type 0 where
    pub valid : Valid values t'
    pub asize : t'.asize ≡ t.asize
    pub hmask : t'.hmask ≡ t.hmask
    pub metatable : t'.metatable ≡ t.metatable
    pub used : keyed is_nil t'.node ≤ keyed is_nil t.node + costs t es
    pub reads :
        (k : V)
        → is_nil k ≡ false
        → normalize_key k ≡ k
        → get values t' k ≡ latest es k (get values t k)

  pub Merged-width :
      {t t' : Table V} {es : List (V × V)}
      → Valid values t
      → Merged t t' es
      → length t'.node ≡ length t.node
  Merged-width v m =
      m.valid.node_len ∙ ap (λ (n : ℕ). if ltb 0 n then suc n else 0) m.hmask ∙ sym v.node_len

  reads-step :
      {t t₁ : Table V} {key x : V} {new : ℕ}
      → Updated values t t₁ key x new
      → (k : V) → is_nil k ≡ false
      → normalize_key k ≡ k
      → get values t₁ k ≡ (if equal k key then ok x else get values t k)
  reads-step {t} {t₁} {key} {x} u k nk normal_k = elim (Bool-cases (equal k key)) [
    | inl e ↦ rw e (subst (λ j. get values t₁ j ≡ ok x) (sym ((equal_iff k key).0 e)) u.at_key)
    | inr e ↦ rw e (u.others k nk normal_k (λ q. ground (arith, equal_iff k key)))
  ]

  pub set_all_lem :
      (fuel : ℕ) (es : List (V × V)) (t : Table V)
      → Valid values t
      → Entries es
      → keyed is_nil t.node + costs t es ≤ length t.node
      → Returns (set_all values (set_depth values (suc fuel)) es t) (λ t'. Merged t t' es)
  unfolding set_all
  set_all_lem fuel [] t v good room = (
    t,
    refl,
    record {
      valid = v;
      asize = refl;
      hmask = refl;
      metatable = refl;
      used = omega arith;
      reads = λ k nk n. refl;
    },
  )
  set_all_lem fuel ((key, x) ∷ rest) t v (nk, normal, good) room =
      let (t₁, run, u) = set_depth-room fuel t key x v nk normal (omega arith) in
      let width = Updated-width v u in
      let same = costs-congr t t₁ rest u.asize in
      let (t', run', m) = set_all_lem fuel rest t₁ u.valid good (omega (arith, u.used)) in
      (
        t',
        rw run run',
        record {
          valid = m.valid;
          asize = m.asize ∙ u.asize;
          hmask = m.hmask ∙ u.hmask;
          metatable = m.metatable ∙ u.metatable;
          used = omega (arith, m.used, u.used);
          reads = λ k nk' normal_k.
              m.reads k nk' normal_k ∙ ap (latest rest k) (reads-step u k nk' normal_k);
        },
      )
