-- ===== src/Runtime/Table/Map.antt =====
-- The tables of crates/luajit-rs/src/runtime/table.rs as maps from keys to values, where a missing key has
-- the value nil.
use luajit_rs.Base.{
  ℕ, ◌^◌, ◌<◌, ◌≡◌, ◌≢◌, inl, inr, sym, ◌∙◌, ap, subst, arith, false, if◌then◌else◌, Bool-cases,
  Run, ok, ◌>>=◌, Returns,
}
use luajit_rs.Runtime.Table.Values.{Values}
use luajit_rs.Runtime.Table.State.{Table}
use luajit_rs.Runtime.Table.Find.{get}
use luajit_rs.Runtime.Table.Insert.{rehash, Round, written, again, set_fuel, set_depth, set}
use luajit_rs.Runtime.Table.Valid.{Valid}
use luajit_rs.Runtime.Table.TryNewKey.{nomm-Valid}
use luajit_rs.Runtime.Table.Assign.{Updated}
use luajit_rs.Runtime.Table.SetRound.{set_round_lem}
use luajit_rs.Runtime.Table.SetAll.{set_fuel-room, get-nomm}
use luajit_rs.Runtime.Table.Rehash.{population, rehash_lem}

module _ {V : Type 0} (values : Values V) where
  open values use {nil, equal, is_nil, is_string, normalize_key, equal_iff}

  -- a key that a Lua program can store under
  pub record IsKey (k : V) : Type 0 where
    pub not_nil : is_nil k ≡ false
    pub normal : normalize_key k ≡ k

  -- The table holds the map `m`.
  pub record Represents (t : Table V) (m : V → V) : Type 0 where
    pub valid : Valid values t
    pub reads : (k : V) → IsKey k → get values t k ≡ ok (m k)

  abbrev pub update : (V → V) → V → V → V → V
  update m key x k = if equal k key then x else m k

  -- `t'` is `t` with the value `x` at the key.
  pub record Stored (t t' : Table V) (key x : V) : Type 0 where
    pub valid : Valid values t'
    pub metatable : t'.metatable ≡ t.metatable
    pub at_key : get values t' key ≡ ok x
    pub others : (k : V) → IsKey k → k ≢ key → get values t' k ≡ get values t k

  pub Updated-Stored :
      {t t' : Table V} {key x : V} {new : ℕ} → Updated values t t' key x new → Stored t t' key x
  Updated-Stored u = record {
    valid = u.valid;
    metatable = u.metatable;
    at_key = u.at_key;
    others = λ k ok_k. u.others k ok_k.not_nil ok_k.normal;
  }

  pub Stored-Represents :
      (t t' : Table V) (m : V → V) (key x : V)
      → Represents t m
      → Stored t t' key x
      → Represents t' (update m key x)
  Stored-Represents t t' m key x r s = record {
    valid = s.valid;
    reads = λ k ok_k. elim (Bool-cases (equal k key)) [
      | inl e ↦ rw e (subst (λ j. get values t' j ≡ ok x) (sym ((equal_iff k key).0 e)) s.at_key)
      | inr e ↦ rw e (s.others k ok_k (λ q. ground (arith, equal_iff k key)) ∙ r.reads k ok_k)
    ];
  }

  pub Stored-nomm :
      (t t' : Table V) (key x : V)
      → Valid values t
      → Stored (record t { nomm = 0 }) t' key x
      → Stored t t' key x
  Stored-nomm t t' key x v s = record {
    valid = s.valid;
    metatable = s.metatable;
    at_key = s.at_key;
    others = λ k ok_k ne. s.others k ok_k ne ∙ get-nomm values t 0 k v ok_k.not_nil;
  }

  pub set_fuel-Stored :
      (t : Table V) (key x : V)
      → Valid values t
      → IsKey key
      → population values t < 2 ^ 26
      → Returns (set_fuel values 2 t key x) (λ t'. Stored t t' key x)
  unfolding set_fuel
  set_fuel-Stored t key x v ok_key few =
      elim (set_round_lem values t v key x ok_key.not_nil ok_key.normal
        (rehash values (set_depth values 1))) [
          | inl (t', run, u) ↦ (t', ap again_or_done run, Updated-Stored u)
          | inr (run, out, full) ↦
              let (t₁, made, r) =
                rehash_lem values 0 (record t { nomm = 0 }) key (nomm-Valid values t 0 v) few in
              let (t', run', u) =
                set_fuel-room values 0 t₁ key x r.valid ok_key.not_nil ok_key.normal r.has_room in
              (
                t',
                ap again_or_done (run ∙ ap (λ (r : Run (Table V)). r >>= λ t₂. ok (again t₂)) made)
                    ∙ run',
                record {
                  valid = u.valid;
                  metatable = u.metatable ∙ r.metatable;
                  at_key = u.at_key;
                  others = λ k ok_k ne.
                      u.others k ok_k.not_nil ok_k.normal ne
                      ∙ r.reads k ok_k.not_nil ok_k.normal
                      ∙ get-nomm values t 0 k v ok_k.not_nil;
                },
              )
        ]
    where
      again_or_done : Run (Round values) → Run (Table V)
      again_or_done r =
          r >>= λ s. elim s [ written t₁ ↦ ok t₁ | again t₁ ↦ set_fuel values 1 t₁ key x ]

  -- On a table of fewer than 2 ^ 26 entries `set` ends, with the value at the key and no other changed.
  pub set-Stored :
      (t : Table V) (key x : V)
      → Valid values t
      → IsKey key
      → population values t < 2 ^ 26
      → Returns (set values t key x) (λ t'. Stored t t' key x)
  unfolding set
  set-Stored t key x v ok_key few = elim (Bool-cases (is_string key)) [
    | inr e ↦ rw e (set_fuel-Stored t key x v ok_key few)
    | inl e ↦
        let (t', run, s) =
          set_fuel-Stored (record t { nomm = 0 }) key x (nomm-Valid values t 0 v) ok_key few in
        rw e (t', run, Stored-nomm t t' key x v s)
  ]

  -- If a table is valid and holds the map `m`, with fewer than 2 ^ 26 entries, then for a key that is not
  -- nil and is normalized `set` ends, also where it has to rehash, and the table is then valid and holds
  -- `m` with the new value at the key.
  pub set-Represents :
      (t : Table V) (m : V → V) (key x : V)
      → Represents t m
      → IsKey key
      → population values t < 2 ^ 26
      → Returns (set values t key x) (λ t'. Represents t' (update m key x))
  set-Represents t m key x r ok_key few =
      let (t', run, s) = set-Stored t key x r.valid ok_key few in
      (t', run, Stored-Represents t t' m key x r s)
