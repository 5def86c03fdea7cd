-- ===== src/Runtime/Table/SetRound.antt =====
-- A round of `set` of crates/luajit-rs/src/runtime/table.rs: it writes the value, or it finds every
-- node taken and the table rehashed.
use luajit_rs.Base.{
  ℕ, ◌≡◌, ◌≢◌, ◌⊎◌, inl, inr, refl, sym, ◌∙◌, ap, subst, arith, true, false, Option, none, some,
  if◌then◌else◌, length, Run, ok, panic, no_fuel, ◌>>=◌, Returns, Bool-cases, Option-cases,
}
use luajit_rs.Runtime.Table.Values.{Values}
use luajit_rs.Runtime.Table.State.{Table, has_hpart, array_write, array_slot}
use luajit_rs.Runtime.Table.Find.{lookup}
use luajit_rs.Runtime.Table.Insert.{
  NewKey, slot, rehashed, try_new_key, val_write, Round, written, again, set_round,
}
use luajit_rs.Runtime.Table.Nodes.{keyed, keyed-le}
use luajit_rs.Runtime.Table.Valid.{node_at, Keyed, Valid, Found, lookup_lem}
use luajit_rs.Runtime.Table.NewKey.{Inserted}
use luajit_rs.Runtime.Table.TryNewKey.{try_new_key_lem}
use luajit_rs.Runtime.Table.Assign.{
  Updated, array_slot-none, array_slot-congr, get-congr, array_write-lem, val_write-run,
  val_write-Updated, Updated-weaken,
}

module _ {V : Type 0} (values : Values V) where
  open values use {nil, is_nil, normalize_key}

  -- the nodes that a write to the key may take
  abbrev pub cost : Table V → V → ℕ
  cost t key = elim (array_slot values t key) [ none ↦ 1 | some i ↦ 0 ]

  abbrev pub Wrote : Table V → V → V → Run (Round values) → Type 0
  Wrote t key x r = (t' : Table V) × (r ≡ ok (written t')) × Updated values t t' key x (cost t key)

  module _ (t : Table V) (v : Valid values t) (key x : V) (keyed_key : is_nil key ≡ false)
      (normal_key : normalize_key key ≡ key) where
    -- a new key and then its value
    Inserted-Updated :
        (t' : Table V) (n : ℕ)
        → array_slot values t key ≡ none
        → Inserted values t t' key n
        → has_hpart values t ≡ true
        → Returns (val_write values t' n x) (λ t''. Updated values t t'' key x 1)
    unfolding has_hpart
    Inserted-Updated t' n out ins h =
        let taken : Keyed values (node_at values t'.node) n =
          subst (λ k. is_nil k ≡ false) (sym ins.placed.at_key) keyed_key in
        let u =
          val_write-Updated values t' ins.valid n x taken key ins.placed.at_key
            (array_slot-congr values t t' key ins.asize ∙ out) in
        let h' : has_hpart values t' ≡ true = rw ins.hmask h in
        (
          _,
          val_write-run values t' ins.valid n x taken h',
          record {
            valid = u.valid;
            asize = u.asize ∙ ins.asize;
            hmask = u.hmask ∙ ins.hmask;
            metatable = u.metatable ∙ ins.metatable;
            used = omega (arith, u.used, ins.used);
            at_key = u.at_key;
            others = λ k nk normal_k ne.
                u.others k nk normal_k ne
                ∙ get-congr values t t' k v ins.valid nk ins.asize (λ i e. rw ins.array refl)
                    (λ w. ins.placed.keeps k w ne nk);
          },
        )

    -- the rest of a round once the key has no node
    abbrev after : Run (NewKey V) → Run (Round values)
    after r = r >>= λ m. elim m [
      | slot n t' ↦ val_write values t' n x >>= λ t''. ok (written t'')
      | rehashed t' ↦ ok (again t')
    ]

    array-round :
        (i : ℕ)
        → array_slot values t key ≡ some i
        → (rehash : Table V → V → Run (Table V))
        → set_round values rehash t key x ≡ (array_write values t i x >>= λ t'. ok (written t'))
    unfolding set_round
    array-round i e rehash = rw (set_round, e) refl

    round-node :
        (n : ℕ)
        → array_slot values t key ≡ none
        → (if has_hpart values t then lookup values t key else ok none) ≡ ok (some n)
        → (rehash : Table V → V → Run (Table V))
        → set_round values rehash t key x ≡ (val_write values t n x >>= λ t'. ok (written t'))
    unfolding set_round
    round-node n out run rehash = rw (set_round, out, run) refl

    round-new :
        array_slot values t key ≡ none
        → (if has_hpart values t then lookup values t key else ok none) ≡ ok none
        → (rehash : Table V → V → Run (Table V))
        → set_round values rehash t key x ≡ after (try_new_key values rehash t key)
    unfolding set_round
    round-new out run rehash = rw (set_round, out, run) refl

    no_hpart-rehash :
        has_hpart values t ≡ false
        → (rehash : Table V → V → Run (Table V))
        → try_new_key values rehash t key
          ≡ (rehash (record t { nomm = 0 }) key >>= λ t₁. ok (rehashed t₁))
    unfolding try_new_key has_hpart
    no_hpart-rehash h rehash = rw h refl

    no_hpart-full : has_hpart values t ≡ false → keyed is_nil t.node ≡ length t.node
    unfolding has_hpart
    no_hpart-full h = ground (arith, v.node_len, keyed-le is_nil t.node)

    after-rehash :
        (rehash : Table V → V → Run (Table V))
        → try_new_key values rehash t key
          ≡ (rehash (record t { nomm = 0 }) key >>= λ t₁. ok (rehashed t₁))
        → after (try_new_key values rehash t key)
          ≡ (rehash (record t { nomm = 0 }) key >>= λ t₁. ok (again t₁))
    after-rehash rehash e = ap after e ∙ settle (rehash (record t { nomm = 0 }) key)
      where
        settle :
            (r : Run (Table V)) → after (r >>= λ t₁. ok (rehashed t₁)) ≡ (r >>= λ t₁. ok (again t₁))
        settle (ok t₁) = refl
        settle panic = refl
        settle no_fuel = refl

    -- What a round of `set` does on a valid table.
    abbrev pub Rounds : (Table V → V → Run (Table V)) → Type 0
    Rounds rehash =
        Wrote t key x (set_round values rehash t key x)
        ⊎ ((set_round values rehash t key x
              ≡ (rehash (record t { nomm = 0 }) key >>= λ t₁. ok (again t₁)))
            × (array_slot values t key ≡ none)
            × (keyed is_nil t.node ≡ length t.node))

    new_key-round :
        array_slot values t key ≡ none
        → has_hpart values t ≡ true
        → lookup values t key ≡ ok none
        → ((i : ℕ) → (node_at values t.node i).key ≢ key)
        → (rehash : Table V → V → Run (Table V)) → Rounds rehash
    new_key-round out h run absent rehash =
        let start = round-new out (rw h run) rehash in
        elim (try_new_key_lem values t v h key keyed_key normal_key
          (array_slot-none values t key out) absent rehash) [
            | inr (e, full) ↦ inr (start ∙ after-rehash rehash e, out, full)
            | inl (n, t', e, ins) ↦
                let (t'', wrote, u) = Inserted-Updated t' n out ins h in
                inl (
                  t'',
                  start
                      ∙ ap after e
                      ∙ ap (λ (r : Run (Table V)). r >>= λ t₁. ok (written t₁)) wrote,
                  rw (cost, out) u,
                )
          ]

    pub set_round_lem : (rehash : Table V → V → Run (Table V)) → Rounds rehash
    set_round_lem rehash = elim (Option-cases (array_slot values t key)) [
      | inr (i, e) ↦
          let (t', run, u) = array_write-lem values t v key x i normal_key e in
          inl (
            t',
            array-round i e rehash ∙ ap (λ (r : Run (Table V)). r >>= λ t₁. ok (written t₁)) run,
            rw (cost, e) u,
          )
      | inl out ↦ elim (Bool-cases (has_hpart values t)) [
        | inr h ↦ inr (
          round-new out (rw h refl) rehash ∙ after-rehash rehash (no_hpart-rehash h rehash),
          out,
          no_hpart-full h,
        )
        | inl h ↦
            let (found, run, finds) = lookup_lem values t v key keyed_key h in
            settle out h found run finds
      ]
    ]
      where
        settle :
            array_slot values t key ≡ none
            → has_hpart values t ≡ true
            → (found : Option ℕ) → lookup values t key ≡ ok found
            → Found values t v key found
            → Rounds rehash
        settle out h none run absent = new_key-round out h run absent rehash
        settle out h (some n) run at_n =
            let taken : Keyed values (node_at values t.node) n =
              subst (λ k. is_nil k ≡ false) (sym at_n) keyed_key in
            inl (
              _,
              round-node n out (rw h run) rehash
                  ∙ ap (λ (r : Run (Table V)). r >>= λ t₁. ok (written t₁))
                      (val_write-run values t v n x taken h),
              Updated-weaken values (val_write-Updated values t v n x taken key at_n out)
                  (omega arith),
            )
