-- ===== src/Runtime/Table/Insert.antt =====
-- Writes to the tables of crates/luajit-rs/src/runtime/table.rs: new keys by Brent's variation, and
-- the resizing that a full hash part calls for. `set` calls itself through `rehash` and `resize`.
use luajit_rs.Base.{
  ℕ, zero, suc, ◌+◌, ◌-◌, ◌^◌, min, not, ◌&&◌, Option, none, some, List, [], ◌∷◌, ◌++◌, ltb, leb,
  ◌==◌, if◌then◌else◌, length, take, drop, replicate, Run, ok, panic, no_fuel, ◌>>=◌, sub,
}
use luajit_rs.Base.Int.{ℤ, pos, negsuc}
use luajit_rs.Runtime.Table.Values.{Values}
use luajit_rs.Runtime.Table.State.{
  max_asize, Node, Table, fls, hsize2hbits, new_hpart, has_hpart, node_slot, node_write,
  array_write, hash_slot, array_slot,
}
use luajit_rs.Runtime.Table.Find.{lookup}
use luajit_rs.Runtime.Table.Count.{best_asize, count_all}

-- `n.next_power_of_two()`
unfoldable pub next_power_of_two : ℕ → ℕ
unfolding fls
next_power_of_two n = if leb n 1 then 1 else 2 ^ (1 + fls (n - 1))

-- the index of a new key's node, or the table after a rehash
pub data NewKey (V : Type 0) : Type 0 where
  slot : ℕ → Table V → NewKey V
  rehashed : Table V → NewKey V

module _ {V : Type 0} (values : Values V) where
  open values use {nil, is_nil, is_string, number, normalize_key}

  -- the search for a free node, downward from `freetop`
  unfoldable pub free_node : Table V → ℕ → Run (Option ℕ)
  unfolding node_slot
  free_node t zero = ok none
  free_node t (suc i) =
      node_slot values t i >>= λ nd. if is_nil nd.key then ok (some i) else free_node t i

  -- the walk from `pred` to the node before `n`
  unfoldable pub find_pred : ℕ → Table V → ℕ → ℕ → Run ℕ
  unfolding node_slot
  find_pred zero t pred n = no_fuel
  find_pred (suc fuel) t pred n = node_slot values t pred >>= λ nd. elim nd.next [
    | none ↦ panic
    | some m ↦ if m == n then ok pred else find_pred fuel t m n
  ]

  -- The colliding node `n` is not in its main position `collide`: it moves to the free node.
  unfoldable pub move_away : Table V → V → ℕ → Node V → ℕ → ℕ → Run (NewKey V)
  unfolding find_pred node_slot node_write
  move_away t key n nd free collide = find_pred (t.hmask + 1) t collide n >>= λ pred.
      node_slot values t pred >>= λ before.
      node_write values t pred (record before { next = some free }) >>= λ t'.
      node_write values t' free nd >>= λ t''.
      node_write values t'' n (record { val = nil; key = normalize_key key; next = none })
      >>= λ t'''. ok (slot n t''')

  -- The new key goes into the chain behind the main position `n`.
  unfoldable pub chain_behind : Table V → V → ℕ → Node V → ℕ → Run (NewKey V)
  unfolding node_slot node_write
  chain_behind t key n nd free = node_slot values t free >>= λ fresh.
      node_write values t free (record fresh { next = nd.next; key = normalize_key key }) >>= λ t'.
      node_write values t' n (record nd { next = some free }) >>= λ t''. ok (slot free t'')

  unfoldable pub try_new_key : (Table V → V → Run (Table V)) → Table V → V → Run (NewKey V)
  unfolding node_slot node_write free_node move_away chain_behind hash_slot has_hpart
  try_new_key rehash t₀ key =
      let t = record t₀ { nomm = 0 } in
      if not (has_hpart values t)
      then (rehash t key >>= λ t'. ok (rehashed t'))
      else (let n = hash_slot values t key in
          node_slot values t n >>= λ nd.
          if is_nil nd.val
          then (node_write values t n (record nd { key = normalize_key key }) >>= λ t'.
              ok (slot n t'))
          else (free_node t t.freetop >>= λ found. elim found [
            | none ↦ rehash t key >>= λ t'. ok (rehashed t')
            | some free ↦
                let t' = record t { freetop = free } in
                let collide = hash_slot values t nd.key in
                if collide == n
                then chain_behind t' key n nd free
                else move_away t' key n nd free collide
          ]))

  -- `self.node_slot_mut(n).val = val`
  unfoldable pub val_write : Table V → ℕ → V → Run (Table V)
  unfolding node_slot node_write
  val_write t n v = node_slot values t n >>= λ nd. node_write values t n (record nd { val = v })

  -- A round of the loop of `set`: the table after the write, or after a rehash.
  pub data Round : Type 0 where
    written : Table V → Round
    again : Table V → Round

  unfoldable pub set_round : (Table V → V → Run (Table V)) → Table V → V → V → Run Round
  unfolding array_slot array_write lookup val_write try_new_key has_hpart
  set_round rehash t key v = elim (array_slot values t key) [
    | some i ↦ array_write values t i v >>= λ t'. ok (written t')
    | none ↦ (if has_hpart values t then lookup values t key else ok none) >>= λ found. elim found [
      | some n ↦ val_write t n v >>= λ t'. ok (written t')
      | none ↦ try_new_key rehash t key >>= λ r. elim r [
        | slot n t' ↦ val_write t' n v >>= λ t''. ok (written t'')
        | rehashed t' ↦ ok (again t')
      ]
    ]
  ]

  -- the values of an array from index `i` on, with their keys
  unfoldable pub dropped : ℕ → List V → List (V × V)
  dropped i [] = []
  dropped i (v ∷ vs) =
      let rest = dropped (i + 1) vs in if is_nil v then rest else (number (pos i), v) ∷ rest

  unfoldable pub entries : List (Node V) → List (V × V)
  entries [] = []
  entries (nd ∷ nds) =
      let rest = entries nds in if is_nil nd.val then rest else (nd.key, nd.val) ∷ rest

  -- `for (k, v) in list { self.set(k, v) }`
  unfoldable pub set_all :
      (Table V → V → V → Run (Table V)) → List (V × V) → Table V → Run (Table V)
  set_all set [] t = ok t
  set_all set ((k, v) ∷ rest) t = set t k v >>= λ t'. set_all set rest t'

  -- the table with the new sizes, and the entries of `oldnode` and of the dropped part of the array
  unfoldable pub resized : Table V → ℕ → ℕ → Run (Table V)
  unfolding new_hpart
  resized t asize hbits =
      let grown = record t {
        array =
            if ltb t.asize asize
            then t.array ++ replicate (asize - length t.array) nil
            else if ltb asize t.asize
            then take asize t.array
            else t.array;
        asize = asize;
        node = [];
      } in
      if hbits == 0
      then ok (if t.hmask == 0 then grown else record grown { hmask = 0; freetop = 0 })
      else new_hpart values grown hbits

  unfoldable pub resize : (Table V → V → V → Run (Table V)) → Table V → ℕ → ℕ → Run (Table V)
  unfolding resized dropped entries set_all has_hpart
  resize set t asize hbits =
      if ltb max_asize asize
      then panic
      else (resized t asize hbits >>= λ t'.
          set_all set (if ltb asize t.asize then dropped asize (drop asize t.array) else []) t'
          >>= λ t''. set_all set (if has_hpart values t then entries t.node else []) t'')

  unfoldable pub rehash : (Table V → V → V → Run (Table V)) → Table V → V → Run (Table V)
  unfolding count_all best_asize resize
  rehash set t extra =
      let (total, narray, bins) = count_all values t extra in
      best_asize bins narray >>= λ (na, asize).
      sub total na >>= λ hash. resize set t asize (hsize2hbits hash)

  -- A string key may be the name of a metamethod.
  abbrev pub enter : Table V → V → Table V
  enter t key = if is_string key then record t { nomm = 0 } else t

  -- The loop of `set`, whose fuel bounds its rounds and the depth of the calls of `set` in `resize`.
  unfoldable pub set_fuel : ℕ → Table V → V → V → Run (Table V)
  unfolding set_round rehash
  set_fuel zero t key v = no_fuel
  set_fuel (suc fuel) t key v =
      set_round (rehash (λ t' k x. set_fuel fuel (enter t' k) k x)) t key v >>= λ r. elim r [
        | written t' ↦ ok t'
        | again t' ↦ set_fuel fuel t' key v
      ]

  -- `set` within the fuel
  abbrev pub set_depth : ℕ → Table V → V → V → Run (Table V)
  set_depth fuel t key v = set_fuel fuel (enter t key) key v

  unfoldable pub set : Table V → V → V → Run (Table V)
  unfolding set_fuel
  set t key v = set_depth 2 t key v

  unfoldable pub set_str : Table V → V → V → Run (Table V)
  unfolding set lookup val_write has_hpart
  set_str t₀ key v =
      let t = record t₀ { nomm = 0 } in
      if not (has_hpart values t)
      then set t key v
      else (lookup values t key >>= λ found. elim found [
        | some n ↦ val_write t n v
        | none ↦ set t key v
      ])

  unfoldable pub reasize : Table V → ℕ → Run (Table V)
  unfolding resize set_fuel next_power_of_two
  reasize t nasize =
      resize (set_depth 2) t (min (next_power_of_two (nasize + 1)) max_asize)
        (if ltb 0 t.hmask then fls t.hmask + 1 else 0)

  unfoldable pub set_int : Table V → ℤ → V → Run (Table V)
  unfolding set reasize array_write
  set_int t (negsuc n) v = set t (number (negsuc n)) v
  set_int t (pos n) v =
      if ltb 0 n && ltb n t.asize
      then array_write values t n v
      else if ltb 0 n && ltb n max_asize && not (is_nil v) && n == t.asize
      then (reasize t n >>= λ t'. array_write values t' n v)
      else set t (number (pos n)) v
