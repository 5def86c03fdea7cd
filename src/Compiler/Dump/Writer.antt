-- ===== src/Compiler/Dump/Writer.antt =====
-- crates/luajit-rs/src/compiler/dump.rs. The writers return the bytes that they append.
use luajit_rs.Base.{
  ℕ, zero, suc, ◌/◌, ◌%◌, List, [], ◌∷◌, ◌++◌, Option, some, none, length, Run, ok, ◌>>=◌, unwrap,
}
use luajit_rs.Compiler.Dump.Proto.{
  Body, Kgc, str, child, child_ref, table, table_ref, cdata, Kgcs, nil, cons, Proto, proto,
  length_kgcs,
}

abbrev pub magic : List ℕ
magic = 0x1b ∷ 0x4c ∷ 0x4a ∷ []

abbrev pub version : ℕ
version = 1

-- The `n` low bytes, lowest first: `to_le_bytes` behind the cast to `n` bytes.
unfoldable pub w_le : ℕ → ℕ → List ℕ
w_le zero v = []
w_le (suc n) v = v % 256 ∷ w_le n (v / 256)

-- `for &v in vs { w_le(v) }`
unfoldable pub w_all : ℕ → List ℕ → List ℕ
unfolding w_le
w_all n [] = []
w_all n (v ∷ vs) = w_le n v ++ w_all n vs

-- `for name in &pt.uvnames`
unfoldable pub w_names : List (List ℕ) → List ℕ
unfolding w_le
w_names [] = []
w_names (b ∷ bs) = (w_le 2 (length b) ++ b) ++ w_names bs

-- the fields in front of `source`
unfoldable pub w_counts : Body → ℕ → List ℕ → List ℕ
unfolding w_le
w_counts pt kgc_len rest =
    w_le 2 pt.flags
    ++ ((pt.numparams ∷ [])
        ++ ((pt.framesize ∷ [])
            ++ (w_le 4 (length pt.bc)
                ++ (w_le 4 kgc_len
                    ++ (w_le 4 (length pt.kn)
                        ++ (w_le 4 0
                            ++ (w_le 4 (length pt.uv)
                                ++ (w_le 4 (length pt.uvnames)
                                    ++ (w_le 4 pt.firstline ++ (w_le 4 pt.numline ++ rest))))))))))

-- the arrays behind `source`
unfoldable pub w_arrays : Body → List ℕ → List ℕ
unfolding w_all w_names
w_arrays pt rest =
    w_all 4 pt.bc
    ++ (w_all 4 pt.lines ++ (w_all 8 pt.kn ++ (w_all 2 pt.uv ++ (w_names pt.uvnames ++ rest))))

module _ (T C : Type 0) (get : ℕ → Option (List ℕ)) where
  -- the length and the bytes of `strs.get(sid)`
  unfoldable pub write_string : ℕ → Run (List ℕ)
  unfolding w_le
  write_string sid = unwrap (get sid) >>= λ b. ok (w_le 4 (length b) ++ b)

  unfoldable pub write_source : Option ℕ → Run (List ℕ)
  unfolding write_string
  write_source none = ok (0 ∷ [])
  write_source (some sid) = write_string sid >>= λ b. ok ((1 ∷ []) ++ b)

  unfoldable mutual
    unfolding write_string write_source w_counts w_arrays

    pub write_kgc : Kgc T C → Run (List ℕ)
    write_kgc (str sid) = write_string sid >>= λ b. ok ((0 ∷ []) ++ b)
    write_kgc (child p) = write_proto p >>= λ b. ok ((1 ∷ []) ++ b)
    write_kgc (child_ref p) = write_proto p >>= λ b. ok ((1 ∷ []) ++ b)
    write_kgc (table t) = ok (2 ∷ [])
    write_kgc (table_ref t) = ok (2 ∷ [])
    write_kgc (cdata c) = ok (3 ∷ [])

    pub write_kgcs : Kgcs T C → Run (List ℕ)
    write_kgcs nil = ok []
    write_kgcs (cons k ks) = write_kgc k >>= λ a. write_kgcs ks >>= λ b. ok (a ++ b)

    pub write_proto : Proto T C → Run (List ℕ)
    write_proto (proto pt ks) = write_source pt.source >>= λ source.
        write_kgcs ks >>= λ kgc. ok (w_counts pt (length_kgcs ks) (source ++ w_arrays pt kgc))

  unfoldable pub dump : Proto T C → Run (List ℕ)
  unfolding write_proto
  dump p = write_proto p >>= λ b. ok (magic ++ (version ∷ []) ++ (0 ∷ []) ++ b)
