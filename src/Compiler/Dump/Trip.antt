-- ===== src/Compiler/Dump/Trip.antt =====
-- Undumping what was dumped, of crates/luajit-rs/src/compiler/dump.rs and undump.rs.
use luajit_rs.Base.{
  ℕ, suc, ◌+◌, ◌≤◌, ◌≡◌, refl, ◌∙◌, arith, List, [], ◌∷◌, ◌++◌, Option, some, none, length,
  length-append, Run, ok, unwrap,
}
use luajit_rs.Compiler.Dump.Proto.{
  Kgc, str, child, child_ref, table, table_ref, cdata, Kgcs, nil, cons, Proto, proto, length_kgcs,
  Interner,
}
use luajit_rs.Compiler.Dump.Writer.{
  w_le, write_string, write_source, write_kgc, write_kgcs, write_proto,
}
use luajit_rs.Compiler.Dump.Reader.{
  Blank, P, ◌>>=◌, pure, read_u8, read_string, read_source, read_kgc, read_kgcs,
}
use luajit_rs.Compiler.Dump.Same.{
  IsString, IsSource, SameString, SameSource, SameKgc, same_str, same_child, same_ref, SameKgcs,
  same_cons, Same, Grows, SameKgc-grows,
}
use luajit_rs.Compiler.Dump.Parses.{Parses, Parses-bind, Parses-map, read_string-Parses}

-- how deep prototypes are nested, at most
unfoldable mutual
  pub nesting_kgc : {T C : Type 0} → Kgc T C → ℕ
  nesting_kgc (str x) = 0
  nesting_kgc (child p) = nesting p
  nesting_kgc (child_ref p) = nesting p
  nesting_kgc (table t) = 0
  nesting_kgc (table_ref t) = 0
  nesting_kgc (cdata c) = 0

  pub nesting_kgcs : {T C : Type 0} → Kgcs T C → ℕ
  nesting_kgcs nil = 0
  nesting_kgcs (cons k ks) = nesting_kgc k + nesting_kgcs ks

  pub nesting : {T C : Type 0} → Proto T C → ℕ
  nesting (proto b ks) = suc (nesting_kgcs ks)

-- The writer ends; from every state of the reader's interner, which keeps its strings, the reader
-- brings back what it wrote.
pub record Trips {I A : Type 0} (get' : I → ℕ → Option (List ℕ)) (m : P I A) (write : Run (List ℕ))
    (Q : (ℕ → Option (List ℕ)) → A → Type 0) (size : ℕ) : Type 0 where
  pub bytes : List ℕ
  pub written : write ≡ ok bytes
  pub long : size ≤ length bytes
  pub back :
      (s : I)
      → (a : A) × (s' : I) × Parses m s bytes a s' × Grows (get' s) (get' s') × Q (get' s') a

pub le-append : {n : ℕ} (xs ys : List ℕ) → n ≤ length ys → n ≤ length (xs ++ ys)
le-append xs ys h = omega (arith, length-append xs ys)

module _ {I T C : Type 0} (strs : Interner I) (blank : Blank T C) (lossy : List ℕ → List ℕ)
    (get : ℕ → Option (List ℕ)) where
  abbrev pub Trip :
      {A : Type 0} → P I A → Run (List ℕ) → ((ℕ → Option (List ℕ)) → A → Type 0) → ℕ → Type 0
  Trip m w Q size = Trips strs.get m w Q size

  string-Trip :
      (x : ℕ)
      → IsString get x
      → Trip (read_string strs blank lossy) (write_string T C get x) (λ g y. SameString get g x y) 0
  unfolding write_string
  string-Trip x (v, e, short) = record {
    bytes = w_le 4 (length v) ++ v;
    written = rw (e, unwrap) refl;
    long = omega arith;
    back = λ s. (
      (strs.intern s v).0,
      (strs.intern s v).1,
      read_string-Parses strs blank lossy s v short,
      λ y u h. strs.get-kept s v y u h,
      (v, e, strs.get-intern s v),
    );
  }

  pub source-Trip :
      (o : Option ℕ)
      → IsSource get o
      → Trip
          (read_source strs blank lossy)
          (write_source T C get o)
          (λ g o'. SameSource get g o o')
          0
  unfolding write_source read_source read_u8
  source-Trip none h = record {
    bytes = 0 ∷ [];
    written = refl;
    long = omega arith;
    back = λ s. (none, s, record { run = λ rest. refl }, λ y u h. h, tt);
  }
  source-Trip (some x) h =
      let t = string-Trip x h in
      record {
        bytes = (1 ∷ []) ++ t.bytes;
        written = rw t.written refl;
        long = omega arith;
        back = λ s.
            let (y, s', p, g, q) = t.back s in
            (some y, s', record { run = λ rest. rw (p.run rest) refl }, g, q);
      }

  -- an entry with one byte in front of it, whose tail `m` reads
  tagged :
      {A : Type 0} {m : P I A} {w : Run (List ℕ)} {Q : (ℕ → Option (List ℕ)) → A → Type 0} {n : ℕ}
      (tag : ℕ) (again : P I (Proto T C)) (w' : Run (List ℕ)) (k : Kgc T C) (f : A → Kgc T C)
      → ((s : I) (bs : List ℕ)
          → read_kgc strs blank lossy again s (tag ∷ bs) ≡ (m >>= λ a. pure (f a)) s bs)
      → ((bs : List ℕ) → w ≡ ok bs → w' ≡ ok ((tag ∷ []) ++ bs))
      → ((g : ℕ → Option (List ℕ)) (a : A) → Q g a → SameKgc blank get g k (f a))
      → Trip m w Q n
      → Trip (read_kgc strs blank lossy again) w' (λ g k'. SameKgc blank get g k k') n
  tagged tag again w' k f reads writes related t = record {
    bytes = (tag ∷ []) ++ t.bytes;
    written = writes t.bytes t.written;
    long = omega (arith, t.long);
    back = λ s.
        let (a, s', p, g, q) = t.back s in
        (
          f a,
          s',
          record { run = λ rest. reads s (t.bytes ++ rest) ∙ (Parses-map _ f p).run rest },
          g,
          related _ a q,
        );
  }

  pub kgc-str :
      (again : P I (Proto T C)) (x : ℕ)
      → IsString get x
      → Trip
          (read_kgc strs blank lossy again)
          (write_kgc T C get (str x))
          (λ g k. SameKgc blank get g (str x) k)
          0
  unfolding write_kgc read_kgc read_u8
  kgc-str again x h =
      tagged 0 again _ (str x) str (λ s bs. refl) (λ bs e. rw e refl) (λ g y q. same_str q)
        (string-Trip x h)

  pub kgc-child :
      (again : P I (Proto T C)) (p : Proto T C) (n : ℕ)
      → Trip again (write_proto T C get p) (λ g q. Same blank get g p q) n
      → Trip
          (read_kgc strs blank lossy again)
          (write_kgc T C get (child p))
          (λ g k. SameKgc blank get g (child p) k)
          n
        × Trip
            (read_kgc strs blank lossy again)
            (write_kgc T C get (child_ref p))
            (λ g k. SameKgc blank get g (child_ref p) k)
            n
  unfolding write_kgc read_kgc read_u8
  kgc-child again p n t = (
    tagged 1 again _ (child p) child (λ s bs. refl) (λ bs e. rw e refl) (λ g y q. same_child q) t,
    tagged 1 again _ (child_ref p) child (λ s bs. refl) (λ bs e. rw e refl) (λ g y q. same_ref q) t,
  )

  -- one that is written as its tag alone
  pub kgc-blank :
      (tag : ℕ) (again : P I (Proto T C)) (k k' : Kgc T C)
      → write_kgc T C get k ≡ ok (tag ∷ [])
      → ((s : I) (bs : List ℕ) → read_kgc strs blank lossy again s (tag ∷ bs) ≡ ok (k', s, bs))
      → ((g : ℕ → Option (List ℕ)) → SameKgc blank get g k k')
      → Trip
          (read_kgc strs blank lossy again)
          (write_kgc T C get k)
          (λ g k'. SameKgc blank get g k k')
          0
  kgc-blank tag again k k' writes reads related = record {
    bytes = tag ∷ [];
    written = writes;
    long = omega arith;
    back = λ s. (k', s, record { run = λ rest. reads s rest }, λ y u h. h, related _);
  }

  pub kgcs-cons :
      (again : P I (Proto T C)) (k : Kgc T C) (ks : Kgcs T C) (n m : ℕ)
      → Trip
          (read_kgc strs blank lossy again)
          (write_kgc T C get k)
          (λ g k'. SameKgc blank get g k k')
          n
      → Trip
          (read_kgcs strs blank lossy again (length_kgcs ks))
          (write_kgcs T C get ks)
          (λ g ks'. SameKgcs blank get g ks ks')
          m
      → Trip
          (read_kgcs strs blank lossy again (suc (length_kgcs ks)))
          (write_kgcs T C get (cons k ks))
          (λ g ks'. SameKgcs blank get g (cons k ks) ks')
          (n + m)
  unfolding write_kgcs read_kgcs
  kgcs-cons again k ks n m t u = record {
    bytes = t.bytes ++ u.bytes;
    written = rw (t.written, u.written) refl;
    long = omega (arith, length-append t.bytes u.bytes, t.long, u.long);
    back = λ s.
        let (k', s', p, g, q) = t.back s in
        let (ks', s'', p', g', q') = u.back s' in
        (
          cons k' ks',
          s'',
          Parses-bind _ _ p (Parses-map _ _ p'),
          λ y v h. g' y v (g y v h),
          same_cons (SameKgc-grows blank get g' q) q',
        );
  }
