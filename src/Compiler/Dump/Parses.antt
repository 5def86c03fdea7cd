-- ===== src/Compiler/Dump/Parses.antt =====
-- Reading back what a writer of crates/luajit-rs/src/compiler/dump.rs wrote, in front of any data.
use luajit_rs.Base.{
  ℕ, zero, suc, ◌/◌, ◌^◌, ◌<◌, ◌≡◌, refl, ap, arith, List, [], ◌∷◌, ◌++◌, append_assoc, some,
  length, get_elem?, ok,
}
use native.Mathlib.Nat.{pow-suc}
use luajit_rs.Compiler.Dump.Proto.{Interner}
use luajit_rs.Compiler.Dump.Writer.{w_le, w_all, w_names}
use luajit_rs.Compiler.Dump.Reader.{
  Blank, P, ◌>>=◌, pure, read_u8, read_le, read_bytes, read_many, read_string, read_name,
}

-- From the state `s`, `m` reads `bytes`, returns `a` and leaves the state `s'`.
pub record Parses {I A : Type 0} (m : P I A) (s : I) (bytes : List ℕ) (a : A) (s' : I)
    : Type 0 where
  pub run : (rest : List ℕ) → m s (bytes ++ rest) ≡ ok (a, s', rest)

module _ {I A B : Type 0} where
  pub Parses-bind :
      (m : P I A) (f : A → P I B) {s s' s'' : I} {bs cs : List ℕ} {a : A} {b : B}
      → Parses m s bs a s'
      → Parses (f a) s' cs b s''
      → Parses (m >>= f) s (bs ++ cs) b s''
  Parses-bind m f {bs = bs} {cs = cs} h k = record {
    run = λ rest. rw (append_assoc bs cs rest, h.run (cs ++ rest)) (k.run rest);
  }

  -- the last step of a chain, which computes a value only
  pub Parses-map :
      (m : P I A) (f : A → B) {s s' : I} {bs : List ℕ} {a : A}
      → Parses m s bs a s'
      → Parses (m >>= λ a. pure (f a)) s bs (f a) s'
  Parses-map m f h = record { run = λ rest. rw (h.run rest) refl }

low_byte : (n v : ℕ) → v < 256 ^ suc n → v / 256 < 256 ^ n
low_byte n v h = omega (arith, pow-suc 256 n)

module _ {I : Type 0} where
  pub read_u8-Parses : (s : I) (b : ℕ) → Parses read_u8 s (b ∷ []) b s
  unfolding read_u8
  read_u8-Parses s b = record { run = λ rest. refl }

  pub read_le-Parses : (n : ℕ) (s : I) (v : ℕ) → v < 256 ^ n → Parses (read_le n) s (w_le n v) v s
  unfolding read_le w_le read_u8
  read_le-Parses zero s v h = record { run = λ rest. ap (λ t. ok (t, s, rest)) (omega arith) }
  read_le-Parses (suc n) s v h = record {
    run = λ rest.
        rw ((read_le-Parses n s (v / 256) (low_byte n v h)).run rest)
          (ap (λ t. ok (t, s, rest)) (omega arith));
  }

  pub read_bytes-Parses : (s : I) (bs : List ℕ) → Parses (read_bytes (length bs)) s bs bs s
  unfolding read_bytes read_u8
  read_bytes-Parses s [] = record { run = λ rest. refl }
  read_bytes-Parses s (b ∷ bs) = record {
    run = λ rest. rw ((read_bytes-Parses s bs).run rest) refl;
  }

  -- words of `n` bytes, one after the other
  pub read_all-Parses :
      (n : ℕ) (s : I) (vs : List ℕ)
      → ((i v : ℕ) → get_elem? vs i ≡ some v → v < 256 ^ n)
      → Parses (read_many (length vs) (read_le n)) s (w_all n vs) vs s
  unfolding read_many w_all
  read_all-Parses n s [] h = record { run = λ rest. refl }
  read_all-Parses n s (v ∷ vs) h =
      Parses-bind (read_le n) _ (read_le-Parses n s v (h 0 v refl))
        (Parses-map _ _ (read_all-Parses n s vs (λ i. h (suc i))))

module _ {I T C : Type 0} (strs : Interner I) (blank : Blank T C)
    (from_utf8_lossy : List ℕ → List ℕ) where
  open strs use {intern}

  pub read_string-Parses :
      (s : I) (b : List ℕ)
      → length b < 256 ^ 4
      → Parses
          (read_string strs blank from_utf8_lossy)
          s
          (w_le 4 (length b) ++ b)
          (intern s b).0
          (intern s b).1
  unfolding read_string
  read_string-Parses s b h =
      Parses-bind (read_le 4) _ (read_le-Parses 4 s (length b) h)
        (record { run = λ rest. rw ((read_bytes-Parses s b).run rest) refl })

  read_name-Parses :
      (s : I) (b : List ℕ)
      → length b < 256 ^ 2
      → from_utf8_lossy b ≡ b
      → Parses (read_name strs blank from_utf8_lossy) s (w_le 2 (length b) ++ b) b s
  unfolding read_name
  read_name-Parses s b h valid =
      Parses-bind (read_le 2) _ (read_le-Parses 2 s (length b) h) (record {
        run = λ rest. rw ((read_bytes-Parses s b).run rest) (ap (λ t. ok (t, s, rest)) valid);
      })

  pub read_names-Parses :
      (s : I) (names : List (List ℕ))
      → ((i : ℕ) (b : List ℕ)
          → get_elem? names i ≡ some b
          → (length b < 256 ^ 2) × (from_utf8_lossy b ≡ b))
      → Parses
          (read_many (length names) (read_name strs blank from_utf8_lossy))
          s
          (w_names names)
          names
          s
  unfolding read_many w_names
  read_names-Parses s [] h = record { run = λ rest. refl }
  read_names-Parses s (b ∷ bs) h =
      let (short, valid) = h 0 b refl in
      Parses-bind _ _ (read_name-Parses s b short valid)
        (Parses-map _ _ (read_names-Parses s bs (λ i. h (suc i))))
