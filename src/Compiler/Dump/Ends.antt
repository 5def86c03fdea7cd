-- ===== src/Compiler/Dump/Ends.antt =====
-- The nesting that `read_proto` of crates/luajit-rs/src/compiler/undump.rs can meet: a child takes a byte
-- of the data, so that a fuel above the length of the data is enough.
use luajit_rs.Base.{
  ℕ, zero, suc, ◌≤◌, ◌<◌, arith, Bool, true, false, List, [], ◌∷◌, length, ◌==◌, Run, ok, panic,
  no_fuel, if◌then◌else◌,
}
use luajit_rs.Compiler.Dump.Proto.{Proto, Interner}
use luajit_rs.Compiler.Dump.Reader.{
  P, read_on, ◌>>=◌, read_u8, read_le, read_bytes, read_many, read_kstrv, Blank, read_string,
  read_source, read_name, read_kgc, read_kgcs, read_body, read_proto,
}

-- a result within the fuel that leaves at most `n` bytes
abbrev pub Left : {I A : Type 0} → ℕ → Run (A × I × List ℕ) → Type 0
Left n (ok (a, s, rest)) = length rest ≤ n
Left n panic = Unit {0}
Left n no_fuel = ⊥

module _ {I : Type 0} where
  -- On fewer than `n` bytes the reader stays within its fuel and does not move back.
  abbrev pub Reads : {A : Type 0} → ℕ → P I A → Type 0
  Reads n m = (s : I) (bytes : List ℕ) → length bytes < n → Left (length bytes) (m s bytes)

  Left-weaken : {A : Type 0} (a b : ℕ) (r : Run (A × I × List ℕ)) → a ≤ b → Left a r → Left b r
  Left-weaken a b (ok (x, s, rest)) le h = omega (arith, h)
  Left-weaken a b panic le h = tt
  Left-weaken a b no_fuel le h = h

  read_on-Left :
      {A B : Type 0} (n k : ℕ) (r : Run (A × I × List ℕ)) (f : A → P I B)
      → Left k r
      → k < n
      → ((a : A) → Reads n (f a))
      → Left k (read_on r f)
  read_on-Left n k (ok (a, s, rest)) f h lt next =
      Left-weaken (length rest) k (f a s rest) h (next a s rest (omega (arith, h)))
  read_on-Left n k panic f h lt next = tt
  read_on-Left n k no_fuel f h lt next = absurd h

  >>=-Reads :
      {A B : Type 0} (n : ℕ) (m : P I A) (f : A → P I B)
      → Reads n m
      → ((a : A) → Reads n (f a))
      → Reads n (m >>= f)
  >>=-Reads n m f h next s bytes lt =
      read_on-Left n (length bytes) (m s bytes) f (h s bytes lt) lt next

  if-Reads :
      {A : Type 0} (n : ℕ) (b : Bool) (m k : P I A)
      → Reads n m
      → Reads n k
      → Reads n (if b then m else k)
  if-Reads n true m k h g = h
  if-Reads n false m k h g = g

  read_u8-Reads : (n : ℕ) → Reads n read_u8
  unfolding read_u8
  read_u8-Reads n s [] lt = tt
  read_u8-Reads n s (b ∷ bytes) lt = omega arith

  -- behind a byte the rest of the reading may nest one less
  read_u8-step :
      {A : Type 0} (n : ℕ) (f : ℕ → P I A)
      → ((b : ℕ) → Reads n (f b))
      → Reads (suc n) (read_u8 >>= f)
  unfolding read_u8
  read_u8-step n f next s [] lt = tt
  read_u8-step n f next s (b ∷ bytes) lt =
      Left-weaken (length bytes) (suc (length bytes)) (f b s bytes) (omega arith)
        (next b s bytes (omega arith))

  read_le-Reads : (n k : ℕ) → Reads n (read_le k)
  unfolding read_le
  read_le-Reads n zero = λ s rest lt. omega arith
  read_le-Reads n (suc k) =
      >>=-Reads n read_u8 _ (read_u8-Reads n)
        (λ b. >>=-Reads n (read_le k) _ (read_le-Reads n k) (λ v. λ s rest lt. omega arith))

  read_bytes-Reads : (n k : ℕ) → Reads n (read_bytes k)
  unfolding read_bytes
  read_bytes-Reads n zero = λ s rest lt. omega arith
  read_bytes-Reads n (suc k) =
      >>=-Reads n read_u8 _ (read_u8-Reads n)
        (λ b. >>=-Reads n (read_bytes k) _ (read_bytes-Reads n k) (λ bs. λ s rest lt. omega arith))

  read_many-Reads : {A : Type 0} (n k : ℕ) (m : P I A) → Reads n m → Reads n (read_many k m)
  unfolding read_many
  read_many-Reads n zero m h = λ s rest lt. omega arith
  read_many-Reads n (suc k) m h = >>=-Reads n m _ h (λ a.
      >>=-Reads n (read_many k m) _ (read_many-Reads n k m h) (λ as'. λ s rest lt. omega arith))

  read_kstrv-Reads : (n : ℕ) → Reads n read_kstrv
  unfolding read_kstrv
  read_kstrv-Reads n =
      >>=-Reads n (read_le 4) _ (read_le-Reads n 4) (λ raw. λ s rest lt. omega arith)

module _ {I T C : Type 0} (strs : Interner I) (blank : Blank T C)
    (from_utf8_lossy : List ℕ → List ℕ) where
  read_string-Reads : (n : ℕ) → Reads n (read_string strs blank from_utf8_lossy)
  unfolding read_string
  read_string-Reads n =
      >>=-Reads n (read_le 4) _ (read_le-Reads n 4) (λ len.
        >>=-Reads n (read_bytes len) _ (read_bytes-Reads n len) (λ bs s rest lt. omega arith))

  read_source-Reads : (n : ℕ) → Reads n (read_source strs blank from_utf8_lossy)
  unfolding read_source
  read_source-Reads n = >>=-Reads n read_u8 _ (read_u8-Reads n) (λ b.
      if-Reads n (b == 0) _ _ (λ s rest lt. omega arith)
        (>>=-Reads n (read_string strs blank from_utf8_lossy) _ (read_string-Reads n)
          (λ sid. λ s rest lt. omega arith)))

  read_name-Reads : (n : ℕ) → Reads n (read_name strs blank from_utf8_lossy)
  unfolding read_name
  read_name-Reads n = >>=-Reads n (read_le 2) _ (read_le-Reads n 2) (λ len.
      >>=-Reads n (read_bytes len) _ (read_bytes-Reads n len) (λ bs. λ s rest lt. omega arith))

  module _ (n : ℕ) (again : P I (Proto T C)) (again-Reads : Reads n again) where
    read_kgc-Reads : Reads (suc n) (read_kgc strs blank from_utf8_lossy again)
    unfolding read_kgc
    read_kgc-Reads = read_u8-step n _ (λ tag.
        if-Reads n (tag == 0) _ _
          (>>=-Reads n (read_string strs blank from_utf8_lossy) _ (read_string-Reads n)
            (λ sid. λ s rest lt. omega arith))
          (if-Reads n (tag == 1) _ _
            (>>=-Reads n again _ again-Reads (λ p. λ s rest lt. omega arith))
            (if-Reads n (tag == 2) _ _ (λ s rest lt. omega arith)
              (if-Reads n (tag == 3) _ _ (λ s rest lt. omega arith) (λ s rest lt. tt)))))

    read_kgcs-Reads : (k : ℕ) → Reads (suc n) (read_kgcs strs blank from_utf8_lossy again k)
    unfolding read_kgcs
    read_kgcs-Reads zero = λ s rest lt. omega arith
    read_kgcs-Reads (suc k) =
        >>=-Reads (suc n) (read_kgc strs blank from_utf8_lossy again) _ read_kgc-Reads (λ x.
          >>=-Reads (suc n) (read_kgcs strs blank from_utf8_lossy again k) _ (read_kgcs-Reads k)
            (λ ks. λ s rest lt. omega arith))

    number :
        {A : Type 0} (k : ℕ) (f : ℕ → P I A)
        → ((v : ℕ) → Reads (suc n) (f v))
        → Reads (suc n) (read_le k >>= f)
    number k f = >>=-Reads (suc n) (read_le k) f (read_le-Reads (suc n) k)

    byte :
        {A : Type 0} (f : ℕ → P I A)
        → ((v : ℕ) → Reads (suc n) (f v))
        → Reads (suc n) (read_u8 >>= f)
    byte f = >>=-Reads (suc n) read_u8 f (read_u8-Reads (suc n))

    many :
        {A B : Type 0} (k : ℕ) (m : P I A) (f : List A → P I B)
        → Reads (suc n) m
        → ((v : List A) → Reads (suc n) (f v))
        → Reads (suc n) (read_many k m >>= f)
    many k m f h = >>=-Reads (suc n) (read_many k m) f (read_many-Reads (suc n) k m h)

    read_body-Reads : Reads (suc n) (read_body strs blank from_utf8_lossy again)
    unfolding read_body
    read_body-Reads = number 2 _ (λ flags. byte _ (λ numparams. byte _ (λ framesize.
        number 4 _ (λ bc_len. number 4 _ (λ kgc_len. number 4 _ (λ kn_len. number 4 _ (λ kstrv_len.
          number 4 _ (λ uv_len. number 4 _ (λ uvnames_len. number 4 _ (λ firstline.
            number 4 _ (λ numline.
              >>=-Reads (suc n) (read_source strs blank from_utf8_lossy) _
                (read_source-Reads (suc n))
                (λ source. many bc_len (read_le 4) _ (read_le-Reads (suc n) 4) (λ bc.
                  many bc_len (read_le 4) _ (read_le-Reads (suc n) 4) (λ lines.
                    many kn_len (read_le 8) _ (read_le-Reads (suc n) 8) (λ kn.
                      many kstrv_len read_kstrv _ (read_kstrv-Reads (suc n)) (λ kstrv.
                        many uv_len (read_le 2) _ (read_le-Reads (suc n) 2) (λ uv.
                          many uvnames_len (read_name strs blank from_utf8_lossy) _
                            (read_name-Reads (suc n))
                            (λ uvnames.
                              >>=-Reads (suc n) (read_kgcs strs blank from_utf8_lossy again kgc_len)
                                _ (read_kgcs-Reads kgc_len)
                                (λ kgc. λ s rest lt. omega arith)))))))))))))))))))

  -- `read_proto` with a fuel above the number of bytes ends within it.
  pub read_proto-Reads : (fuel : ℕ) → Reads fuel (read_proto strs blank from_utf8_lossy fuel)
  unfolding read_proto
  read_proto-Reads zero = λ s bytes lt. absurd (omega arith)
  read_proto-Reads (suc fuel) =
      read_body-Reads fuel (read_proto strs blank from_utf8_lossy fuel) (read_proto-Reads fuel)
