-- ===== src/Compiler/Bc/Ins/Laws.antt =====
-- Reading, writing and building the fields of instruction words, of
-- crates/luajit-rs/src/compiler/bc.rs, in terms of the four bytes.
use luajit_rs.Base.{
  ℕ, ◌+◌, ◌*◌, ◌/◌, ◌%◌, ◌^◌, ◌<◌, ◌≡◌, refl, ap, ◌∙◌, arith, bit_or, bit_or-zero, zero-bit_or,
  bit_and-zero, bit_and-low, bit_and-mask, shl,
}
use luajit_rs.Compiler.Bc.Op.{BcOp, discriminant, from_u32}
use luajit_rs.Compiler.Bc.Op.Laws.{discriminant-lt}
use luajit_rs.Compiler.Bc.Ins.{
  bc_op, bc_a, bc_b, bc_c, bc_d, setbc_op, setbc_a, setbc_b, setbc_c, setbc_d, bcins_abc, bcins_ad,
}
use luajit_rs.Compiler.Bc.Ins.Bytes.{word, bit_or-word, bit_and-word}

pub bc_op-word : (o a c b : ℕ) → o < 2 ^ 8 → bc_op (word o a c b) ≡ from_u32 o
unfolding bc_op
bc_op-word o a c b ho = ap from_u32 (bit_and-mask 8 (word o a c b) ∙ omega arith)

pub bc_a-word : (o a c b : ℕ) → o < 2 ^ 8 → a < 2 ^ 8 → bc_a (word o a c b) ≡ a
unfolding bc_a
bc_a-word o a c b ho ha = bit_and-mask 8 (word o a c b / 2 ^ 8) ∙ omega arith

pub bc_c-word : (o a c b : ℕ) → o < 2 ^ 8 → a < 2 ^ 8 → c < 2 ^ 8 → bc_c (word o a c b) ≡ c
unfolding bc_c
bc_c-word o a c b ho ha hc = bit_and-mask 8 (word o a c b / 2 ^ 16) ∙ omega arith

pub bc_b-word : (o a c b : ℕ) → o < 2 ^ 8 → a < 2 ^ 8 → c < 2 ^ 8 → bc_b (word o a c b) ≡ b
unfolding bc_b
bc_b-word o a c b ho ha hc = omega arith

pub bc_d-word :
    (o a c b : ℕ) → o < 2 ^ 8 → a < 2 ^ 8 → c < 2 ^ 8 → bc_d (word o a c b) ≡ b * 2 ^ 8 + c
unfolding bc_d
bc_d-word o a c b ho ha hc = omega arith

pub setbc_op-word :
    (o a c b v : ℕ)
    → (o < 2 ^ 8) × (a < 2 ^ 8) × (c < 2 ^ 8) × (b < 2 ^ 8)
    → setbc_op (word o a c b) v ≡ word (v % 2 ^ 8) a c b
unfolding setbc_op
setbc_op-word o a c b v (ho, ha, hc, hb) =
    rw
      (
        bit_and-word o a c b 0 255 255 255 (ho, ha, hc) (omega arith),
        bit_and-zero o,
        bit_and-low 8 a ha,
        bit_and-low 8 c hc,
        bit_and-low 8 b hb,
        bit_and-mask 8 v,
        moved,
        bit_or-word 0 a c b (v % 2 ^ 8) 0 0 0 (omega arith) (omega arith),
        zero-bit_or (v % 2 ^ 8),
        bit_or-zero a,
        bit_or-zero c,
        bit_or-zero b,
      )
      (omega arith)
  where
    moved : v % 2 ^ 8 ≡ word (v % 2 ^ 8) 0 0 0
    moved = omega arith

pub setbc_a-word :
    (o a c b v : ℕ)
    → (o < 2 ^ 8) × (a < 2 ^ 8) × (c < 2 ^ 8) × (b < 2 ^ 8)
    → setbc_a (word o a c b) v ≡ word o (v % 2 ^ 8) c b
unfolding setbc_a
setbc_a-word o a c b v (ho, ha, hc, hb) =
    rw
      (
        bit_and-word o a c b 255 0 255 255 (ho, ha, hc) (omega arith),
        bit_and-low 8 o ho,
        bit_and-zero a,
        bit_and-low 8 c hc,
        bit_and-low 8 b hb,
        bit_and-mask 8 v,
        moved,
        bit_or-word o 0 c b 0 (v % 2 ^ 8) 0 0 (omega arith) (omega arith),
        bit_or-zero o,
        zero-bit_or (v % 2 ^ 8),
        bit_or-zero c,
        bit_or-zero b,
      )
      refl
  where
    moved : shl (v % 2 ^ 8) 8 ≡ word 0 (v % 2 ^ 8) 0 0
    moved = omega arith

pub setbc_b-word :
    (o a c b v : ℕ)
    → (o < 2 ^ 8) × (a < 2 ^ 8) × (c < 2 ^ 8) × (b < 2 ^ 8)
    → setbc_b (word o a c b) v ≡ word o a c (v % 2 ^ 8)
unfolding setbc_b
setbc_b-word o a c b v (ho, ha, hc, hb) =
    rw
      (
        bit_and-word o a c b 255 255 255 0 (ho, ha, hc) (omega arith),
        bit_and-low 8 o ho,
        bit_and-low 8 a ha,
        bit_and-low 8 c hc,
        bit_and-zero b,
        bit_and-mask 8 v,
        moved,
        bit_or-word o a c 0 0 0 0 (v % 2 ^ 8) (omega arith) (omega arith),
        bit_or-zero o,
        bit_or-zero a,
        bit_or-zero c,
        zero-bit_or (v % 2 ^ 8),
      )
      refl
  where
    moved : shl (v % 2 ^ 8) 24 ≡ word 0 0 0 (v % 2 ^ 8)
    moved = omega arith

pub setbc_c-word :
    (o a c b v : ℕ)
    → (o < 2 ^ 8) × (a < 2 ^ 8) × (c < 2 ^ 8) × (b < 2 ^ 8)
    → setbc_c (word o a c b) v ≡ word o a (v % 2 ^ 8) b
unfolding setbc_c
setbc_c-word o a c b v (ho, ha, hc, hb) =
    rw
      (
        bit_and-word o a c b 255 255 0 255 (ho, ha, hc) (omega arith),
        bit_and-low 8 o ho,
        bit_and-low 8 a ha,
        bit_and-zero c,
        bit_and-low 8 b hb,
        bit_and-mask 8 v,
        moved,
        bit_or-word o a 0 b 0 0 (v % 2 ^ 8) 0 (omega arith) (omega arith),
        bit_or-zero o,
        bit_or-zero a,
        zero-bit_or (v % 2 ^ 8),
        bit_or-zero b,
      )
      refl
  where
    moved : shl (v % 2 ^ 8) 16 ≡ word 0 0 (v % 2 ^ 8) 0
    moved = omega arith

pub setbc_d-word :
    (o a c b v : ℕ)
    → (o < 2 ^ 8) × (a < 2 ^ 8) × (c < 2 ^ 8) × (b < 2 ^ 8)
    → setbc_d (word o a c b) v ≡ word o a (v % 2 ^ 8) (v / 2 ^ 8 % 2 ^ 8)
unfolding setbc_d
setbc_d-word o a c b v (ho, ha, hc, hb) =
    rw
      (
        bit_and-word o a c b 255 255 0 0 (ho, ha, hc) (omega arith),
        bit_and-low 8 o ho,
        bit_and-low 8 a ha,
        bit_and-zero c,
        bit_and-zero b,
        bit_and-mask 16 v,
        moved,
        bit_or-word o a 0 0 0 0 (v % 2 ^ 8) (v / 2 ^ 8 % 2 ^ 8) (omega arith) (omega arith),
        bit_or-zero o,
        bit_or-zero a,
        zero-bit_or (v % 2 ^ 8),
        zero-bit_or (v / 2 ^ 8 % 2 ^ 8),
      )
      refl
  where
    moved : shl (v % 2 ^ 16) 16 ≡ word 0 0 (v % 2 ^ 8) (v / 2 ^ 8 % 2 ^ 8)
    moved = omega arith

module _ (d a : ℕ) (hd : d < 2 ^ 8) (ha : a < 2 ^ 8) where
  head-word : bit_or d (shl a 8) ≡ word d a 0 0
  head-word =
      rw
        (
          first,
          second,
          bit_or-word d 0 0 0 0 a 0 0 (omega arith) (omega arith),
          bit_or-zero d,
          zero-bit_or a,
        )
        refl
    where
      first : bit_or d (shl a 8) ≡ bit_or (word d 0 0 0) (shl a 8)
      first = ap (λ t. bit_or t (shl a 8)) (omega arith)

      second : shl a 8 ≡ word 0 a 0 0
      second = omega arith

  abc-word :
      (b c : ℕ)
      → b < 2 ^ 8
      → c < 2 ^ 8
      → bit_or (bit_or (bit_or d (shl a 8)) (shl b 24)) (shl c 16) ≡ word d a c b
  abc-word b c hb hc =
      rw
        (
          head-word,
          moved_b,
          moved_c,
          bit_or-word d a 0 0 0 0 0 b (omega arith) (omega arith),
          bit_or-zero d,
          bit_or-zero a,
          zero-bit_or b,
          bit_or-word d a 0 b 0 0 c 0 (omega arith) (omega arith),
          bit_or-zero d,
          bit_or-zero a,
          zero-bit_or c,
          bit_or-zero b,
        )
        refl
    where
      moved_b : shl b 24 ≡ word 0 0 0 b
      moved_b = omega arith

      moved_c : shl c 16 ≡ word 0 0 c 0
      moved_c = omega arith

  ad-word :
      (e : ℕ)
      → e < 2 ^ 16
      → bit_or (bit_or d (shl a 8)) (shl e 16) ≡ word d a (e % 2 ^ 8) (e / 2 ^ 8)
  ad-word e he =
      rw
        (
          head-word,
          moved,
          bit_or-word d a 0 0 0 0 (e % 2 ^ 8) (e / 2 ^ 8) (omega arith) (omega arith),
          bit_or-zero d,
          bit_or-zero a,
          zero-bit_or (e % 2 ^ 8),
          zero-bit_or (e / 2 ^ 8),
        )
        refl
    where
      moved : shl e 16 ≡ word 0 0 (e % 2 ^ 8) (e / 2 ^ 8)
      moved = omega arith

pub bcins_abc-word :
    (o : BcOp) (a b c : ℕ)
    → a < 2 ^ 8
    → b < 2 ^ 8
    → c < 2 ^ 8
    → bcins_abc o a b c ≡ word (discriminant o) a c b
unfolding bcins_abc
bcins_abc-word o a b c ha hb hc =
    abc-word (discriminant o) a (omega (arith, discriminant-lt o)) ha b c hb hc

pub bcins_ad-word :
    (o : BcOp) (a e : ℕ)
    → a < 2 ^ 8
    → e < 2 ^ 16
    → bcins_ad o a e ≡ word (discriminant o) a (e % 2 ^ 8) (e / 2 ^ 8)
unfolding bcins_ad
bcins_ad-word o a e ha he = ad-word (discriminant o) a (omega (arith, discriminant-lt o)) ha e he

-- Every 32-bit word is made of its four fields.
pub word-fields :
    (x : ℕ)
    → x < 2 ^ 32
    → x ≡ word (x % 2 ^ 8) (x / 2 ^ 8 % 2 ^ 8) (x / 2 ^ 16 % 2 ^ 8) (x / 2 ^ 24)
word-fields x hx = omega arith
