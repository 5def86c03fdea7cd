-- ===== src/Compiler/Bc/Ins/Codec.antt =====
-- Instruction words built and read back, of crates/luajit-rs/src/compiler/bc.rs.
use luajit_rs.Base.{ℕ, ◌+◌, ◌*◌, ◌/◌, ◌%◌, ◌^◌, ◌<◌, ◌≡◌, sym, ap, ◌∙◌, arith, Run, ok, subst}
use luajit_rs.Base.Int.{ℤ, pos, negsuc, ◌⊖◌, ◌+ℤ◌, to_u32}
use luajit_rs.Compiler.Bc.Op.{BcOp, discriminant, from_u32}
use luajit_rs.Compiler.Bc.Op.Laws.{discriminant-lt, from_u32-discriminant, from_u32-ok}
use luajit_rs.Compiler.Bc.Ins.{
  bcbias_j, bc_op, bc_a, bc_b, bc_c, bc_d, bc_j, bcins_abc, bcins_ad, bcins_aj, setbc_op, setbc_a,
  setbc_b, setbc_c, setbc_d, setbc_j,
}
use luajit_rs.Compiler.Bc.Ins.Bytes.{word}
use luajit_rs.Compiler.Bc.Ins.Laws.{
  bc_op-word, bc_a-word, bc_b-word, bc_c-word, bc_d-word, bcins_abc-word, bcins_ad-word,
  word-fields, setbc_op-word, setbc_a-word, setbc_b-word, setbc_c-word, setbc_d-word,
}

discriminant-byte : (o : BcOp) → discriminant o < 2 ^ 8
discriminant-byte o = omega (arith, discriminant-lt o)

-- A 32-bit word whose fields read as an opcode and the operands A, B and C.
abbrev pub Reads : ℕ → Run BcOp → ℕ → ℕ → ℕ → Type 0
Reads i o a b c = (bc_op i ≡ o) × (bc_a i ≡ a) × (bc_b i ≡ b) × (bc_c i ≡ c) × (i < 2 ^ 32)

word-Reads :
    (o a c b : ℕ)
    → (o < 2 ^ 8) × (a < 2 ^ 8) × (c < 2 ^ 8) × (b < 2 ^ 8)
    → Reads (word o a c b) (from_u32 o) a b c
word-Reads o a c b (ho, ha, hc, hb) = (
  bc_op-word o a c b ho,
  bc_a-word o a c b ho ha,
  bc_b-word o a c b ho ha hc,
  bc_c-word o a c b ho ha hc,
  omega arith,
)

-- An instruction built from an opcode and three operands of 8 bits is a 32-bit word, and reading
-- its fields returns the opcode and the operands.
pub bcins_abc-fields :
    (o : BcOp) (a b c : ℕ)
    → a < 2 ^ 8
    → b < 2 ^ 8
    → c < 2 ^ 8
    → Reads (bcins_abc o a b c) (ok o) a b c
bcins_abc-fields o a b c ha hb hc =
    rw (bcins_abc-word o a b c ha hb hc, sym (from_u32-discriminant o))
      (word-Reads (discriminant o) a c b (discriminant-byte o, ha, hc, hb))

-- An instruction built from an opcode, an operand of 8 bits and one of 16 bits is a 32-bit word,
-- and reading its fields returns the opcode and the operands.
pub bcins_ad-fields :
    (o : BcOp) (a d : ℕ)
    → a < 2 ^ 8
    → d < 2 ^ 16
    → let i = bcins_ad o a d in (bc_op i ≡ ok o) × (bc_a i ≡ a) × (bc_d i ≡ d) × (i < 2 ^ 32)
bcins_ad-fields o a d ha hd =
    let ho = discriminant-byte o in
    let hc : d % 2 ^ 8 < 2 ^ 8 = omega arith in
    rw (bcins_ad-word o a d ha hd) (
      bc_op-word _ a (d % 2 ^ 8) (d / 2 ^ 8) ho ∙ from_u32-discriminant o,
      bc_a-word _ a (d % 2 ^ 8) (d / 2 ^ 8) ho ha,
      bc_d-word _ a (d % 2 ^ 8) (d / 2 ^ 8) ho ha hc ∙ omega arith,
      omega (arith, ho),
    )

-- The jump offsets that fit the biased 16-bit operand.
abbrev pub IsJump : ℤ → Type 0
IsJump (pos n) = n < 2 ^ 15
IsJump (negsuc n) = n < 2 ^ 15

biased :
    (j : ℤ)
    → IsJump j
    → (to_u32 (j +ℤ pos bcbias_j) < 2 ^ 16) × (to_u32 (j +ℤ pos bcbias_j) ⊖ bcbias_j ≡ j)
biased (pos n) h = ground arith
biased (negsuc n) h = ground arith

-- An instruction built with a jump offset from -32768 to 32767 and an operand of 8 bits returns
-- the opcode, the operand and the offset when its fields are read.
pub bcins_aj-fields :
    (o : BcOp) (a : ℕ) (j : ℤ)
    → a < 2 ^ 8
    → IsJump j
    → let i = bcins_aj o a j in (bc_op i ≡ ok o) × (bc_a i ≡ a) × (bc_j i ≡ j)
unfolding bcins_aj bc_j
bcins_aj-fields o a j ha hj =
    let (bound, back) = biased j hj in
    let (ro, ra, rd, small) = bcins_ad-fields o a (to_u32 (j +ℤ pos bcbias_j)) ha bound in
    (ro, ra, ap (λ d. d ⊖ bcbias_j) rd ∙ back)

-- A statement about the 32-bit words that holds of four bytes put together.
by_bytes :
    (P : ℕ → Type 0)
    → ((o a c b : ℕ) → (o < 2 ^ 8) × (a < 2 ^ 8) × (c < 2 ^ 8) × (b < 2 ^ 8) → P (word o a c b))
    → (x : ℕ) → x < 2 ^ 32
    → P x
by_bytes P f x hx = subst P (sym (word-fields x hx)) (f _ _ _ _ (omega arith))

-- The two layouts agree with a word.
abbrev Rebuilt : BcOp → ℕ → Type 0
Rebuilt o x = (bcins_abc o (bc_a x) (bc_b x) (bc_c x) ≡ x) × (bcins_ad o (bc_a x) (bc_d x) ≡ x)

-- Each setter changes its field only.
abbrev Written : ℕ → ℕ → Type 0
Written v x =
    Reads (setbc_op x v) (from_u32 (v % 2 ^ 8)) (bc_a x) (bc_b x) (bc_c x)
    × Reads (setbc_a x v) (bc_op x) (v % 2 ^ 8) (bc_b x) (bc_c x)
    × Reads (setbc_b x v) (bc_op x) (bc_a x) (v % 2 ^ 8) (bc_c x)
    × Reads (setbc_c x v) (bc_op x) (bc_a x) (bc_b x) (v % 2 ^ 8)
    × Reads (setbc_d x v) (bc_op x) (bc_a x) (v / 2 ^ 8 % 2 ^ 8) (v % 2 ^ 8)

-- A 32-bit word whose lowest byte is an opcode is rebuilt from its fields, read as A, B and C or
-- read as A and D.
pub bcins-bc_fields :
    (o : BcOp) (x : ℕ)
    → x < 2 ^ 32
    → bc_op x ≡ ok o
    → (bcins_abc o (bc_a x) (bc_b x) (bc_c x) ≡ x) × (bcins_ad o (bc_a x) (bc_d x) ≡ x)
bcins-bc_fields o x hx ho = by_bytes (λ x. bc_op x ≡ ok o → Rebuilt o x) rebuilt x hx ho
  where
    rebuilt :
        (u a c b : ℕ)
        → (u < 2 ^ 8) × (a < 2 ^ 8) × (c < 2 ^ 8) × (b < 2 ^ 8)
        → bc_op (word u a c b) ≡ ok o
        → Rebuilt o (word u a c b)
    rebuilt u a c b (hu, ha, hc, hb) e =
        let e' = from_u32-ok u o hu (sym (bc_op-word u a c b hu) ∙ e) in
        let (ro, ra, rb, rc, lt) = word-Reads u a c b (hu, ha, hc, hb) in
        rw (ra, rb, rc, bc_d-word u a c b hu ha hc)
          (
            bcins_abc-word o a b c ha hb hc ∙ ap (λ t. word t a c b) e',
            bcins_ad-word o a (b * 2 ^ 8 + c) ha (omega arith) ∙ omega (arith, e'),
          )

-- Writing a field of a 32-bit word puts the low bits of the value there (8, or 16 for the operand
-- D) and leaves the other fields as they were.
pub setbc-fields :
    (x v : ℕ)
    → x < 2 ^ 32
    → Reads (setbc_op x v) (from_u32 (v % 2 ^ 8)) (bc_a x) (bc_b x) (bc_c x)
      × Reads (setbc_a x v) (bc_op x) (v % 2 ^ 8) (bc_b x) (bc_c x)
      × Reads (setbc_b x v) (bc_op x) (bc_a x) (v % 2 ^ 8) (bc_c x)
      × Reads (setbc_c x v) (bc_op x) (bc_a x) (bc_b x) (v % 2 ^ 8)
      × Reads (setbc_d x v) (bc_op x) (bc_a x) (v / 2 ^ 8 % 2 ^ 8) (v % 2 ^ 8)
setbc-fields x v hx = by_bytes (Written v) written x hx
  where
    written :
        (o a c b : ℕ)
        → (o < 2 ^ 8) × (a < 2 ^ 8) × (c < 2 ^ 8) × (b < 2 ^ 8)
        → Written v (word o a c b)
    written o a c b (ho, ha, hc, hb) =
        let (ro, ra, rb, rc, lt) = word-Reads o a c b (ho, ha, hc, hb) in
        rw
          (
            setbc_op-word o a c b v (ho, ha, hc, hb),
            setbc_a-word o a c b v (ho, ha, hc, hb),
            setbc_b-word o a c b v (ho, ha, hc, hb),
            setbc_c-word o a c b v (ho, ha, hc, hb),
            setbc_d-word o a c b v (ho, ha, hc, hb),
            ro,
            ra,
            rb,
            rc,
          )
          (
            word-Reads (v % 2 ^ 8) a c b (omega arith),
            word-Reads o (v % 2 ^ 8) c b (omega arith),
            word-Reads o a c (v % 2 ^ 8) (omega arith),
            word-Reads o a (v % 2 ^ 8) b (omega arith),
            word-Reads o a (v % 2 ^ 8) (v / 2 ^ 8 % 2 ^ 8) (omega arith),
          )

-- Writing a jump offset from -32768 to 32767 into a 32-bit word leaves the opcode and the operand A, and the offset
-- is what the word then reads as.
pub setbc_j-fields :
    (x : ℕ) (j : ℤ)
    → x < 2 ^ 32
    → IsJump j
    → (bc_op (setbc_j x j) ≡ bc_op x) × (bc_a (setbc_j x j) ≡ bc_a x) × (bc_j (setbc_j x j) ≡ j)
unfolding setbc_j bc_j
setbc_j-fields x j hx hj = by_bytes Jump jump x hx
  where
    d : ℕ
    d = to_u32 (j +ℤ pos bcbias_j)

    Jump : ℕ → Type 0
    Jump x =
        (bc_op (setbc_d x d) ≡ bc_op x)
        × (bc_a (setbc_d x d) ≡ bc_a x)
        × (bc_d (setbc_d x d) ⊖ bcbias_j ≡ j)

    jump :
        (o a c b : ℕ) → (o < 2 ^ 8) × (a < 2 ^ 8) × (c < 2 ^ 8) × (b < 2 ^ 8) → Jump (word o a c b)
    jump o a c b (ho, ha, hc, hb) =
        let (bound, back) = biased j hj in
        rw (setbc_d-word o a c b d (ho, ha, hc, hb)) (
          bc_op-word o a (d % 2 ^ 8) (d / 2 ^ 8 % 2 ^ 8) ho ∙ sym (bc_op-word o a c b ho),
          bc_a-word o a (d % 2 ^ 8) (d / 2 ^ 8 % 2 ^ 8) ho ha ∙ sym (bc_a-word o a c b ho ha),
          ap (λ t. t ⊖ bcbias_j)
                (bc_d-word o a (d % 2 ^ 8) (d / 2 ^ 8 % 2 ^ 8) ho ha (omega arith)
                  ∙ omega (arith, bound))
              ∙ back,
        )
