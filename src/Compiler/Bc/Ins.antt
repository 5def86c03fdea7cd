-- ===== src/Compiler/Bc/Ins.antt =====
-- Instruction words of crates/luajit-rs/src/compiler/bc.rs: a 32-bit word holds the opcode in its
-- lowest byte, then A, C and B; D is B and C together, and J is D with the bias 0x8000.
pub mod Bytes
pub mod Laws
pub mod Codec
use luajit_rs.Base.{ℕ, ◌%◌, ◌^◌, bit_and, bit_or, shl, shr, complement, Run}
use luajit_rs.Base.Int.{ℤ, pos, ◌⊖◌, ◌+ℤ◌, to_u32}
use luajit_rs.Compiler.Bc.Op.{BcOp, discriminant, from_u32}

abbrev pub bcbias_j : ℕ
bcbias_j = 0x8000

unfoldable pub bc_op : ℕ → Run BcOp
bc_op i = from_u32 (bit_and i 0xff)

unfoldable pub bc_a : ℕ → ℕ
bc_a i = bit_and (shr i 8) 0xff

unfoldable pub bc_b : ℕ → ℕ
bc_b i = shr i 24

unfoldable pub bc_c : ℕ → ℕ
bc_c i = bit_and (shr i 16) 0xff

unfoldable pub bc_d : ℕ → ℕ
bc_d i = shr i 16

unfoldable pub bc_j : ℕ → ℤ
bc_j i = bc_d i ⊖ bcbias_j

-- The setters return the word that `*p` becomes.
unfoldable pub setbc_op : ℕ → ℕ → ℕ
setbc_op p x = bit_or (bit_and p (complement 0xff)) (bit_and x 0xff)

unfoldable pub setbc_a : ℕ → ℕ → ℕ
setbc_a p x = bit_or (bit_and p (complement 0xff00)) (shl (bit_and x 0xff) 8)

unfoldable pub setbc_b : ℕ → ℕ → ℕ
setbc_b p x = bit_or (bit_and p 0x00ffffff) (shl (bit_and x 0xff) 24)

unfoldable pub setbc_c : ℕ → ℕ → ℕ
setbc_c p x = bit_or (bit_and p (complement 0x00ff0000)) (shl (bit_and x 0xff) 16)

unfoldable pub setbc_d : ℕ → ℕ → ℕ
setbc_d p x = bit_or (bit_and p 0xffff) (shl (bit_and x 0xffff) 16)

unfoldable pub setbc_j : ℕ → ℤ → ℕ
setbc_j p x = setbc_d p (to_u32 (x +ℤ pos bcbias_j))

unfoldable pub bcins_abc : BcOp → ℕ → ℕ → ℕ → ℕ
bcins_abc o a b c = bit_or (bit_or (bit_or (discriminant o) (shl a 8)) (shl b 24)) (shl c 16)

unfoldable pub bcins_ad : BcOp → ℕ → ℕ → ℕ
bcins_ad o a d = bit_or (bit_or (discriminant o) (shl a 8)) (shl d 16)

unfoldable pub bcins_aj : BcOp → ℕ → ℤ → ℕ
bcins_aj o a j = bcins_ad o a (to_u32 (j +ℤ pos bcbias_j))
