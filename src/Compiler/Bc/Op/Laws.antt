-- ===== src/Compiler/Bc/Op/Laws.antt =====
-- The opcode numbering of crates/luajit-rs/src/compiler/bc.rs.
use luajit_rs.Base.{
  ℕ, zero, suc, ◌+◌, ◌<◌, ◌^◌, ◌≡◌, refl, ◌∙◌, arith, ok, at, Bool, true, ◌&&◌, ◌==◌, List, [], ◌∷◌,
  some, get_elem?, guarded-eq-ok, ltb, ◌%◌,
}
use luajit_rs.Compiler.Bc.Op.{BcOp, discriminant, all_ops, bc_max, from_u32}

pub at-all_ops : (op : BcOp) → at all_ops (discriminant op) ≡ ok op
at-all_ops op = ground arith

pub discriminant-lt : (op : BcOp) → discriminant op < bc_max
discriminant-lt op = ground arith

pub from_u32-discriminant : (op : BcOp) → from_u32 (discriminant op) ≡ ok op
unfolding from_u32
from_u32-discriminant op = ground arith

-- The list counts the discriminants up.
abbrev numbered : ℕ → List BcOp → Bool
numbered n [] = true
numbered n (op ∷ ops) = (discriminant op == n) && numbered (suc n) ops

get_elem?-numbered :
    (n i : ℕ) (ops : List BcOp) (op : BcOp)
    → numbered n ops ≡ true
    → get_elem? ops i ≡ some op
    → discriminant op ≡ n + i
get_elem?-numbered n i [] op h e = cc
get_elem?-numbered n zero (op' ∷ ops) op h e = ground arith
get_elem?-numbered n (suc i) (op' ∷ ops) op h e =
    omega (arith, get_elem?-numbered (suc n) i ops op (ground arith) e)

-- `from_u32` returns an opcode only for its own discriminant.
pub from_u32-ok : (i : ℕ) (op : BcOp) → i < 2 ^ 8 → from_u32 i ≡ ok op → discriminant op ≡ i
unfolding from_u32
from_u32-ok i op hi e =
    get_elem?-numbered 0 (i % 2 ^ 8) all_ops op refl
      (guarded-eq-ok (ltb i bc_max) (get_elem? all_ops (i % 2 ^ 8)) e)
    ∙ omega arith
