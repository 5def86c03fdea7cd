-- ===== src/Compiler/Bc/Tests.antt =====
-- Runs of the bytecode format on concrete instructions.
use luajit_rs.Base.{ℕ, ◌≡◌, refl, arith, ok, panic, true}
use luajit_rs.Base.Int.{pos, negsuc}
use luajit_rs.Compiler.Bc.Op.{BcOp, from_u32, offset, is_tail_call, bc_isret_or_tail}
use luajit_rs.Compiler.Bc.Mode.{mode_tag, bcdef, bcmode_a, bcmode_b, bcmode_c}
use luajit_rs.Compiler.Bc.Mode.Laws.{bcmode-bcdef}
use luajit_rs.Compiler.Bc.Ins.{
  bc_op, bc_a, bc_b, bc_c, bc_d, bc_j, bcins_abc, bcins_ad, bcins_aj, setbc_op, setbc_a, setbc_b,
  setbc_c, setbc_d, setbc_j,
}
use luajit_rs.Compiler.Bc.Ins.Codec.{
  Reads, bcins_abc-fields, bcins_aj-fields, bcins-bc_fields, setbc-fields, setbc_j-fields,
}

offset-loop : offset BcOp.loop (pos 2) ≡ ok BcOp.jloop
unfolding offset from_u32
offset-loop = refl

from_u32-104 : from_u32 104 ≡ panic
unfolding from_u32
from_u32-104 = refl

bc_isret_or_tail-callt : bc_isret_or_tail BcOp.callt ≡ true
unfolding bc_isret_or_tail is_tail_call
bc_isret_or_tail-callt = refl

bcins_abc-call : bcins_abc BcOp.call 1 2 3 ≡ 0x02030142
unfolding bcins_abc
bcins_abc-call = refl

bcins_abc-fields_example : Reads (bcins_abc BcOp.call 1 2 3) (ok BcOp.call) 1 2 3
bcins_abc-fields_example =
    bcins_abc-fields BcOp.call 1 2 3 (omega arith) (omega arith) (omega arith)

bcins_aj-fields_example :
    (bc_op (bcins_aj BcOp.jmp 4 (negsuc 9)) ≡ ok BcOp.jmp)
    × (bc_a (bcins_aj BcOp.jmp 4 (negsuc 9)) ≡ 4)
    × (bc_j (bcins_aj BcOp.jmp 4 (negsuc 9)) ≡ negsuc 9)
bcins_aj-fields_example = bcins_aj-fields BcOp.jmp 4 (negsuc 9) (omega arith) (omega arith)

bcins-bc_fields_example :
    let x : ℕ = 0x02030142 in
    (bcins_abc BcOp.call (bc_a x) (bc_b x) (bc_c x) ≡ x)
    × (bcins_ad BcOp.call (bc_a x) (bc_d x) ≡ x)
unfolding bc_op from_u32
bcins-bc_fields_example = bcins-bc_fields BcOp.call 0x02030142 (omega arith) refl

setbc-fields_example :
    let x : ℕ = 0x02030142 in
    Reads (setbc_op x 0x101) (from_u32 1) (bc_a x) (bc_b x) (bc_c x)
    × Reads (setbc_a x 0x101) (bc_op x) 1 (bc_b x) (bc_c x)
    × Reads (setbc_b x 0x101) (bc_op x) (bc_a x) 1 (bc_c x)
    × Reads (setbc_c x 0x101) (bc_op x) (bc_a x) (bc_b x) 1
    × Reads (setbc_d x 0x101) (bc_op x) (bc_a x) 1 1
setbc-fields_example = setbc-fields 0x02030142 0x101 (omega arith)

setbc_j-fields_example :
    let x : ℕ = 0x80000158 in
    (bc_op (setbc_j x (negsuc 6)) ≡ bc_op x)
    × (bc_a (setbc_j x (negsuc 6)) ≡ bc_a x)
    × (bc_j (setbc_j x (negsuc 6)) ≡ negsuc 6)
setbc_j-fields_example = setbc_j-fields 0x80000158 (negsuc 6) (omega arith) (omega arith)

bcmode-bcdef_example :
    (bcmode_a BcOp.tgets ≡ ok (mode_tag (bcdef BcOp.tgets).ma))
    × (bcmode_b BcOp.tgets ≡ ok (mode_tag (bcdef BcOp.tgets).mb))
    × (bcmode_c BcOp.tgets ≡ ok (mode_tag (bcdef BcOp.tgets).mc))
bcmode-bcdef_example = bcmode-bcdef BcOp.tgets
