-- ===== src/Compiler/Bc/Mode/Laws.antt =====
-- The packed instruction table of crates/luajit-rs/src/compiler/bc.rs against the table it packs.
use luajit_rs.Base.{◌≡◌, arith, ok}
use luajit_rs.Compiler.Bc.Op.{BcOp}
use luajit_rs.Compiler.Bc.Mode.{mode_tag, bcdef, bcmode_a, bcmode_b, bcmode_c}

-- The readers of the packed table return, for each opcode and without a panic, the modes that its
-- row of the instruction table names: no mode spills out of its bits of the 16-bit entry.
pub bcmode-bcdef :
    (op : BcOp)
    → (bcmode_a op ≡ ok (mode_tag (bcdef op).ma))
      × (bcmode_b op ≡ ok (mode_tag (bcdef op).mb))
      × (bcmode_c op ≡ ok (mode_tag (bcdef op).mc))
unfolding bcmode_a bcmode_b bcmode_c
bcmode-bcdef op = (ground arith, ground arith, ground arith)
