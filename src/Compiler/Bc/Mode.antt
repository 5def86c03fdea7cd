-- ===== src/Compiler/Bc/Mode.antt =====
-- The operand modes of crates/luajit-rs/src/compiler/bc.rs: `BCMode`, the instruction table
-- `bcdef`, its packed form `BC_MODE` and the three readers of it.
pub mod Laws
use luajit_rs.Base.{ℕ, ◌*◌, ◌^◌, List, [], ◌∷◌, bit_and, bit_or, shr, Run, ok, at, ◌>>=◌}
use luajit_rs.Compiler.Bc.Op.{BcOp, discriminant, all_ops}

pub data BcMode : Type 0 where
  no_operand : BcMode
  dst : BcMode
  base : BcMode
  var : BcMode
  rbase : BcMode
  uv : BcMode
  lit : BcMode
  lits : BcMode
  pri : BcMode
  num : BcMode
  str : BcMode
  tab : BcMode
  func : BcMode
  jump : BcMode
  cdata : BcMode

abbrev pub mode_tag : BcMode → ℕ
mode_tag BcMode.no_operand = 0
mode_tag BcMode.dst = 1
mode_tag BcMode.base = 2
mode_tag BcMode.var = 3
mode_tag BcMode.rbase = 4
mode_tag BcMode.uv = 5
mode_tag BcMode.lit = 6
mode_tag BcMode.lits = 7
mode_tag BcMode.pri = 8
mode_tag BcMode.num = 9
mode_tag BcMode.str = 10
mode_tag BcMode.tab = 11
mode_tag BcMode.func = 12
mode_tag BcMode.jump = 13
mode_tag BcMode.cdata = 14

-- A row of the table: the modes of the operands A, B and C (or D).
pub record Row : Type 0 where
  pub ma : BcMode
  pub mb : BcMode
  pub mc : BcMode

abbrev pub row : BcMode → BcMode → BcMode → Row
row a b c = record { ma = a; mb = b; mc = c }

abbrev pub bcdef : BcOp → Row
bcdef BcOp.islt = row BcMode.var BcMode.no_operand BcMode.var
bcdef BcOp.isge = row BcMode.var BcMode.no_operand BcMode.var
bcdef BcOp.isle = row BcMode.var BcMode.no_operand BcMode.var
bcdef BcOp.isgt = row BcMode.var BcMode.no_operand BcMode.var
bcdef BcOp.iseqv = row BcMode.var BcMode.no_operand BcMode.var
bcdef BcOp.isnev = row BcMode.var BcMode.no_operand BcMode.var
bcdef BcOp.iseqs = row BcMode.var BcMode.no_operand BcMode.str
bcdef BcOp.isnes = row BcMode.var BcMode.no_operand BcMode.str
bcdef BcOp.iseqn = row BcMode.var BcMode.no_operand BcMode.num
bcdef BcOp.isnen = row BcMode.var BcMode.no_operand BcMode.num
bcdef BcOp.iseqp = row BcMode.var BcMode.no_operand BcMode.pri
bcdef BcOp.isnep = row BcMode.var BcMode.no_operand BcMode.pri
bcdef BcOp.istc = row BcMode.dst BcMode.no_operand BcMode.var
bcdef BcOp.isfc = row BcMode.dst BcMode.no_operand BcMode.var
bcdef BcOp.ist = row BcMode.no_operand BcMode.no_operand BcMode.var
bcdef BcOp.isf = row BcMode.no_operand BcMode.no_operand BcMode.var
bcdef BcOp.istype = row BcMode.var BcMode.no_operand BcMode.lit
bcdef BcOp.isnum = row BcMode.var BcMode.no_operand BcMode.lit
bcdef BcOp.mov = row BcMode.dst BcMode.no_operand BcMode.var
bcdef BcOp.not = row BcMode.dst BcMode.no_operand BcMode.var
bcdef BcOp.unm = row BcMode.dst BcMode.no_operand BcMode.var
bcdef BcOp.len = row BcMode.dst BcMode.no_operand BcMode.var
bcdef BcOp.addvn = row BcMode.dst BcMode.var BcMode.num
bcdef BcOp.subvn = row BcMode.dst BcMode.var BcMode.num
bcdef BcOp.mulvn = row BcMode.dst BcMode.var BcMode.num
bcdef BcOp.divvn = row BcMode.dst BcMode.var BcMode.num
bcdef BcOp.modvn = row BcMode.dst BcMode.var BcMode.num
bcdef BcOp.addnv = row BcMode.dst BcMode.var BcMode.num
bcdef BcOp.subnv = row BcMode.dst BcMode.var BcMode.num
bcdef BcOp.mulnv = row BcMode.dst BcMode.var BcMode.num
bcdef BcOp.divnv = row BcMode.dst BcMode.var BcMode.num
bcdef BcOp.modnv = row BcMode.dst BcMode.var BcMode.num
bcdef BcOp.addvv = row BcMode.dst BcMode.var BcMode.var
bcdef BcOp.subvv = row BcMode.dst BcMode.var BcMode.var
bcdef BcOp.mulvv = row BcMode.dst BcMode.var BcMode.var
bcdef BcOp.divvv = row BcMode.dst BcMode.var BcMode.var
bcdef BcOp.modvv = row BcMode.dst BcMode.var BcMode.var
bcdef BcOp.pow = row BcMode.dst BcMode.var BcMode.var
bcdef BcOp.cat = row BcMode.dst BcMode.rbase BcMode.rbase
bcdef BcOp.kstr = row BcMode.dst BcMode.no_operand BcMode.str
bcdef BcOp.kcdata = row BcMode.dst BcMode.no_operand BcMode.cdata
bcdef BcOp.kshort = row BcMode.dst BcMode.no_operand BcMode.lits
bcdef BcOp.knum = row BcMode.dst BcMode.no_operand BcMode.num
bcdef BcOp.kpri = row BcMode.dst BcMode.no_operand BcMode.pri
bcdef BcOp.knil = row BcMode.base BcMode.no_operand BcMode.base
bcdef BcOp.uget = row BcMode.dst BcMode.no_operand BcMode.uv
bcdef BcOp.usetv = row BcMode.uv BcMode.no_operand BcMode.var
bcdef BcOp.usets = row BcMode.uv BcMode.no_operand BcMode.str
bcdef BcOp.usetn = row BcMode.uv BcMode.no_operand BcMode.num
bcdef BcOp.usetp = row BcMode.uv BcMode.no_operand BcMode.pri
bcdef BcOp.uclo = row BcMode.rbase BcMode.no_operand BcMode.jump
bcdef BcOp.fnew = row BcMode.dst BcMode.no_operand BcMode.func
bcdef BcOp.tnew = row BcMode.dst BcMode.no_operand BcMode.lit
bcdef BcOp.tdup = row BcMode.dst BcMode.no_operand BcMode.tab
bcdef BcOp.gget = row BcMode.dst BcMode.no_operand BcMode.str
bcdef BcOp.gset = row BcMode.var BcMode.no_operand BcMode.str
bcdef BcOp.tgetv = row BcMode.dst BcMode.var BcMode.var
bcdef BcOp.tgets = row BcMode.dst BcMode.var BcMode.str
bcdef BcOp.tgetb = row BcMode.dst BcMode.var BcMode.lit
bcdef BcOp.tgetr = row BcMode.dst BcMode.var BcMode.var
bcdef BcOp.tsetv = row BcMode.var BcMode.var BcMode.var
bcdef BcOp.tsets = row BcMode.var BcMode.var BcMode.str
bcdef BcOp.tsetb = row BcMode.var BcMode.var BcMode.lit
bcdef BcOp.tsetm = row BcMode.base BcMode.no_operand BcMode.num
bcdef BcOp.tsetr = row BcMode.var BcMode.var BcMode.var
bcdef BcOp.callm = row BcMode.base BcMode.lit BcMode.lit
bcdef BcOp.call = row BcMode.base BcMode.lit BcMode.lit
bcdef BcOp.callmt = row BcMode.base BcMode.no_operand BcMode.lit
bcdef BcOp.callt = row BcMode.base BcMode.no_operand BcMode.lit
bcdef BcOp.iterc = row BcMode.base BcMode.lit BcMode.lit
bcdef BcOp.itern = row BcMode.base BcMode.lit BcMode.lit
bcdef BcOp.varg = row BcMode.base BcMode.lit BcMode.lit
bcdef BcOp.isnext = row BcMode.base BcMode.no_operand BcMode.jump
bcdef BcOp.retm = row BcMode.base BcMode.no_operand BcMode.lit
bcdef BcOp.ret = row BcMode.rbase BcMode.no_operand BcMode.lit
bcdef BcOp.ret0 = row BcMode.rbase BcMode.no_operand BcMode.lit
bcdef BcOp.ret1 = row BcMode.rbase BcMode.no_operand BcMode.lit
bcdef BcOp.fori = row BcMode.base BcMode.no_operand BcMode.jump
bcdef BcOp.jfori = row BcMode.base BcMode.no_operand BcMode.jump
bcdef BcOp.forl = row BcMode.base BcMode.no_operand BcMode.jump
bcdef BcOp.iforl = row BcMode.base BcMode.no_operand BcMode.jump
bcdef BcOp.jforl = row BcMode.base BcMode.no_operand BcMode.lit
bcdef BcOp.iterl = row BcMode.base BcMode.no_operand BcMode.jump
bcdef BcOp.iiterl = row BcMode.base BcMode.no_operand BcMode.jump
bcdef BcOp.jiterl = row BcMode.base BcMode.no_operand BcMode.lit
bcdef BcOp.loop = row BcMode.rbase BcMode.no_operand BcMode.jump
bcdef BcOp.iloop = row BcMode.rbase BcMode.no_operand BcMode.jump
bcdef BcOp.jloop = row BcMode.rbase BcMode.no_operand BcMode.lit
bcdef BcOp.jmp = row BcMode.rbase BcMode.no_operand BcMode.jump
bcdef BcOp.bnot = row BcMode.dst BcMode.no_operand BcMode.var
bcdef BcOp.band = row BcMode.dst BcMode.var BcMode.var
bcdef BcOp.bor = row BcMode.dst BcMode.var BcMode.var
bcdef BcOp.bxor = row BcMode.dst BcMode.var BcMode.var
bcdef BcOp.bshl = row BcMode.dst BcMode.var BcMode.var
bcdef BcOp.bshr = row BcMode.dst BcMode.var BcMode.var
bcdef BcOp.bsar = row BcMode.dst BcMode.var BcMode.var
bcdef BcOp.funcf = row BcMode.rbase BcMode.no_operand BcMode.no_operand
bcdef BcOp.ifuncf = row BcMode.rbase BcMode.no_operand BcMode.no_operand
bcdef BcOp.jfuncf = row BcMode.rbase BcMode.no_operand BcMode.lit
bcdef BcOp.funcv = row BcMode.rbase BcMode.no_operand BcMode.no_operand
bcdef BcOp.ifuncv = row BcMode.rbase BcMode.no_operand BcMode.no_operand
bcdef BcOp.jfuncv = row BcMode.rbase BcMode.no_operand BcMode.lit
bcdef BcOp.funcc = row BcMode.rbase BcMode.no_operand BcMode.no_operand
bcdef BcOp.funccw = row BcMode.rbase BcMode.no_operand BcMode.no_operand

-- One entry of `BC_MODE`; no shift leaves the 16 bits.
abbrev pub packed : Row → ℕ
packed r = bit_or (bit_or (mode_tag r.ma) (mode_tag r.mb * 2 ^ 3)) (mode_tag r.mc * 2 ^ 7)

abbrev pub table_of : List BcOp → List ℕ
table_of [] = []
table_of (op ∷ ops) = packed (bcdef op) ∷ table_of ops

abbrev pub bc_mode : List ℕ
bc_mode = table_of all_ops

unfoldable pub bcmode_a : BcOp → Run ℕ
bcmode_a op = at bc_mode (discriminant op) >>= λ m. ok (bit_and m 7)

unfoldable pub bcmode_b : BcOp → Run ℕ
bcmode_b op = at bc_mode (discriminant op) >>= λ m. ok (bit_and (shr m 3) 15)

unfoldable pub bcmode_c : BcOp → Run ℕ
bcmode_c op = at bc_mode (discriminant op) >>= λ m. ok (bit_and (shr m 7) 15)
