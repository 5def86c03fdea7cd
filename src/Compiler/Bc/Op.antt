-- ===== src/Compiler/Bc/Op.antt =====
-- The opcodes of crates/luajit-rs/src/compiler/bc.rs: `BCOp`, its discriminants, `from_u32`,
-- `offset` and the opcode tests.
use luajit_rs.Base.{ℕ, ◌%◌, ◌^◌, Bool, true, false, ◌||◌, List, [], ◌∷◌, length, ltb, if◌then◌else◌}
use luajit_rs.Base.{Run, panic, at}
pub mod Laws
use luajit_rs.Base.Int.{ℤ, pos, ◌+ℤ◌, to_u32}

pub data BcOp : Type 0 where
  islt : BcOp
  isge : BcOp
  isle : BcOp
  isgt : BcOp
  iseqv : BcOp
  isnev : BcOp
  iseqs : BcOp
  isnes : BcOp
  iseqn : BcOp
  isnen : BcOp
  iseqp : BcOp
  isnep : BcOp
  istc : BcOp
  isfc : BcOp
  ist : BcOp
  isf : BcOp
  istype : BcOp
  isnum : BcOp
  mov : BcOp
  not : BcOp
  unm : BcOp
  len : BcOp
  addvn : BcOp
  subvn : BcOp
  mulvn : BcOp
  divvn : BcOp
  modvn : BcOp
  addnv : BcOp
  subnv : BcOp
  mulnv : BcOp
  divnv : BcOp
  modnv : BcOp
  addvv : BcOp
  subvv : BcOp
  mulvv : BcOp
  divvv : BcOp
  modvv : BcOp
  pow : BcOp
  cat : BcOp
  kstr : BcOp
  kcdata : BcOp
  kshort : BcOp
  knum : BcOp
  kpri : BcOp
  knil : BcOp
  uget : BcOp
  usetv : BcOp
  usets : BcOp
  usetn : BcOp
  usetp : BcOp
  uclo : BcOp
  fnew : BcOp
  tnew : BcOp
  tdup : BcOp
  gget : BcOp
  gset : BcOp
  tgetv : BcOp
  tgets : BcOp
  tgetb : BcOp
  tgetr : BcOp
  tsetv : BcOp
  tsets : BcOp
  tsetb : BcOp
  tsetm : BcOp
  tsetr : BcOp
  callm : BcOp
  call : BcOp
  callmt : BcOp
  callt : BcOp
  iterc : BcOp
  itern : BcOp
  varg : BcOp
  isnext : BcOp
  retm : BcOp
  ret : BcOp
  ret0 : BcOp
  ret1 : BcOp
  fori : BcOp
  jfori : BcOp
  forl : BcOp
  iforl : BcOp
  jforl : BcOp
  iterl : BcOp
  iiterl : BcOp
  jiterl : BcOp
  loop : BcOp
  iloop : BcOp
  jloop : BcOp
  jmp : BcOp
  bnot : BcOp
  band : BcOp
  bor : BcOp
  bxor : BcOp
  bshl : BcOp
  bshr : BcOp
  bsar : BcOp
  funcf : BcOp
  ifuncf : BcOp
  jfuncf : BcOp
  funcv : BcOp
  ifuncv : BcOp
  jfuncv : BcOp
  funcc : BcOp
  funccw : BcOp

-- `self as u8`
abbrev pub discriminant : BcOp → ℕ
discriminant BcOp.islt = 0
discriminant BcOp.isge = 1
discriminant BcOp.isle = 2
discriminant BcOp.isgt = 3
discriminant BcOp.iseqv = 4
discriminant BcOp.isnev = 5
discriminant BcOp.iseqs = 6
discriminant BcOp.isnes = 7
discriminant BcOp.iseqn = 8
discriminant BcOp.isnen = 9
discriminant BcOp.iseqp = 10
discriminant BcOp.isnep = 11
discriminant BcOp.istc = 12
discriminant BcOp.isfc = 13
discriminant BcOp.ist = 14
discriminant BcOp.isf = 15
discriminant BcOp.istype = 16
discriminant BcOp.isnum = 17
discriminant BcOp.mov = 18
discriminant BcOp.not = 19
discriminant BcOp.unm = 20
discriminant BcOp.len = 21
discriminant BcOp.addvn = 22
discriminant BcOp.subvn = 23
discriminant BcOp.mulvn = 24
discriminant BcOp.divvn = 25
discriminant BcOp.modvn = 26
discriminant BcOp.addnv = 27
discriminant BcOp.subnv = 28
discriminant BcOp.mulnv = 29
discriminant BcOp.divnv = 30
discriminant BcOp.modnv = 31
discriminant BcOp.addvv = 32
discriminant BcOp.subvv = 33
discriminant BcOp.mulvv = 34
discriminant BcOp.divvv = 35
discriminant BcOp.modvv = 36
discriminant BcOp.pow = 37
discriminant BcOp.cat = 38
discriminant BcOp.kstr = 39
discriminant BcOp.kcdata = 40
discriminant BcOp.kshort = 41
discriminant BcOp.knum = 42
discriminant BcOp.kpri = 43
discriminant BcOp.knil = 44
discriminant BcOp.uget = 45
discriminant BcOp.usetv = 46
discriminant BcOp.usets = 47
discriminant BcOp.usetn = 48
discriminant BcOp.usetp = 49
discriminant BcOp.uclo = 50
discriminant BcOp.fnew = 51
discriminant BcOp.tnew = 52
discriminant BcOp.tdup = 53
discriminant BcOp.gget = 54
discriminant BcOp.gset = 55
discriminant BcOp.tgetv = 56
discriminant BcOp.tgets = 57
discriminant BcOp.tgetb = 58
discriminant BcOp.tgetr = 59
discriminant BcOp.tsetv = 60
discriminant BcOp.tsets = 61
discriminant BcOp.tsetb = 62
discriminant BcOp.tsetm = 63
discriminant BcOp.tsetr = 64
discriminant BcOp.callm = 65
discriminant BcOp.call = 66
discriminant BcOp.callmt = 67
discriminant BcOp.callt = 68
discriminant BcOp.iterc = 69
discriminant BcOp.itern = 70
discriminant BcOp.varg = 71
discriminant BcOp.isnext = 72
discriminant BcOp.retm = 73
discriminant BcOp.ret = 74
discriminant BcOp.ret0 = 75
discriminant BcOp.ret1 = 76
discriminant BcOp.fori = 77
discriminant BcOp.jfori = 78
discriminant BcOp.forl = 79
discriminant BcOp.iforl = 80
discriminant BcOp.jforl = 81
discriminant BcOp.iterl = 82
discriminant BcOp.iiterl = 83
discriminant BcOp.jiterl = 84
discriminant BcOp.loop = 85
discriminant BcOp.iloop = 86
discriminant BcOp.jloop = 87
discriminant BcOp.jmp = 88
discriminant BcOp.bnot = 89
discriminant BcOp.band = 90
discriminant BcOp.bor = 91
discriminant BcOp.bxor = 92
discriminant BcOp.bshl = 93
discriminant BcOp.bshr = 94
discriminant BcOp.bsar = 95
discriminant BcOp.funcf = 96
discriminant BcOp.ifuncf = 97
discriminant BcOp.jfuncf = 98
discriminant BcOp.funcv = 99
discriminant BcOp.ifuncv = 100
discriminant BcOp.jfuncv = 101
discriminant BcOp.funcc = 102
discriminant BcOp.funccw = 103

-- The opcodes in the order of the enum, which is the order of `BC_NAMES`.
abbrev pub all_ops : List BcOp
all_ops =
    BcOp.islt ∷ BcOp.isge ∷ BcOp.isle ∷ BcOp.isgt ∷ BcOp.iseqv ∷ BcOp.isnev ∷ BcOp.iseqs
    ∷ BcOp.isnes ∷ BcOp.iseqn ∷ BcOp.isnen ∷ BcOp.iseqp ∷ BcOp.isnep ∷ BcOp.istc ∷ BcOp.isfc
    ∷ BcOp.ist ∷ BcOp.isf ∷ BcOp.istype ∷ BcOp.isnum ∷ BcOp.mov ∷ BcOp.not ∷ BcOp.unm ∷ BcOp.len
    ∷ BcOp.addvn ∷ BcOp.subvn ∷ BcOp.mulvn ∷ BcOp.divvn ∷ BcOp.modvn ∷ BcOp.addnv ∷ BcOp.subnv
    ∷ BcOp.mulnv ∷ BcOp.divnv ∷ BcOp.modnv ∷ BcOp.addvv ∷ BcOp.subvv ∷ BcOp.mulvv ∷ BcOp.divvv
    ∷ BcOp.modvv ∷ BcOp.pow ∷ BcOp.cat ∷ BcOp.kstr ∷ BcOp.kcdata ∷ BcOp.kshort ∷ BcOp.knum
    ∷ BcOp.kpri ∷ BcOp.knil ∷ BcOp.uget ∷ BcOp.usetv ∷ BcOp.usets ∷ BcOp.usetn ∷ BcOp.usetp
    ∷ BcOp.uclo ∷ BcOp.fnew ∷ BcOp.tnew ∷ BcOp.tdup ∷ BcOp.gget ∷ BcOp.gset ∷ BcOp.tgetv
    ∷ BcOp.tgets ∷ BcOp.tgetb ∷ BcOp.tgetr ∷ BcOp.tsetv ∷ BcOp.tsets ∷ BcOp.tsetb ∷ BcOp.tsetm
    ∷ BcOp.tsetr ∷ BcOp.callm ∷ BcOp.call ∷ BcOp.callmt ∷ BcOp.callt ∷ BcOp.iterc ∷ BcOp.itern
    ∷ BcOp.varg ∷ BcOp.isnext ∷ BcOp.retm ∷ BcOp.ret ∷ BcOp.ret0 ∷ BcOp.ret1 ∷ BcOp.fori
    ∷ BcOp.jfori ∷ BcOp.forl ∷ BcOp.iforl ∷ BcOp.jforl ∷ BcOp.iterl ∷ BcOp.iiterl ∷ BcOp.jiterl
    ∷ BcOp.loop ∷ BcOp.iloop ∷ BcOp.jloop ∷ BcOp.jmp ∷ BcOp.bnot ∷ BcOp.band ∷ BcOp.bor ∷ BcOp.bxor
    ∷ BcOp.bshl ∷ BcOp.bshr ∷ BcOp.bsar ∷ BcOp.funcf ∷ BcOp.ifuncf ∷ BcOp.jfuncf ∷ BcOp.funcv
    ∷ BcOp.ifuncv ∷ BcOp.jfuncv ∷ BcOp.funcc ∷ BcOp.funccw ∷ []

abbrev pub bc_max : ℕ
bc_max = length all_ops

-- `transmute` of a discriminant, after the assertion that it is one.
unfoldable pub from_u32 : ℕ → Run BcOp
from_u32 op = if ltb op bc_max then at all_ops (op % 2 ^ 8) else panic

-- `(self as i32 + delta) as u32`
unfoldable pub offset : BcOp → ℤ → Run BcOp
offset op delta = from_u32 (to_u32 (pos (discriminant op) +ℤ delta))

unfoldable pub bc_isret : BcOp → Bool
bc_isret BcOp.retm = true
bc_isret BcOp.ret = true
bc_isret BcOp.ret0 = true
bc_isret BcOp.ret1 = true
bc_isret _ = false

unfoldable pub is_tail_call : BcOp → Bool
is_tail_call BcOp.callmt = true
is_tail_call BcOp.callt = true
is_tail_call _ = false

unfoldable pub bc_isret_or_tail : BcOp → Bool
bc_isret_or_tail op = is_tail_call op || bc_isret op
