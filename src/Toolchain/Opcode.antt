-- ===== src/Toolchain/Opcode.antt =====
-- The enumeration of instructions of tagha/tagha.h and the numbers that C gives its members.
pub mod Numbers
pub mod Handlers
use tagha.Base.{ℕ, ◌≡◌, refl, Option, none, some, List, [], ◌∷◌, get_elem?}

-- enum TaghaInstrSet. `mod`, `_and`, `_or`, `_xor`, `_not` carry their underscore behind.
pub data InstrSet : Type 0 where
  halt : InstrSet
  nop : InstrSet
  alloc : InstrSet
  redux : InstrSet
  movi : InstrSet
  mov : InstrSet
  lra : InstrSet
  lea : InstrSet
  ldvar : InstrSet
  ldfn : InstrSet
  ld1 : InstrSet
  ld2 : InstrSet
  ld4 : InstrSet
  ld8 : InstrSet
  ldu1 : InstrSet
  ldu2 : InstrSet
  ldu4 : InstrSet
  st1 : InstrSet
  st2 : InstrSet
  st4 : InstrSet
  st8 : InstrSet
  add : InstrSet
  sub : InstrSet
  mul : InstrSet
  idiv : InstrSet
  mod_ : InstrSet
  neg : InstrSet
  fadd : InstrSet
  fsub : InstrSet
  fmul : InstrSet
  fdiv : InstrSet
  fneg : InstrSet
  and_ : InstrSet
  or_ : InstrSet
  xor_ : InstrSet
  sll : InstrSet
  srl : InstrSet
  sra : InstrSet
  not_ : InstrSet
  ilt : InstrSet
  ile : InstrSet
  ult : InstrSet
  ule : InstrSet
  cmp : InstrSet
  flt : InstrSet
  fle : InstrSet
  setc : InstrSet
  f32tof64 : InstrSet
  f64tof32 : InstrSet
  itof64 : InstrSet
  itof32 : InstrSet
  f64toi : InstrSet
  f32toi : InstrSet
  jmp : InstrSet
  jz : InstrSet
  jnz : InstrSet
  pushlr : InstrSet
  poplr : InstrSet
  call : InstrSet
  callr : InstrSet
  ret : InstrSet
  setvlen : InstrSet
  setelen : InstrSet
  vmov : InstrSet
  vadd : InstrSet
  vsub : InstrSet
  vmul : InstrSet
  vdiv : InstrSet
  vmod : InstrSet
  vneg : InstrSet
  vfadd : InstrSet
  vfsub : InstrSet
  vfmul : InstrSet
  vfdiv : InstrSet
  vfneg : InstrSet
  vand : InstrSet
  vor : InstrSet
  vxor : InstrSet
  vsll : InstrSet
  vsrl : InstrSet
  vsra : InstrSet
  vnot : InstrSet
  vcmp : InstrSet
  vilt : InstrSet
  vile : InstrSet
  vult : InstrSet
  vule : InstrSet
  vflt : InstrSet
  vfle : InstrSet
  restore : InstrSet
  leave : InstrSet
  remit : InstrSet
  enter : InstrSet
  max_ops : InstrSet

-- The value of a member.
unfoldable pub opcode : InstrSet → ℕ
opcode halt = 0
opcode nop = 1
opcode alloc = 2
opcode redux = 3
opcode movi = 4
opcode mov = 5
opcode lra = 6
opcode lea = 7
opcode ldvar = 8
opcode ldfn = 9
opcode ld1 = 10
opcode ld2 = 11
opcode ld4 = 12
opcode ld8 = 13
opcode ldu1 = 14
opcode ldu2 = 15
opcode ldu4 = 16
opcode st1 = 17
opcode st2 = 18
opcode st4 = 19
opcode st8 = 20
opcode add = 21
opcode sub = 22
opcode mul = 23
opcode idiv = 24
opcode mod_ = 25
opcode neg = 26
opcode fadd = 27
opcode fsub = 28
opcode fmul = 29
opcode fdiv = 30
opcode fneg = 31
opcode and_ = 32
opcode or_ = 33
opcode xor_ = 34
opcode sll = 35
opcode srl = 36
opcode sra = 37
opcode not_ = 38
opcode ilt = 39
opcode ile = 40
opcode ult = 41
opcode ule = 42
opcode cmp = 43
opcode flt = 44
opcode fle = 45
opcode setc = 46
opcode f32tof64 = 47
opcode f64tof32 = 48
opcode itof64 = 49
opcode itof32 = 50
opcode f64toi = 51
opcode f32toi = 52
opcode jmp = 53
opcode jz = 54
opcode jnz = 55
opcode pushlr = 56
opcode poplr = 57
opcode call = 58
opcode callr = 59
opcode ret = 60
opcode setvlen = 61
opcode setelen = 62
opcode vmov = 63
opcode vadd = 64
opcode vsub = 65
opcode vmul = 66
opcode vdiv = 67
opcode vmod = 68
opcode vneg = 69
opcode vfadd = 70
opcode vfsub = 71
opcode vfmul = 72
opcode vfdiv = 73
opcode vfneg = 74
opcode vand = 75
opcode vor = 76
opcode vxor = 77
opcode vsll = 78
opcode vsrl = 79
opcode vsra = 80
opcode vnot = 81
opcode vcmp = 82
opcode vilt = 83
opcode vile = 84
opcode vult = 85
opcode vule = 86
opcode vflt = 87
opcode vfle = 88
opcode restore = 89
opcode leave = 90
opcode remit = 91
opcode enter = 92
opcode max_ops = 93

-- The members in their order, MaxOps left out.
unfoldable pub instr_set : List InstrSet
instr_set =
    halt ∷ nop ∷ alloc ∷ redux ∷ movi ∷ mov ∷ lra ∷ lea ∷ ldvar ∷ ldfn ∷ ld1 ∷ ld2 ∷ ld4 ∷ ld8
    ∷ ldu1 ∷ ldu2 ∷ ldu4 ∷ st1 ∷ st2 ∷ st4 ∷ st8 ∷ add ∷ sub ∷ mul ∷ idiv ∷ mod_ ∷ neg ∷ fadd ∷ fsub
    ∷ fmul ∷ fdiv ∷ fneg ∷ and_ ∷ or_ ∷ xor_ ∷ sll ∷ srl ∷ sra ∷ not_ ∷ ilt ∷ ile ∷ ult ∷ ule ∷ cmp
    ∷ flt ∷ fle ∷ setc ∷ f32tof64 ∷ f64tof32 ∷ itof64 ∷ itof32 ∷ f64toi ∷ f32toi ∷ jmp ∷ jz ∷ jnz
    ∷ pushlr ∷ poplr ∷ call ∷ callr ∷ ret ∷ setvlen ∷ setelen ∷ vmov ∷ vadd ∷ vsub ∷ vmul ∷ vdiv
    ∷ vmod ∷ vneg ∷ vfadd ∷ vfsub ∷ vfmul ∷ vfdiv ∷ vfneg ∷ vand ∷ vor ∷ vxor ∷ vsll ∷ vsrl ∷ vsra
    ∷ vnot ∷ vcmp ∷ vilt ∷ vile ∷ vult ∷ vule ∷ vflt ∷ vfle ∷ restore ∷ leave ∷ remit ∷ enter ∷ []

unfoldable pub op_at : ℕ → Option InstrSet
unfolding instr_set
op_at n = get_elem? instr_set n
