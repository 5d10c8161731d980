-- ===== src/Examples/Fixtures.antt =====
-- Concrete modules, memories and C functions for the examples about tagha/tagha.c.
use tagha.Base.{ℕ, ◌+◌, ◌-◌, true, Option, none, some, List, ltb, if◌then◌else◌, get_or, length}
use tagha.Mem.{Mem, load}
use tagha.State.{Module}
use tagha.Machine.{
  Machine, Outcome, next, halt, undefined, timeout, Run, returned, stuck, out_of_fuel,
}
use tagha.Isa.Float.{FloatType, Floats}
use tagha.Isa.Jump.{Env}

-- Bytes from an address on, and `m` elsewhere.
abbrev pub with_bytes : ℕ → List ℕ → Mem → Mem
with_bytes base bs m a =
    if ltb a base then m a else if ltb a (base + length bs) then get_or bs (a - base) 0 else m a

abbrev pub blank : Mem
blank a = 0

abbrev pub float_type : FloatType
float_type = record {
  fadd = λ a b. a + b;
  fsub = λ a b. a;
  fmul = λ a b. a;
  fdiv = λ a b. a;
  fneg = λ a. a;
  flt = λ a b. ltb a b;
  fle = λ a b. true;
}

abbrev pub floats : Floats
floats = record {
  float32 = float_type;
  float64 = float_type;
  f32_to_f64 = λ a. a;
  f64_to_f32 = λ a. a;
  int_to_f64 = λ a. a;
  int_to_f32 = λ a. a;
  f64_to_int = λ a. a;
  f32_to_int = λ a. a;
}

-- A C function that gives back its first argument, and no other modules.
abbrev pub env : Env
env = record {
  floats = floats;
  native = λ f vm m params. record { ret = load 8 m params; vm = vm; mem = m };
  libs = λ p. none;
}

-- An operand stack of 64 bytes at 4096, empty; a call stack at 8192; a segment from 4000 on.
abbrev pub vm : Module
vm = record {
  self = 512;
  funcs = none;
  vars = none;
  script = 1000;
  low_seg = 4000;
  high_seg = 4161;
  opstack = 4096;
  callstack = 8192;
  osp = 4160;
  ofp = 0;
  csp = 8192;
  lr = 0;
  opstack_size = 64;
  callstack_size = 64;
  vec_len = 1;
  elem_len = 8;
  flags = 0;
  err = 0;
  cond = 0;
}

-- The top of the operand stack where a run has returned.
abbrev pub top_of : Run → Option ℕ
top_of (returned vm' m) = some (load 8 m vm'.osp)
top_of stuck = none
top_of out_of_fuel = none

abbrev pub err_of : Run → Option ℕ
err_of (returned vm' m) = some vm'.err
err_of stuck = none
err_of out_of_fuel = none

-- Where the next instruction follows, its state.
abbrev pub after : Outcome → Machine → Machine
after (next s) d = s
after (halt s) d = d
after undefined d = d
after timeout d = d
