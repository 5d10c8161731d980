-- ===== src/Examples/Buffers.antt =====
-- Byte buffers as lists and alignment, for the examples about the toolchain (tagha_toolchain).
use tagha.Base.{ℕ, ◌+◌, ◌-◌, ◌*◌, ◌/◌, ◌%◌, refl, arith, List, [], ◌∷◌, ◌++◌, length, replicate}
use tagha.Toolchain.Buffer.{BufApi, IsBuf, le_bytes}
use tagha.Toolchain.ModuleGen.Entries.{IsAlign}

-- A buffer is the list of its bytes.
abbrev pub bytes_api : BufApi (List ℕ)
bytes_api = record {
  create = [];
  table = λ b. b;
  count = λ b. length b;
  insert_byte = λ b v. b ++ v % 256 ∷ [];
  insert_int16 = λ b v. b ++ le_bytes 2 v;
  insert_int32 = λ b v. b ++ le_bytes 4 v;
  insert_int64 = λ b v. b ++ le_bytes 8 v;
  insert_zeros = λ b n. b ++ replicate n 0;
  insert_cstr = λ b s. b ++ (s ++ 0 ∷ []);
  append = λ b c. b ++ c;
  insert_obj = λ b o. b ++ o;
  clear = λ b. [];
}

pub bytes_IsBuf : IsBuf bytes_api
unfolding le_bytes
bytes_IsBuf = record {
  create_table = refl;
  count_table = λ b. refl;
  byte_table = λ b v. refl;
  int16_table = λ b v. refl;
  int32_table = λ b v. refl;
  int64_table = λ b v. refl;
  zeros_table = λ b n. refl;
  cstr_table = λ b s. refl;
  append_table = λ b c. refl;
  obj_table = λ b o. refl;
}

abbrev pub align : ℕ → ℕ → ℕ
align size n = (size + (n - 1)) / n * n

pub align-IsAlign : IsAlign align
align-IsAlign = record {
  at_least = λ size. omega arith;
  below = λ size. omega arith;
  multiple = λ size. omega arith;
}
