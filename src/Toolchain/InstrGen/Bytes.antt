-- ===== src/Toolchain/InstrGen/Bytes.antt =====
-- The bytes that `tagha_instr_gen` (tagha_toolchain/instr_gen.h) writes, and how many it reports.
use tagha.Base.{
  ℕ, ◌+◌, ◌≡◌, ◌≢◌, refl, ap, arith, length, false, none, some, List, [], ◌∷◌, ◌++◌, leb,
}
use tagha.Toolchain.Opcode.{InstrSet, opcode}
use tagha.Toolchain.Opcode.Numbers.{opcode-lt}
use tagha.Toolchain.Buffer.{BufApi, IsBuf}
use tagha.Toolchain.Buffer.Fields.{field_bytes, fields_size, length-field_bytes}
use tagha.Toolchain.Buffer.Adds.{Adds, Adds-nothing, Adds-then, Adds-last, Adds-mod}
use tagha.Toolchain.InstrGen.{
  Format, u8, u8_u8, u16, u8_u16, u8_u8_i16, i32, u8_i64, no_operands, format, Args, with_buffer,
  gen_operands, instr_gen,
}

-- The operands of a format, each with its width.
unfoldable pub fields : Format → Args → List (ℕ × ℕ)
fields u8 args = (1, args.oper1) ∷ []
fields u8_u8 args = (1, args.oper1) ∷ (1, args.oper2) ∷ []
fields u16 args = (2, args.oper1) ∷ []
fields u8_u16 args = (1, args.oper1) ∷ (2, args.oper2) ∷ []
fields u8_u8_i16 args = (1, args.oper1) ∷ (1, args.oper2) ∷ (2, args.oper3) ∷ []
fields i32 args = (4, args.oper1) ∷ []
fields u8_i64 args = (1, args.oper1) ∷ (8, args.oper2) ∷ []
fields no_operands args = []

-- The bytes of an instruction: the opcode and the operands in little-endian order.
unfoldable pub encode : InstrSet → Args → List ℕ
unfolding field_bytes fields
encode op args = field_bytes ((1, opcode op) ∷ fields (format op) args)

module _ {B : Type 0} (api : BufApi B) (buf : IsBuf api) where
  gen_operands-Adds :
      (fmt : Format) (args : Args) (n : ℕ) (b : B)
      → (b' : B) × (gen_operands api fmt args n (some b)
          ≡ (n + fields_size (fields fmt args), some b'))
        × Adds api b b' (field_bytes (fields fmt args))
  unfolding gen_operands with_buffer fields fields_size field_bytes
  gen_operands-Adds u8 args n b = (_, refl, Adds-last api b _ _ (buf.byte_table b args.oper1))
  gen_operands-Adds u8_u8 args n b =
      let b1 = api.insert_byte b args.oper1 in
      (
        _,
        refl,
        Adds-then api b b1 _ _ _ (buf.byte_table b args.oper1)
            (Adds-last api b1 _ _ (buf.byte_table b1 args.oper2)),
      )
  gen_operands-Adds u16 args n b =
      (_, refl, Adds-last api b _ _ (Adds-mod api b _ 2 _ (buf.int16_table b _)))
  gen_operands-Adds u8_u16 args n b =
      let b1 = api.insert_byte b args.oper1 in
      (
        _,
        refl,
        Adds-then api b b1 _ _ _ (buf.byte_table b args.oper1)
            (Adds-last api b1 _ _ (buf.int16_table b1 args.oper2)),
      )
  gen_operands-Adds u8_u8_i16 args n b =
      let b1 = api.insert_byte b args.oper1 in
      let b2 = api.insert_byte b1 args.oper2 in
      (
        _,
        refl,
        Adds-then api b b1 _ _ _ (buf.byte_table b args.oper1) (
            Adds-then api b1 b2 _ _ _ (buf.byte_table b1 args.oper2)
              (Adds-last api b2 _ _ (Adds-mod api b2 _ 2 _ (buf.int16_table b2 _)))),
      )
  gen_operands-Adds i32 args n b =
      (_, refl, Adds-last api b _ _ (Adds-mod api b _ 4 _ (buf.int32_table b _)))
  gen_operands-Adds u8_i64 args n b =
      let b1 = api.insert_byte b args.oper1 in
      (
        _,
        refl,
        Adds-then api b b1 _ _ _ (buf.byte_table b args.oper1)
            (Adds-last api b1 _ _ (buf.int64_table b1 args.oper2)),
      )
  gen_operands-Adds no_operands args n b =
      (b, ap (λ k. (k, some b)) (omega arith), Adds-nothing api b)

-- The size of a case does not depend on the arguments or on whether there is a buffer.
gen_operands-none :
    {B : Type 0} (api : BufApi B) (fmt : Format) (args args' : Args) (n : ℕ)
    → gen_operands api fmt args' n none ≡ (n + fields_size (fields fmt args), none)
unfolding gen_operands with_buffer fields fields_size
gen_operands-none api u8 args args' n = refl
gen_operands-none api u8_u8 args args' n = refl
gen_operands-none api u16 args args' n = refl
gen_operands-none api u8_u16 args args' n = refl
gen_operands-none api u8_u8_i16 args args' n = refl
gen_operands-none api i32 args args' n = refl
gen_operands-none api u8_i64 args args' n = refl
gen_operands-none api no_operands args args' n = ap (λ k. (k, none)) (omega arith)

not_past :
    (op : InstrSet) → op ≢ InstrSet.max_ops → leb (opcode InstrSet.max_ops) (opcode op) ≡ false
not_past op h = let lt = opcode-lt op h in ground arith

-- For every instruction `tagha_instr_gen` reports the length of `encode`, with a buffer and with
-- NULL; a buffer then holds what it held and the bytes of `encode` behind it.
pub instr_gen-encode :
    {B : Type 0} (api : BufApi B) (op : InstrSet) (args args' : Args) (b : B)
    → IsBuf api
    → op ≢ InstrSet.max_ops
    → ((b' : B) × (instr_gen api (some b) op args ≡ (length (encode op args), some b'))
        × (api.table b' ≡ api.table b ++ encode op args))
      × (instr_gen api none op args' ≡ (length (encode op args), none))
unfolding instr_gen encode with_buffer fields_size field_bytes
instr_gen-encode api op args args' b buf h =
    let start = api.insert_byte b (opcode op) in
    let (b', e, adds) = gen_operands-Adds api buf (format op) args 1 start in
    let len = length-field_bytes ((1, opcode op) ∷ fields (format op) args) in
    let whole = Adds-then api b start b' _ _ (buf.byte_table b (opcode op)) adds in
    rw (not_past op h, len) ((b', e, whole), gen_operands-none api (format op) args args' 1)
