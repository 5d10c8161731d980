-- ===== src/Toolchain/ModuleGen/Script.antt =====
-- The whole script that `__tagha_mod_gen_finalize` (tagha_toolchain/module_gen.h) puts together, and
-- what the loader (tagha/tagha.c) reads in its header.
use tagha.Base.{
  ℕ, ◌+◌, ◌%◌, ◌^◌, ◌<◌, ◌≡◌, refl, sym, ap, subst, ◌∙◌, arith, List, ◌++◌, length, replicate,
}
use tagha.Mem.{Mem, load}
use tagha.Loader.{Header, header_at}
use tagha.Setup.Region.{SizesAgree}
use tagha.Toolchain.Buffer.{BufApi, IsBuf, HoldsAt, HoldsAt-left, HoldsAt-right}
use tagha.Toolchain.Buffer.Adds.{Adds-then}
use tagha.Toolchain.Buffer.Fields.{fields_size, length-field_bytes, HoldsAt-Loads}
use tagha.Toolchain.ModuleGen.{
  ModGen, header_fields, header_bytes, write_header, with_offsets, finalize,
}

-- The header that `tagha_mod_gen_write_header` writes has sizes that add up as the loader wants them,
-- whatever the arguments are.
pub write_header-SizesAgree :
    {B : Type 0} (gen : ModGen B) (opstacksize callstacksize heapsize flags : ℕ)
    → SizesAgree (write_header gen opstacksize callstacksize heapsize flags).hdr
unfolding write_header
write_header-SizesAgree gen opstacksize callstacksize heapsize flags = (omega arith, omega arith)

-- Every field of a header is a `uint32_t`.
pub record IsHeader (hdr : Header) : Type 0 where
  pub opstacksize_lt : hdr.opstacksize < 2 ^ 32
  pub callstacksize_lt : hdr.callstacksize < 2 ^ 32
  pub stacksize_lt : hdr.stacksize < 2 ^ 32
  pub heapsize_lt : hdr.heapsize < 2 ^ 32
  pub memsize_lt : hdr.memsize < 2 ^ 32
  pub func_count_lt : hdr.func_count < 2 ^ 32
  pub var_count_lt : hdr.var_count < 2 ^ 32
  pub flags_lt : hdr.flags < 2 ^ 32

moved : (m : Mem) (a b v : ℕ) → a ≡ b → load 4 m a ≡ v % 256 ^ 4 → v < 2 ^ 32 → load 4 m b ≡ v
moved m a b v e h lt = let at = rw e at h in omega (arith, at)

header_at-header_bytes :
    (m : Mem) (p magic : ℕ) (hdr : Header)
    → IsHeader hdr
    → hdr.funcs_offset < 2 ^ 32
    → hdr.vars_offset < 2 ^ 32
    → hdr.mem_offset < 2 ^ 32
    → HoldsAt m p (header_bytes magic hdr)
    → header_at m p ≡ hdr
unfolding header_at header_bytes
header_at-header_bytes m p magic hdr h f v o held =
    let l = HoldsAt-Loads m p (header_fields magic hdr) held in
    let l1 = moved m (p + 4) (p + 4) hdr.opstacksize (omega arith) l.1.0 h.opstacksize_lt in
    let l2 =
      moved m (p + 4 + 4) (p + 8) hdr.callstacksize (omega arith) l.1.1.0 h.callstacksize_lt in
    let l3 =
      moved m (p + 4 + 4 + 4) (p + 12) hdr.stacksize (omega arith) l.1.1.1.0 h.stacksize_lt in
    let l4 =
      moved m (p + 4 + 4 + 4 + 4) (p + 16) hdr.heapsize (omega arith) l.1.1.1.1.0 h.heapsize_lt in
    let l5 =
      moved m (p + 4 + 4 + 4 + 4 + 4) (p + 20) hdr.memsize (omega arith) l.1.1.1.1.1.0
        h.memsize_lt in
    let l6 =
      moved m (p + 4 + 4 + 4 + 4 + 4 + 4) (p + 24) hdr.funcs_offset (omega arith) l.1.1.1.1.1.1.0
        f in
    let l7 =
      moved m (p + 4 + 4 + 4 + 4 + 4 + 4 + 4) (p + 28) hdr.func_count (omega arith)
        l.1.1.1.1.1.1.1.0 h.func_count_lt in
    let l8 =
      moved m (p + 4 + 4 + 4 + 4 + 4 + 4 + 4 + 4) (p + 32) hdr.vars_offset (omega arith)
        l.1.1.1.1.1.1.1.1.0 v in
    let l9 =
      moved m (p + 4 + 4 + 4 + 4 + 4 + 4 + 4 + 4 + 4) (p + 36) hdr.var_count (omega arith)
        l.1.1.1.1.1.1.1.1.1.0 h.var_count_lt in
    let l10 =
      moved m (p + 4 + 4 + 4 + 4 + 4 + 4 + 4 + 4 + 4 + 4) (p + 40) hdr.mem_offset (omega arith)
        l.1.1.1.1.1.1.1.1.1.1.0 o in
    let l11 =
      moved m (p + 4 + 4 + 4 + 4 + 4 + 4 + 4 + 4 + 4 + 4 + 4) (p + 44) hdr.flags (omega arith)
        l.1.1.1.1.1.1.1.1.1.1.1.0 h.flags_lt in
    rw (header_at, l1, l2, l3, l4, l5, l6, l7, l8, l9, l10, l11) refl

length-header_bytes : (magic : ℕ) (hdr : Header) → length (header_bytes magic hdr) ≡ 48
unfolding header_bytes fields_size
length-header_bytes magic hdr = length-field_bytes (header_fields magic hdr)

module _ {B : Type 0} (api : BufApi B) (buf : IsBuf api) where
  table-finalize :
      (gen : ModGen B)
      → api.table (finalize api gen).0
        ≡ header_bytes gen.magic (with_offsets api gen)
          ++ (api.table gen.func_data ++ (api.table gen.var_data ++ replicate gen.hdr.memsize 0))
  unfolding finalize with_offsets
  table-finalize gen =
      let hdr = with_offsets api gen in
      let headed = api.insert_obj api.create (header_bytes gen.magic hdr) in
      let funcs = api.append headed gen.func_data in
      let vars = api.append funcs gen.var_data in
      let last = api.insert_zeros vars hdr.memsize in
      Adds-then api api.create headed last _ _
        (buf.obj_table api.create (header_bytes gen.magic hdr))
        (Adds-then api headed funcs last _ _ (buf.append_table headed gen.func_data) (
          Adds-then api funcs vars last _ _ (buf.append_table funcs gen.var_data)
            (buf.zeros_table vars hdr.memsize)))
      ∙ ap
          (λ t.
            t
            ++ (header_bytes gen.magic hdr
                ++ (api.table gen.func_data
                    ++ (api.table gen.var_data ++ replicate hdr.memsize 0))))
          buf.create_table

  -- The script that `__tagha_mod_gen_finalize` gives, wherever it stands in memory, has the magic
  -- number and the generator's header; at the header's offsets stand the functions, the variables
  -- and the zeros of the memory region. The tables fit into 32-bit offsets.
  pub finalize-header_at :
      (gen : ModGen B) (m : Mem) (base : ℕ)
      → IsHeader gen.hdr
      → gen.magic < 2 ^ 32
      → 48 + length (api.table gen.func_data) + length (api.table gen.var_data) < 2 ^ 32
      → HoldsAt m base (api.table (finalize api gen).0)
      → (load 4 m base ≡ gen.magic)
        × (header_at m base ≡ (finalize api gen).1.hdr)
        × HoldsAt m (base + (header_at m base).funcs_offset) (api.table gen.func_data)
        × HoldsAt m (base + (header_at m base).vars_offset) (api.table gen.var_data)
        × HoldsAt m (base + (header_at m base).mem_offset) (replicate gen.hdr.memsize 0)
  unfolding finalize with_offsets header_bytes
  finalize-header_at gen m base fields magic_lt room held =
      let hdr = with_offsets api gen in
      let front = header_bytes gen.magic hdr in
      let funcs = api.table gen.func_data in
      let vars = api.table gen.var_data in
      let zeros : List ℕ = replicate gen.hdr.memsize 0 in
      let all = subst (HoldsAt m base) (table-finalize gen) held in
      let len = length-header_bytes gen.magic hdr in
      let count_f = buf.count_table gen.func_data in
      let count_v = buf.count_table gen.var_data in
      let first = HoldsAt-left m base front (funcs ++ (vars ++ zeros)) all in
      let second = HoldsAt-right m base front (funcs ++ (vars ++ zeros)) all in
      let third = HoldsAt-right m (base + length front) funcs (vars ++ zeros) second in
      let fourth = HoldsAt-right m (base + length front + length funcs) vars zeros third in
      let h : IsHeader hdr = record {
        opstacksize_lt = fields.opstacksize_lt;
        callstacksize_lt = fields.callstacksize_lt;
        stacksize_lt = fields.stacksize_lt;
        heapsize_lt = fields.heapsize_lt;
        memsize_lt = fields.memsize_lt;
        func_count_lt = fields.func_count_lt;
        var_count_lt = fields.var_count_lt;
        flags_lt = fields.flags_lt;
      } in
      let read =
        header_at-header_bytes m base gen.magic hdr h (omega arith) (omega arith) (omega arith)
          first in
      let magic = (HoldsAt-Loads m base (header_fields gen.magic hdr) first).0 in
      let at_f : base + length front ≡ base + hdr.funcs_offset = omega (arith, len) in
      let at_v : base + length front + length funcs ≡ base + hdr.vars_offset =
        omega (arith, len, count_f) in
      let at_m : base + length front + length funcs + length vars ≡ base + hdr.mem_offset =
        omega (arith, len, count_f, count_v) in
      (
        omega (arith, magic),
        read,
        subst (λ a. HoldsAt m (base + a.funcs_offset) funcs) (sym read)
            (subst (λ a. HoldsAt m a funcs) at_f (HoldsAt-left m _ funcs (vars ++ zeros) second)),
        subst (λ a. HoldsAt m (base + a.vars_offset) vars) (sym read)
            (subst (λ a. HoldsAt m a vars) at_v (HoldsAt-left m _ vars zeros third)),
        subst (λ a. HoldsAt m (base + a.mem_offset) zeros) (sym read)
            (subst (λ a. HoldsAt m a zeros) at_m fourth),
      )
