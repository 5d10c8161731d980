-- ===== src/Examples/Accesses.antt =====
-- Loads, stores, comparisons and vector loops of tagha/tagha.c at concrete registers and bytes.
use tagha.Base.{ℕ, ◌%◌, ◌^◌, ◌≡◌, ◌↔◌, refl, arith, List, [], ◌∷◌, none, false, inl, inr}
use tagha.Words.{offset16, sext, add64, sub64, lane_add}
use tagha.Words.Signed.{signed, negsuc, ◌<ℤ◌, ◌≤ℤ◌}
use tagha.Mem.{load, store}
use tagha.State.{err_bad_ptr}
use tagha.Machine.{Machine, next, imm, skip, reg, throw}
use tagha.Isa.Access.{out_of_bounds, operand_addr, exec_load, exec_store}
use tagha.Isa.Access.Segment.{
  InSegment, LeavesCell, out_of_bounds_iff, exec_store-LeavesCell, exec_store_refused,
}
use tagha.Isa.Access.Underflow.{exec_store-below_segment}
use tagha.Isa.Access.Extend.{load_addr, load_dst, exec_load-signed}
use tagha.Isa.Compare.{exec_ilt, exec_ile}
use tagha.Isa.Compare.Signed.{dst_int, src_int, exec_ilt-signed, exec_ile-signed}
use tagha.Isa.Vector.{lane_addr, exec_vec}
use tagha.Isa.VectorTest.{exec_vec_test}
use tagha.Isa.VectorTest.AllLanes.{LanesPass, exec_vec_test-all_lanes}
use tagha.Words.{lane_ilt}
use tagha.Isa.Vector.Lanes.{LanesFit, dst_lanes, src_lanes, exec_vec-lane}
use tagha.Examples.Fixtures.{with_bytes, blank, vm, after}

-- Registers r0 = `low` and r1 = 0xAB at 4096, and the operand bytes `code` at 1000.
abbrev at_regs : ℕ → ℕ → List ℕ → Machine
at_regs low high code = record {
  vm = vm;
  mem =
      with_bytes 1000 code (with_bytes 4096 (low ∷ high ∷ 0 ∷ 0 ∷ 0 ∷ 0 ∷ 0 ∷ 0 ∷ 171 ∷ []) blank);
  ip = 1000;
  vreg_osp = 4096;
  table_funcs = none;
  table_vars = none;
  lower_seg = 4000;
  mem_bnds_diff = 161;
}

-- r0 holds 3999, one byte below the segment; the operand is `[r0] <- r1`.
abbrev below : Machine
below = at_regs 159 15 (0 ∷ 1 ∷ 0 ∷ 0 ∷ [])

-- r0 holds 10.
abbrev far : Machine
far = at_regs 10 0 (0 ∷ 1 ∷ 0 ∷ 0 ∷ [])

out_of_bounds_example : (out_of_bounds 7 3999 below ≡ false) ↔ InSegment below 4006
out_of_bounds_example = out_of_bounds_iff 7 3999 below (omega arith, omega arith)

exec_store-LeavesCell_example : LeavesCell below.mem 3990 (exec_store 8 below)
exec_store-LeavesCell_example =
    exec_store-LeavesCell 7 3990 below (omega arith, omega arith) (omega arith) (inl (omega arith))

far_addr : operand_addr (imm 4 far % 256) (imm 4 far) (skip 4 far) ≡ 10
unfolding operand_addr imm skip reg load add64 offset16
far_addr = refl

exec_store_refused_example : exec_store 8 far ≡ throw err_bad_ptr (skip 4 far)
exec_store_refused_example =
    exec_store_refused 7 far (omega arith, omega arith) (λ h. omega (arith, h.0, far_addr))

exec_store-below_segment_example :
    (s' : Machine) × (exec_store 8 below ≡ next s') × (s'.mem 3999 ≡ 171)
unfolding operand_addr imm skip reg load add64 offset16
exec_store-below_segment_example =
    exec_store-below_segment 7 1 below (omega arith, omega arith) (omega arith) (omega arith)
      (omega arith) (omega arith) refl

-- `r1 <- [r0]` with r0 = 4104, where the byte is 0xAB: -85.
abbrev loading : Machine
loading = at_regs 8 16 (1 ∷ 0 ∷ 0 ∷ 0 ∷ [])

exec_load-signed_example :
    (t : Machine) × (exec_load 1 (sext 1) loading ≡ next t)
    × (signed 8 (reg (load_dst loading) t) ≡ signed 1 (load 1 loading.mem (load_addr loading)))
unfolding out_of_bounds operand_addr imm skip reg load add64 sub64 offset16
exec_load-signed_example = exec_load-signed 1 loading (inl refl) refl

loading_byte : signed 1 (load 1 loading.mem (load_addr loading)) ≡ negsuc 84
unfolding operand_addr imm skip reg load add64 offset16
loading_byte = refl

exec_ilt-signed_example :
    (t : Machine) × (exec_ilt below ≡ next t) × ((t.vm.cond ≡ 1) ↔ (dst_int below <ℤ src_int below))
exec_ilt-signed_example = exec_ilt-signed below

exec_ile-signed_example :
    (t : Machine) × (exec_ile far ≡ next t) × ((t.vm.cond ≡ 1) ↔ (dst_int far ≤ℤ src_int far))
exec_ile-signed_example = exec_ile-signed far

-- Four lanes of one byte at r0 and at r2, and an instruction on both.
abbrev four_lanes : Machine
four_lanes = record (at_regs 0 0 []) {
  vm = record vm { vec_len = 4; elem_len = 1 };
  mem =
      with_bytes 1000 (0 ∷ 2 ∷ [])
        (with_bytes 4096 (250 ∷ 1 ∷ 7 ∷ 9 ∷ []) (with_bytes 4112 (10 ∷ 2 ∷ 3 ∷ 4 ∷ []) blank));
}

four_lanes_fit : LanesFit 1 (dst_lanes four_lanes) (src_lanes four_lanes) 4
unfolding imm load
four_lanes_fit = (omega arith, omega arith, inr (inl (omega arith)))

exec_vec-lane_example :
    (t : Machine) × (exec_vec lane_add four_lanes ≡ next t)
    × (load 1 t.mem (lane_addr 1 (dst_lanes four_lanes) 0)
        ≡ lane_add 1
            (load 1 four_lanes.mem (lane_addr 1 (dst_lanes four_lanes) 0))
            (load 1 four_lanes.mem (lane_addr 1 (src_lanes four_lanes) 0))
          % 256 ^ 1)
exec_vec-lane_example =
    exec_vec-lane lane_add 1 0 four_lanes (inl refl) refl four_lanes_fit (omega arith)

-- The first byte lane wraps around: 250 + 10.
lanes_wrap : load 1 (after (exec_vec lane_add four_lanes) four_lanes).mem 4096 ≡ 4
unfolding exec_vec imm load store lane_add
lanes_wrap = refl

-- Two lanes of 2 bytes.
abbrev two_lanes : Machine
two_lanes = record far { vm = record vm { vec_len = 2; elem_len = 2 } }

exec_vec_test-all_lanes_example :
    (t : Machine) × (exec_vec_test lane_ilt two_lanes ≡ next t)
    × ((t.vm.cond ≡ 1) ↔ LanesPass lane_ilt 2 two_lanes)
exec_vec_test-all_lanes_example = exec_vec_test-all_lanes lane_ilt 2 two_lanes (inr (inl refl)) refl
