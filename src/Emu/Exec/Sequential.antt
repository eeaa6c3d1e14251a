-- ===== src/Emu/Exec/Sequential.antt =====
-- The PC and the array element of the zero register across the handlers of emu/emulator.go that are
-- not branches.
use m1sim.Base.{◌≡◌, arith}
use m1sim.Insts.{Instruction}
use m1sim.Emu.RegFile.{RegFile}
use m1sim.Emu.Exec.DataReg.{
  execute_dp_imm, execute_dp_reg, dp_reg_add64, dp_reg_add32, dp_reg_sub64, dp_reg_sub32,
  dp_reg_and64, dp_reg_and32, dp_reg_orr64, dp_reg_orr32, dp_reg_eor64, dp_reg_eor32, dp_reg_bic64,
  dp_reg_bic32, dp_reg_orn64, dp_reg_orn32, dp_reg_eon64, dp_reg_eon32, execute_logical_imm,
}
use m1sim.Emu.Alu.{
  add64_imm, add32_imm, sub64_imm, sub32_imm, set_add_flags64, set_add_flags32, set_sub_flags64,
  set_sub_flags32, set_logic_flags64, set_logic_flags32, and64_imm, and32_imm, orr64_imm, orr32_imm,
  eor64_imm, eor32_imm,
}
use m1sim.Emu.RegFile.{write_reg, write_reg_or_sp}
use m1sim.Emu.Exec.Bitfield.{execute_bitfield, execute_extract}
use m1sim.Emu.Exec.Arith.{
  execute_move_wide, execute_cond_select, execute_cond_cmp, execute_data_proc_2src,
  execute_data_proc_3src, execute_system_reg, execute_mrs,
}
use m1sim.Emu.Exec.MemoryOps.{execute_pc_rel}

pub execute_dp_imm-pc : (i : Instruction) (r : RegFile) → (execute_dp_imm i r).pc ≡ r.pc
unfolding execute_dp_imm add64_imm add32_imm sub64_imm sub32_imm set_add_flags64 set_add_flags32
    set_sub_flags64 set_sub_flags32 write_reg write_reg_or_sp
execute_dp_imm-pc i r = ground arith

pub execute_dp_imm-x31 : (i : Instruction) (r : RegFile) → (execute_dp_imm i r).x 31 ≡ r.x 31
unfolding execute_dp_imm add64_imm add32_imm sub64_imm sub32_imm set_add_flags64 set_add_flags32
    set_sub_flags64 set_sub_flags32 write_reg write_reg_or_sp
execute_dp_imm-x31 i r = ground arith

dp_reg_add64-x31 : (i : Instruction) (r : RegFile) → (dp_reg_add64 i r).x 31 ≡ r.x 31
unfolding dp_reg_add64 write_reg set_add_flags64
dp_reg_add64-x31 i r = ground arith

dp_reg_add32-x31 : (i : Instruction) (r : RegFile) → (dp_reg_add32 i r).x 31 ≡ r.x 31
unfolding dp_reg_add32 write_reg set_add_flags32
dp_reg_add32-x31 i r = ground arith

dp_reg_sub64-x31 : (i : Instruction) (r : RegFile) → (dp_reg_sub64 i r).x 31 ≡ r.x 31
unfolding dp_reg_sub64 write_reg set_sub_flags64
dp_reg_sub64-x31 i r = ground arith

dp_reg_sub32-x31 : (i : Instruction) (r : RegFile) → (dp_reg_sub32 i r).x 31 ≡ r.x 31
unfolding dp_reg_sub32 write_reg set_sub_flags32
dp_reg_sub32-x31 i r = ground arith

dp_reg_and64-x31 : (i : Instruction) (r : RegFile) → (dp_reg_and64 i r).x 31 ≡ r.x 31
unfolding dp_reg_and64 write_reg set_logic_flags64
dp_reg_and64-x31 i r = ground arith

dp_reg_and32-x31 : (i : Instruction) (r : RegFile) → (dp_reg_and32 i r).x 31 ≡ r.x 31
unfolding dp_reg_and32 write_reg set_logic_flags32
dp_reg_and32-x31 i r = ground arith

dp_reg_orr64-x31 : (i : Instruction) (r : RegFile) → (dp_reg_orr64 i r).x 31 ≡ r.x 31
unfolding dp_reg_orr64 write_reg
dp_reg_orr64-x31 i r = ground arith

dp_reg_orr32-x31 : (i : Instruction) (r : RegFile) → (dp_reg_orr32 i r).x 31 ≡ r.x 31
unfolding dp_reg_orr32 write_reg
dp_reg_orr32-x31 i r = ground arith

dp_reg_eor64-x31 : (i : Instruction) (r : RegFile) → (dp_reg_eor64 i r).x 31 ≡ r.x 31
unfolding dp_reg_eor64 write_reg
dp_reg_eor64-x31 i r = ground arith

dp_reg_eor32-x31 : (i : Instruction) (r : RegFile) → (dp_reg_eor32 i r).x 31 ≡ r.x 31
unfolding dp_reg_eor32 write_reg
dp_reg_eor32-x31 i r = ground arith

dp_reg_bic64-x31 : (i : Instruction) (r : RegFile) → (dp_reg_bic64 i r).x 31 ≡ r.x 31
unfolding dp_reg_bic64 write_reg set_logic_flags64
dp_reg_bic64-x31 i r = ground arith

dp_reg_bic32-x31 : (i : Instruction) (r : RegFile) → (dp_reg_bic32 i r).x 31 ≡ r.x 31
unfolding dp_reg_bic32 write_reg set_logic_flags32
dp_reg_bic32-x31 i r = ground arith

dp_reg_orn64-x31 : (i : Instruction) (r : RegFile) → (dp_reg_orn64 i r).x 31 ≡ r.x 31
unfolding dp_reg_orn64 write_reg
dp_reg_orn64-x31 i r = ground arith

dp_reg_orn32-x31 : (i : Instruction) (r : RegFile) → (dp_reg_orn32 i r).x 31 ≡ r.x 31
unfolding dp_reg_orn32 write_reg
dp_reg_orn32-x31 i r = ground arith

dp_reg_eon64-x31 : (i : Instruction) (r : RegFile) → (dp_reg_eon64 i r).x 31 ≡ r.x 31
unfolding dp_reg_eon64 write_reg
dp_reg_eon64-x31 i r = ground arith

dp_reg_eon32-x31 : (i : Instruction) (r : RegFile) → (dp_reg_eon32 i r).x 31 ≡ r.x 31
unfolding dp_reg_eon32 write_reg
dp_reg_eon32-x31 i r = ground arith

pub execute_dp_reg-pc : (i : Instruction) (r : RegFile) → (execute_dp_reg i r).pc ≡ r.pc
unfolding execute_dp_reg dp_reg_add64 dp_reg_add32 dp_reg_sub64 dp_reg_sub32 dp_reg_and64
    dp_reg_and32 dp_reg_orr64 dp_reg_orr32 dp_reg_eor64 dp_reg_eor32 dp_reg_bic64 dp_reg_bic32
    dp_reg_orn64 dp_reg_orn32 dp_reg_eon64 dp_reg_eon32 set_add_flags64 set_add_flags32
    set_sub_flags64 set_sub_flags32 set_logic_flags64 set_logic_flags32 write_reg
execute_dp_reg-pc i r = ground arith

pub execute_dp_reg-x31 : (i : Instruction) (r : RegFile) → (execute_dp_reg i r).x 31 ≡ r.x 31
unfolding execute_dp_reg
execute_dp_reg-x31 i r = ground (
  arith,
  dp_reg_add64-x31 i r,
  dp_reg_add32-x31 i r,
  dp_reg_sub64-x31 i r,
  dp_reg_sub32-x31 i r,
  dp_reg_and64-x31 i r,
  dp_reg_and32-x31 i r,
  dp_reg_orr64-x31 i r,
  dp_reg_orr32-x31 i r,
  dp_reg_eor64-x31 i r,
  dp_reg_eor32-x31 i r,
  dp_reg_bic64-x31 i r,
  dp_reg_bic32-x31 i r,
  dp_reg_orn64-x31 i r,
  dp_reg_orn32-x31 i r,
  dp_reg_eon64-x31 i r,
  dp_reg_eon32-x31 i r,
)

pub execute_logical_imm-pc : (i : Instruction) (r : RegFile) → (execute_logical_imm i r).pc ≡ r.pc
unfolding execute_logical_imm and64_imm and32_imm orr64_imm orr32_imm eor64_imm eor32_imm
    set_logic_flags64 set_logic_flags32 write_reg write_reg_or_sp
execute_logical_imm-pc i r = ground arith

pub execute_logical_imm-x31 :
    (i : Instruction) (r : RegFile) → (execute_logical_imm i r).x 31 ≡ r.x 31
unfolding execute_logical_imm and64_imm and32_imm orr64_imm orr32_imm eor64_imm eor32_imm
    set_logic_flags64 set_logic_flags32 write_reg write_reg_or_sp
execute_logical_imm-x31 i r = ground arith

pub execute_bitfield-pc : (i : Instruction) (r : RegFile) → (execute_bitfield i r).pc ≡ r.pc
unfolding execute_bitfield write_reg
execute_bitfield-pc i r = ground arith

pub execute_bitfield-x31 : (i : Instruction) (r : RegFile) → (execute_bitfield i r).x 31 ≡ r.x 31
unfolding execute_bitfield write_reg
execute_bitfield-x31 i r = ground arith

pub execute_extract-pc : (i : Instruction) (r : RegFile) → (execute_extract i r).pc ≡ r.pc
unfolding execute_extract write_reg
execute_extract-pc i r = ground arith

pub execute_extract-x31 : (i : Instruction) (r : RegFile) → (execute_extract i r).x 31 ≡ r.x 31
unfolding execute_extract write_reg
execute_extract-x31 i r = ground arith

pub execute_move_wide-pc : (i : Instruction) (r : RegFile) → (execute_move_wide i r).pc ≡ r.pc
unfolding execute_move_wide write_reg
execute_move_wide-pc i r = ground arith

pub execute_move_wide-x31 : (i : Instruction) (r : RegFile) → (execute_move_wide i r).x 31 ≡ r.x 31
unfolding execute_move_wide write_reg
execute_move_wide-x31 i r = ground arith

pub execute_cond_select-pc : (i : Instruction) (r : RegFile) → (execute_cond_select i r).pc ≡ r.pc
unfolding execute_cond_select write_reg
execute_cond_select-pc i r = ground arith

pub execute_cond_select-x31 :
    (i : Instruction) (r : RegFile) → (execute_cond_select i r).x 31 ≡ r.x 31
unfolding execute_cond_select write_reg
execute_cond_select-x31 i r = ground arith

pub execute_cond_cmp-pc : (i : Instruction) (r : RegFile) → (execute_cond_cmp i r).pc ≡ r.pc
unfolding execute_cond_cmp
execute_cond_cmp-pc i r = ground arith

pub execute_cond_cmp-x31 : (i : Instruction) (r : RegFile) → (execute_cond_cmp i r).x 31 ≡ r.x 31
unfolding execute_cond_cmp
execute_cond_cmp-x31 i r = ground arith

pub execute_data_proc_2src-pc :
    (i : Instruction) (r : RegFile) → (execute_data_proc_2src i r).pc ≡ r.pc
unfolding execute_data_proc_2src write_reg
execute_data_proc_2src-pc i r = ground arith

pub execute_data_proc_2src-x31 :
    (i : Instruction) (r : RegFile) → (execute_data_proc_2src i r).x 31 ≡ r.x 31
unfolding execute_data_proc_2src write_reg
execute_data_proc_2src-x31 i r = ground arith

pub execute_data_proc_3src-pc :
    (i : Instruction) (r : RegFile) → (execute_data_proc_3src i r).pc ≡ r.pc
unfolding execute_data_proc_3src write_reg
execute_data_proc_3src-pc i r = ground arith

pub execute_data_proc_3src-x31 :
    (i : Instruction) (r : RegFile) → (execute_data_proc_3src i r).x 31 ≡ r.x 31
unfolding execute_data_proc_3src write_reg
execute_data_proc_3src-x31 i r = ground arith

pub execute_system_reg-pc : (i : Instruction) (r : RegFile) → (execute_system_reg i r).pc ≡ r.pc
unfolding execute_system_reg execute_mrs write_reg
execute_system_reg-pc i r = ground arith

pub execute_system_reg-x31 :
    (i : Instruction) (r : RegFile) → (execute_system_reg i r).x 31 ≡ r.x 31
unfolding execute_system_reg execute_mrs write_reg
execute_system_reg-x31 i r = ground arith

pub execute_pc_rel-pc : (i : Instruction) (r : RegFile) → (execute_pc_rel i r).pc ≡ r.pc
unfolding execute_pc_rel write_reg
execute_pc_rel-pc i r = ground arith

pub execute_pc_rel-x31 : (i : Instruction) (r : RegFile) → (execute_pc_rel i r).x 31 ≡ r.x 31
unfolding execute_pc_rel write_reg
execute_pc_rel-x31 i r = ground arith
