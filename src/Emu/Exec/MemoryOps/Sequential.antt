-- ===== src/Emu/Exec/MemoryOps/Sequential.antt =====
-- The PC and the array element of the zero register across the loads and stores of emu/emulator.go.
use m1sim.Base.{ℕ, ◌≡◌, ◌∙◌, arith}
use m1sim.Insts.{Instruction}
use m1sim.Emu.Memory.{Memory}
use m1sim.Emu.Exec.MemoryOps.{Space}
use m1sim.Emu.RegFile.{RegFile}
use m1sim.Emu.RegFile.{write_reg}
use m1sim.Emu.Exec.MemoryOps.{
  access, write_back, execute_load_store, access_pair, execute_load_store_pair,
  execute_load_store_lit,
}
use m1sim.Emu.LoadStore.{ldrb, ldrsb64, ldrsb32, ldrh, ldrsh64, ldrsh32, ldrsw}

access-pc : (i : Instruction) (addr : ℕ) (s : Space) → (access i addr s).regs.pc ≡ s.regs.pc
unfolding access write_reg ldrb ldrsb64 ldrsb32 ldrh ldrsh64 ldrsh32 ldrsw
access-pc i addr s = ground arith

write_back-pc : (i : Instruction) (base : ℕ) (r : RegFile) → (write_back i base r).pc ≡ r.pc
unfolding write_back write_reg
write_back-pc i base r = ground arith

pub execute_load_store-pc :
    (i : Instruction) (s : Space) → (execute_load_store i s).regs.pc ≡ s.regs.pc
unfolding execute_load_store
execute_load_store-pc i s = write_back-pc i _ _ ∙ access-pc i _ s

access-x31 : (i : Instruction) (addr : ℕ) (s : Space) → (access i addr s).regs.x 31 ≡ s.regs.x 31
unfolding access write_reg ldrb ldrsb64 ldrsb32 ldrh ldrsh64 ldrsh32 ldrsw
access-x31 i addr s = ground arith

write_back-x31 : (i : Instruction) (base : ℕ) (r : RegFile) → (write_back i base r).x 31 ≡ r.x 31
unfolding write_back write_reg
write_back-x31 i base r = ground arith

pub execute_load_store-x31 :
    (i : Instruction) (s : Space) → (execute_load_store i s).regs.x 31 ≡ s.regs.x 31
unfolding execute_load_store
execute_load_store-x31 i s = write_back-x31 i _ _ ∙ access-x31 i _ s

access_pair-pc :
    (i : Instruction) (addr : ℕ) (s : Space) → (access_pair i addr s).regs.pc ≡ s.regs.pc
unfolding access_pair write_reg
access_pair-pc i addr s = ground arith

pub execute_load_store_pair-pc :
    (i : Instruction) (s : Space) → (execute_load_store_pair i s).regs.pc ≡ s.regs.pc
unfolding execute_load_store_pair
execute_load_store_pair-pc i s = write_back-pc i _ _ ∙ access_pair-pc i _ s

access_pair-x31 :
    (i : Instruction) (addr : ℕ) (s : Space) → (access_pair i addr s).regs.x 31 ≡ s.regs.x 31
unfolding access_pair write_reg
access_pair-x31 i addr s = ground arith

pub execute_load_store_pair-x31 :
    (i : Instruction) (s : Space) → (execute_load_store_pair i s).regs.x 31 ≡ s.regs.x 31
unfolding execute_load_store_pair
execute_load_store_pair-x31 i s = write_back-x31 i _ _ ∙ access_pair-x31 i _ s

pub execute_load_store_lit-pc :
    (i : Instruction) (m : Memory) (r : RegFile) → (execute_load_store_lit i m r).pc ≡ r.pc
unfolding execute_load_store_lit write_reg
execute_load_store_lit-pc i m r = ground arith

pub execute_load_store_lit-x31 :
    (i : Instruction) (m : Memory) (r : RegFile) → (execute_load_store_lit i m r).x 31 ≡ r.x 31
unfolding execute_load_store_lit write_reg
execute_load_store_lit-x31 i m r = ground arith
