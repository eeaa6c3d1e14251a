-- ===== src/Timing/Superscalar.antt =====
-- timing/pipeline/superscalar.go: which decoded instructions issue in one cycle. A pointer to a
-- register is an Option, and the array of the earlier ones is the list of those below its count.
pub mod Slots
pub mod Ports
pub mod Loop
pub mod Loads
pub mod Hazards
pub mod Dual
mod Tests
use m1sim.Base.{
  ℕ, Bool, true, false, not, ◌+◌, ◌&&◌, ◌||◌, ◌==◌, if◌then◌else◌, ltb, leb, Option, none, some,
  List, [], ◌∷◌, length,
}
use m1sim.Insts.{Op, Format, Instruction}
use m1sim.Timing.Registers.{IdEx}
use m1sim.Timing.Hazard.{is_ldp, rt2_of}
use m1sim.Timing.Stages.MemoryStage.{is_stp}

pub record SuperscalarConfig : Type 0 where
  pub issue_width : ℕ

abbrev pub default_superscalar_config : SuperscalarConfig
default_superscalar_config = record { issue_width = 1 }

abbrev pub dual_issue_config : SuperscalarConfig
dual_issue_config = record { issue_width = 2 }

abbrev pub quad_issue_config : SuperscalarConfig
quad_issue_config = record { issue_width = 4 }

abbrev pub sextuple_issue_config : SuperscalarConfig
sextuple_issue_config = record { issue_width = 6 }

abbrev pub octuple_issue_config : SuperscalarConfig
octuple_issue_config = record { issue_width = 8 }

abbrev pub max_alu_ports : ℕ
max_alu_ports = 6

abbrev pub max_load_ports : ℕ
max_load_ports = 3

abbrev pub max_store_ports : ℕ
max_store_ports = 2

abbrev pub max_mem_ports : ℕ
max_mem_ports = 3

abbrev pub max_write_ports : ℕ
max_write_ports = 4

-- `x.Inst != nil && x.Inst.Op == ...` and the like.
abbrev pub is_svc : Option Instruction → Bool
is_svc none = false
is_svc (some i) = elim i.op [ Op.svc ↦ true | _ ↦ false ]

abbrev pub is_multiply_add : Option Instruction → Bool
is_multiply_add none = false
is_multiply_add (some i) = elim i.op [ Op.madd ↦ true | Op.msub ↦ true | _ ↦ false ]

abbrev pub is_dp_reg : Option Instruction → Bool
is_dp_reg none = false
is_dp_reg (some i) = elim i.format [ Format.dp_reg ↦ true | _ ↦ false ]

abbrev pub has_rd : ℕ → Option Instruction → Bool
has_rd rd none = false
has_rd rd (some i) = i.rd == rd

-- `isMADDChain`
abbrev pub is_madd_chain : IdEx → IdEx → Bool
is_madd_chain prev new =
    is_multiply_add prev.inst && is_multiply_add new.inst && rt2_of new.inst == prev.rd

-- Rn, or Rm of a register format, is the register.
abbrev pub reads : IdEx → ℕ → Bool
reads new reg = new.rn == reg || is_dp_reg new.inst && new.rm == reg

-- Both write the same register, and it is no accumulation.
abbrev pub writes_again : IdEx → IdEx → Bool
writes_again prev new =
    prev.reg_write
    && new.reg_write
    && prev.rd == new.rd
    && not (prev.rd == 31)
    && not (is_madd_chain prev new)

abbrev pub one_if : Bool → ℕ
one_if b = if b then 1 else 0

abbrev pub dual_counts : IdEx → IdEx → ℕ × ℕ
dual_counts first second = (
  one_if first.mem_read + one_if second.mem_read,
  one_if first.mem_write + one_if second.mem_write,
)

-- The part of `canDualIssue` after the test for valid registers.
unfoldable pub can_dual_issue_valid : IdEx → IdEx → Bool
can_dual_issue_valid first second =
    let (loads, stores) = dual_counts first second in
    if first.is_branch || second.is_branch
    then false
    else if is_svc first.inst || is_svc second.inst
    then false
    else if first.mem_write && second.mem_read
    then false
    else if ltb max_mem_ports (loads + stores)
    then false
    else if ltb max_store_ports stores
    then false
    else if first.reg_write
        && not (first.rd == 31)
        && (second.mem_write && has_rd first.rd second.inst
            || reads second first.rd && first.mem_read)
    then false
    else not (writes_again first second)

unfoldable pub can_dual_issue : Option IdEx → Option IdEx → Bool
unfolding can_dual_issue_valid
can_dual_issue none second = false
can_dual_issue (some first) none = false
can_dual_issue (some first) (some second) =
    if not first.valid || not second.valid then false else can_dual_issue_valid first second

unfoldable pub is_alu_op : Option IdEx → Bool
is_alu_op none = false
is_alu_op (some i) =
    if not i.valid
    then false
    else if i.mem_read || i.mem_write
    then false
    else if i.is_branch
    then false
    else not (is_svc i.inst)

-- The ports that the instructions of a cycle use.
pub record PortCounts : Type 0 where
  pub loads : ℕ
  pub stores : ℕ
  pub alu_ops : ℕ
  pub write_ports : ℕ

abbrev pub counts_of : IdEx → PortCounts
counts_of i = record {
  loads = one_if i.mem_read;
  stores = one_if i.mem_write;
  alu_ops = one_if (is_alu_op (some i));
  write_ports = one_if i.reg_write;
}

abbrev pub add_counts : PortCounts → PortCounts → PortCounts
add_counts a b = record {
  loads = a.loads + b.loads;
  stores = a.stores + b.stores;
  alu_ops = a.alu_ops + b.alu_ops;
  write_ports = a.write_ports + b.write_ports;
}

-- The second register that an earlier LDP loads, if the new instruction does not read the first.
abbrev pub loads_rt2 : IdEx → IdEx → Bool
loads_rt2 new prev =
    not (reads new prev.rd) && prev.mem_read && is_ldp prev.inst && not (rt2_of prev.inst == 31)

-- A store of a register that the earlier instruction writes: the second one of an LDP, its
-- destination, or, for STP, as the second value.
abbrev pub stores_rt2 : IdEx → IdEx → Bool
stores_rt2 new prev = loads_rt2 new prev && new.mem_write && has_rd (rt2_of prev.inst) new.inst

abbrev pub stores_rd : IdEx → IdEx → Bool
stores_rd new prev = new.mem_write && has_rd prev.rd new.inst

abbrev pub stores_rd_second : IdEx → IdEx → Bool
stores_rd_second new prev =
    new.mem_write && is_stp new.inst && not (rt2_of new.inst == 31) && rt2_of new.inst == prev.rd

-- `hasRAW && prev.MemRead`
abbrev pub reads_loaded : IdEx → IdEx → Bool
reads_loaded new prev =
    (reads new prev.rd || loads_rt2 new prev && reads new (rt2_of prev.inst)) && prev.mem_read

-- The conditions of the loop on which it returns false.
unfoldable pub conflicts : IdEx → IdEx → Bool
conflicts new prev =
    prev.mem_write && new.mem_read
    || prev.reg_write
      && not (prev.rd == 31)
      && (stores_rt2 new prev
          || stores_rd new prev
          || stores_rd_second new prev
          || reads_loaded new prev)
    || writes_again prev new

-- The loop over the earlier instructions: its counts, or none where it returns false.
unfoldable pub count_ports : IdEx → List (Option IdEx) → PortCounts → Option PortCounts
unfolding conflicts
count_ports new [] c = some c
count_ports new (none ∷ earlier) c = count_ports new earlier c
count_ports new (some prev ∷ earlier) c =
    let skipped = count_ports new earlier c in
    let counted = count_ports new earlier (add_counts c (counts_of prev)) in
    if not prev.valid then skipped else if conflicts new prev then none else counted

-- The tests after the loop.
unfoldable pub within_ports : PortCounts → Bool
within_ports c =
    if ltb max_mem_ports (c.loads + c.stores)
    then false
    else if ltb max_load_ports c.loads
    then false
    else if ltb max_store_ports c.stores
    then false
    else if ltb max_alu_ports c.alu_ops
    then false
    else leb c.write_ports max_write_ports

-- What the code does with a branch.
pub data BranchIssue : Type 0 where
  flags_only register_check never : BranchIssue

abbrev pub branch_issue : Option Instruction → BranchIssue
branch_issue none = never
branch_issue (some i) = elim i.op [
  | Op.b_cond ↦ flags_only
  | Op.cbz ↦ register_check
  | Op.cbnz ↦ register_check
  | Op.tbz ↦ register_check
  | Op.tbnz ↦ register_check
  | _ ↦ never
]

abbrev pub sets_flags : Option IdEx → Bool
sets_flags none = false
sets_flags (some prev) = elim prev.inst [ none ↦ false | some i ↦ i.set_flags ]

abbrev pub any_sets_flags : List (Option IdEx) → Bool
any_sets_flags [] = false
any_sets_flags (prev ∷ earlier) = sets_flags prev || any_sets_flags earlier

-- The part of `canIssueWith` after the branches.
unfoldable pub can_issue_registers : IdEx → List (Option IdEx) → Bool
unfolding count_ports within_ports
can_issue_registers new earlier =
    if is_svc new.inst
    then false
    else if (new.mem_read || new.mem_write) && leb max_mem_ports (length earlier)
    then false
    else elim (count_ports new earlier (counts_of new)) [ none ↦ false | some c ↦ within_ports c ]

unfoldable pub can_issue_with : Option IdEx → List (Option IdEx) → Bool
unfolding can_issue_registers
can_issue_with none earlier = false
can_issue_with (some new) earlier =
    if not new.valid
    then false
    else if new.is_branch
    then elim (branch_issue new.inst) [
      | flags_only ↦ not (any_sets_flags earlier)
      | register_check ↦ can_issue_registers new earlier
      | never ↦ false
    ]
    else can_issue_registers new earlier
