-- ===== src/Timing/Latency/Bounds.antt =====
-- timing/latency: what `Validate` guarantees of the latencies that `GetLatency` gives.
use m1sim.Base.{Bool, true, false, ◌<◌, ◌≡◌, ◌||◌, Option, none, some, arith, refl}
use m1sim.Insts.{Op, Instruction}
use m1sim.Timing.Latency.{
  TimingConfig, validate, get_latency, is_simd_op, is_load_op, is_store_op, is_memory_op,
}

-- A multiplication.
abbrev pub multiplies : Op → Bool
multiplies op = elim op [ Op.madd ↦ true | Op.msub ↦ true | _ ↦ false ]

-- Under a configuration that `Validate` accepts, every instruction but a multiplication or a SIMD
-- operation takes at least one cycle.
pub get_latency-validate :
    (c : TimingConfig) (i : Instruction)
    → validate c ≡ none
    → multiplies i.op ≡ false
    → is_simd_op (some i) ≡ false
    → 0 < get_latency c (some i)
unfolding validate get_latency is_simd_op
get_latency-validate c i h m s = ground arith

pub is_memory_op_lem : (o : Option Instruction) → is_memory_op o ≡ (is_load_op o || is_store_op o)
unfolding is_memory_op is_load_op is_store_op
is_memory_op_lem none = refl
is_memory_op_lem (some i) = ground arith
