-- ===== src/Timing/CacheStages.antt =====
-- timing/pipeline/cache_stages.go: the fetch and memory stages on the caches. The stages keep a pointer
-- to the memory that they never use, which is left out.
pub mod Waiting
pub mod Fetching
pub mod Loading
pub mod Storing
use m1sim.Base.{
  ℕ, Bool, true, false, not, ◌&&◌, ◌||◌, ◌==◌, if◌then◌else◌, ltb, Option, none, some, u32, add64,
  sub64,
}
use m1sim.Insts.{Op, Instruction}
use m1sim.Timing.Registers.{ExMem}
use m1sim.Timing.Cache.Settings.{AccessResult}
use m1sim.Timing.Cache.Parts.{Directory, BackingStore}
use m1sim.Timing.Cache.{Cache, read, write}
use m1sim.Timing.Stages.MemoryStage.{MemoryResult, no_data, is_stp}

pub record FetchResult : Type 0 where
  pub word : ℕ
  pub ok : Bool

pub record CachedFetchStage (L S : Type 0) : Type 0 where
  pub cache : Cache L S
  pub pending : Bool
  pub pending_pc : ℕ
  pub latency : ℕ
  pub result : Option FetchResult

-- What `Fetch` returns.
pub record Fetched : Type 0 where
  pub word : ℕ
  pub ok : Bool
  pub stall : Bool

abbrev pub stalling : Fetched
stalling = record { word = 0; ok = false; stall = true }

abbrev pub fetched : ℕ → Fetched
fetched word = record { word = word; ok = true; stall = false }

-- `memResult` holds one number. `is_hit` is kept for statistics that nothing reads.
pub record CachedMemoryStage (L S : Type 0) : Type 0 where
  pub cache : Cache L S
  pub pending : Bool
  pub pending_addr : ℕ
  pub pending_pc : ℕ
  pub latency : ℕ
  pub result : Option ℕ
  pub is_hit : Bool
  pub store_issued_pc : ℕ
  pub store_issued_addr : ℕ
  pub store_issued : Bool

-- What `Access` returns.
pub record Accessed : Type 0 where
  pub result : MemoryResult
  pub stall : Bool

abbrev pub holding : Accessed
holding = record { result = no_data; stall = true }

abbrev pub accessed : MemoryResult → Accessed
accessed result = record { result = result; stall = false }

-- The access size in bytes.
abbrev pub access_size : Option Instruction → ℕ
access_size none = 8
access_size (some i) = if i.is_64bit then 8 else 4

module _ {L S : Type 0} where
  abbrev pub new_cached_fetch_stage : Cache L S → CachedFetchStage L S
  new_cached_fetch_stage cache = record {
    cache = cache;
    pending = false;
    pending_pc = 0;
    latency = 0;
    result = none;
  }

  -- `if s.pending && s.pendingPC != pc`
  unfoldable pub cancel_fetch : ℕ → CachedFetchStage L S → CachedFetchStage L S
  cancel_fetch pc s =
      if s.pending && not (s.pending_pc == pc)
      then record s { pending = false; latency = 0; result = none }
      else s

  -- The branch `if s.pending`.
  unfoldable pub await_fetch : CachedFetchStage L S → Fetched × CachedFetchStage L S
  await_fetch s =
      let latency = sub64 s.latency 1 in
      if ltb 0 latency then (stalling, record s { latency = latency }) else (
        elim s.result [
          | none ↦ record { word = 0; ok = false; stall = false }
          | some r ↦ record { word = r.word; ok = r.ok; stall = false }
        ],
        record s { latency = latency; pending = false },
      )

  unfoldable pub reset_fetch : CachedFetchStage L S → CachedFetchStage L S
  reset_fetch s = record s { pending = false; latency = 0; result = none }

  abbrev pub new_cached_memory_stage : Cache L S → CachedMemoryStage L S
  new_cached_memory_stage cache = record {
    cache = cache;
    pending = false;
    pending_addr = 0;
    pending_pc = 0;
    latency = 0;
    result = none;
    is_hit = false;
    store_issued_pc = 0;
    store_issued_addr = 0;
    store_issued = false;
  }

  unfoldable pub cancel_access : ExMem → CachedMemoryStage L S → CachedMemoryStage L S
  cancel_access slot s =
      if s.pending && (not (s.pending_pc == slot.pc) || not (s.pending_addr == slot.alu_result))
      then record s { pending = false; latency = 0; result = none }
      else s

  unfoldable pub await_access : ExMem → CachedMemoryStage L S → Accessed × CachedMemoryStage L S
  await_access slot s =
      let latency = sub64 s.latency 1 in
      if ltb 0 latency then (holding, record s { latency = latency }) else (
        elim s.result [
          | none ↦ accessed no_data
          | some word ↦
              accessed (if slot.mem_read then record no_data { mem_data = word } else no_data)
        ],
        record s { latency = latency; pending = false },
      )

  -- The condition under which a store is a replay of the last one.
  unfoldable pub already_issued : ExMem → CachedMemoryStage L S → Bool
  already_issued slot s =
      s.store_issued && s.store_issued_pc == slot.pc && s.store_issued_addr == slot.alu_result

  unfoldable pub reset_access : CachedMemoryStage L S → CachedMemoryStage L S
  reset_access s = record s {
    pending = false;
    latency = 0;
    result = none;
    is_hit = false;
    store_issued = false;
  }

module _ {L S : Type 0} (d : Directory L) (b : BackingStore S) where
  -- The access of the cache, and the wait for the rest of a miss.
  unfoldable pub start_fetch : ℕ → CachedFetchStage L S → Fetched × CachedFetchStage L S
  start_fetch pc s =
      let (result, cache) = read d b pc 4 s.cache in
      if result.hit
      then (fetched (u32 result.word), record s { cache = cache })
      else let latency = sub64 result.latency 1 in
        let waiting = record s {
          cache = cache;
          pending = true;
          pending_pc = pc;
          latency = latency;
          result = some (record { word = u32 result.word; ok = true });
        } in
        if ltb 0 latency
        then (stalling, waiting)
        else (fetched (u32 result.word), record waiting { pending = false })

  unfoldable pub cached_fetch : ℕ → CachedFetchStage L S → Fetched × CachedFetchStage L S
  unfolding cancel_fetch await_fetch start_fetch
  cached_fetch pc s0 =
      let s = cancel_fetch pc s0 in if s.pending then await_fetch s else start_fetch pc s

  -- The branch `if exmem.MemRead`.
  unfoldable pub load_cached : ExMem → CachedMemoryStage L S → Accessed × CachedMemoryStage L S
  load_cached slot s =
      let (result, cache) = read d b slot.alu_result (access_size slot.inst) s.cache in
      let latency = sub64 result.latency 1 in
      let waiting = record s {
        cache = cache;
        pending = true;
        pending_pc = slot.pc;
        pending_addr = slot.alu_result;
        latency = latency;
        result = some result.word;
        is_hit = result.hit;
      } in
      if ltb 0 latency then (holding, waiting) else (
        accessed (record no_data { mem_data = result.word }),
        record waiting { pending = false },
      )

  -- The stores of `Access`, and of `AccessSlot`, which has the second one of STP.
  unfoldable pub write_first : ExMem → Cache L S → Cache L S
  write_first slot c = (write d b slot.alu_result (access_size slot.inst) slot.store_value c).1

  unfoldable pub write_pair : ExMem → Cache L S → Cache L S
  unfolding write_first
  write_pair slot c =
      let size = access_size slot.inst in
      let c1 = write_first slot c in
      if is_stp slot.inst
      then (write d b (add64 slot.alu_result size) size slot.store_value2 c1).1
      else c1

  -- The branch `if exmem.MemWrite`.
  unfoldable pub store_cached :
      (ExMem → Cache L S → Cache L S)
      → ExMem
      → CachedMemoryStage L S
      → Accessed × CachedMemoryStage L S
  unfolding already_issued
  store_cached put slot s = (
    accessed no_data,
    if already_issued slot s then record s { pending = false } else record s {
      cache = put slot s.cache;
      store_issued = true;
      store_issued_pc = slot.pc;
      store_issued_addr = slot.alu_result;
      pending = false;
    },
  )

  -- The body that `Access` and `AccessSlot` share.
  unfoldable pub access_with :
      (ExMem → Cache L S → Cache L S)
      → ExMem
      → CachedMemoryStage L S
      → Accessed × CachedMemoryStage L S
  unfolding cancel_access await_access load_cached store_cached
  access_with put slot s0 =
      if not slot.valid || not slot.mem_read && not slot.mem_write
      then (accessed no_data, record s0 { pending = false })
      else let s = cancel_access slot s0 in
        if s.pending
        then await_access slot s
        else if slot.mem_read
        then load_cached slot s
        else store_cached put slot s

  unfoldable pub cached_access : ExMem → CachedMemoryStage L S → Accessed × CachedMemoryStage L S
  unfolding access_with write_first
  cached_access slot s = access_with write_first slot s

  unfoldable pub cached_access_slot :
      ExMem → CachedMemoryStage L S → Accessed × CachedMemoryStage L S
  unfolding access_with write_pair
  cached_access_slot slot s = access_with write_pair slot s
