-- ===== src/Timing/CacheStages/Loading.antt =====
-- timing/pipeline/cache_stages.go: `Access` and `AccessSlot` of a load, called until it completes.
use m1sim.Base.{
  ℕ, zero, suc, Bool, true, false, ◌-◌, ◌<◌, ◌^◌, ◌≡◌, refl, ap, sym, ◌∙◌, subst, ◌&&◌, ◌==◌, ltb,
  some, sub64, eq→==, arith,
}
use m1sim.Timing.Registers.{ExMem}
use m1sim.Timing.Cache.Parts.{Directory, BackingStore}
use m1sim.Timing.Cache.{Cache, read}
use m1sim.Timing.Cache.View.{IsBackingStore, Reaches}
use m1sim.Timing.Cache.Valid.{IsValid, view}
use m1sim.Timing.Cache.Refinement.{loaded}
use m1sim.Timing.Cache.ReadWrite.{read-LoadsFrom}
use m1sim.Timing.Stages.MemoryStage.{no_data}
use m1sim.Timing.CacheStages.{
  CachedMemoryStage, Accessed, holding, accessed, access_size, cancel_access, await_access,
  load_cached, access_with, cached_access, cached_access_slot, write_first, write_pair,
}
use m1sim.Timing.CacheStages.Waiting.{
  times, next, Completes, Completes-next, Completes-now, Completes-waiting, IsTimed, read-latency,
}

-- The slot of a load.
abbrev pub IsLoad : ExMem → Type 0
IsLoad slot = (slot.valid ≡ true) × (slot.mem_read ≡ true)

abbrev pub loads : ℕ → Accessed
loads word = accessed (record no_data { mem_data = word })

-- No access for the slot is under way.
abbrev pub IsIdle : {L S : Type 0} → ExMem → CachedMemoryStage L S → Type 0
IsIdle slot s = (s.pending && s.pending_pc == slot.pc && s.pending_addr == slot.alu_result) ≡ false

module _ {L S : Type 0} (d : Directory L) (b : BackingStore S) (put : ExMem → Cache L S → Cache L S)
    (slot : ExMem) (load : IsLoad slot) where
  abbrev call : CachedMemoryStage L S → Accessed × CachedMemoryStage L S
  call s = access_with d b put slot s

  abbrev cache_of : CachedMemoryStage L S → Cache L S
  cache_of s = s.cache

  -- The stage that waits for n more cycles.
  abbrev waiting : ℕ → ℕ → Cache L S → Bool → CachedMemoryStage L S → CachedMemoryStage L S
  waiting n word c hit s = record s {
    cache = c;
    pending = true;
    pending_pc = slot.pc;
    pending_addr = slot.alu_result;
    latency = n;
    result = some word;
    is_hit = hit;
  }

  access-waiting_one :
      (word : ℕ) (c : Cache L S) (hit : Bool) (s : CachedMemoryStage L S)
      → call (waiting 1 word c hit s)
        ≡ (loads word, record (waiting 0 word c hit s) { pending = false })
  unfolding access_with cancel_access await_access
  access-waiting_one word c hit s =
      let (v, r) = load in
      rw
        (
          access_with,
          v,
          r,
          cancel_access,
          eq→== slot.pc slot.pc refl,
          eq→== slot.alu_result slot.alu_result refl,
          await_access,
          r,
        )
        refl

  access-waiting :
      (n word : ℕ) (c : Cache L S) (hit : Bool) (s : CachedMemoryStage L S)
      → suc (suc n) < 2 ^ 64
      → call (waiting (suc (suc n)) word c hit s) ≡ (holding, waiting (suc n) word c hit s)
  unfolding access_with cancel_access await_access
  access-waiting n word c hit s h =
      let (v, r) = load in
      let e : sub64 (suc (suc n)) 1 ≡ suc n = omega arith in
      let l : ltb 0 (suc n) ≡ true = ground arith in
      rw
        (
          access_with,
          v,
          r,
          cancel_access,
          eq→== slot.pc slot.pc refl,
          eq→== slot.alu_result slot.alu_result refl,
          await_access,
          e,
          l,
        )
        refl

  access_with-idle :
      (s : CachedMemoryStage L S)
      → IsIdle slot s
      → (t : CachedMemoryStage L S) × (t.cache ≡ s.cache) × (call s ≡ load_cached d b slot t)
  unfolding access_with cancel_access
  access_with-idle s h =
      let (v, r) = load in
      let p : (cancel_access slot s).pending ≡ false = ground arith in
      (cancel_access slot s, ground arith, rw (access_with, v, r, p) refl)

  abbrev result_of : Cache L S → ℕ
  result_of c = (read d b slot.alu_result (access_size slot.inst) c).0.word

  abbrev cycles_of : Cache L S → ℕ
  cycles_of c = (read d b slot.alu_result (access_size slot.inst) c).0.latency

  abbrev after_read : Cache L S → Cache L S
  after_read c = (read d b slot.alu_result (access_size slot.inst) c).1

  -- The call stalls n times and then gives what `Read` of the cache c gives.
  abbrev pub Loads : CachedMemoryStage L S → Cache L S → ℕ → Type 0
  Loads s c n = Completes call holding cache_of s n (loads (result_of c)) (after_read c)

  load_cached-Loads :
      (n : ℕ) (s t : CachedMemoryStage L S)
      → call s ≡ load_cached d b slot t
      → cycles_of t.cache ≡ suc n
      → suc n < 2 ^ 64
      → Loads s t.cache n
  unfolding load_cached
  load_cached-Loads zero s t e l i =
      let r = (read d b slot.alu_result (access_size slot.inst) t.cache).0 in
      let done = record (waiting 0 r.word (after_read t.cache) r.hit t) { pending = false } in
      Completes-now call holding cache_of s done (loads r.word) (after_read t.cache)
        (e ∙ rw (load_cached, l) refl) refl
  load_cached-Loads (suc n) s t e l i =
      let r = (read d b slot.alu_result (access_size slot.inst) t.cache).0 in
      let c = after_read t.cache in
      let m : sub64 (suc (suc n)) 1 ≡ suc n = omega arith in
      let g : ltb 0 (suc n) ≡ true = ground arith in
      Completes-next call holding cache_of s (waiting (suc n) r.word c r.hit t) n (loads r.word) c
        (e ∙ rw (load_cached, l, m, g) refl)
        (Completes-waiting call holding cache_of (λ k. waiting k r.word c r.hit t)
          (record (waiting 0 r.word c r.hit t) { pending = false }) (loads r.word) c
          (λ k. access-waiting k r.word c r.hit t) (access-waiting_one r.word c r.hit t) refl n
          (omega arith))

  pub access_with-Loads :
      (s : CachedMemoryStage L S)
      → IsIdle slot s
      → (0 < cycles_of s.cache) × (cycles_of s.cache < 2 ^ 64)
      → Loads s s.cache (cycles_of s.cache - 1)
  access_with-Loads s f (l1, l2) =
      let (t, c, e) = access_with-idle s f in
      let k = cycles_of s.cache - 1 in
      subst (λ c'. Loads s c' k) c
        (load_cached-Loads k s t e (ap (λ c'. cycles_of c') c ∙ omega arith) (omega arith))

module _ {L S : Type 0} (d : Directory L) (b : BackingStore S) (memory : S → ℕ → ℕ) (set_of : ℕ → ℕ)
    (l : IsBackingStore b memory) (s : CachedMemoryStage L S)
    (w : IsValid d b memory set_of s.cache) where
  -- The calls of f stall n times and give the number that the cache has at the address of the slot,
  -- and leave the cache as it is seen.
  abbrev pub LoadsFromCache :
      ExMem → (CachedMemoryStage L S → Accessed × CachedMemoryStage L S) → ℕ → Type 0
  LoadsFromCache slot f n =
      ((k : ℕ) → k < n → (f (times k (next f holding (λ t. t.cache)) s)).0 ≡ holding)
      × ((f (times n (next f holding (λ t. t.cache)) s)).0
          ≡ loads (
              loaded s.cache.config (view d b memory s.cache) slot.alu_result
                (access_size slot.inst)))
      × IsValid d b memory set_of (f (times n (next f holding (λ t. t.cache)) s)).1.cache
      × ((x : ℕ)
          → view d b memory (f (times n (next f holding (λ t. t.cache)) s)).1.cache x
            ≡ view d b memory s.cache x)

  module _ (slot : ExMem) (fits : Reaches s.cache.config slot.alu_result) (load : IsLoad slot)
      (f : IsIdle slot s) (t : IsTimed s.cache.config) where
    -- The cycles that the cache charges for the load.
    abbrev pub load_cycles : ℕ
    load_cycles = (read d b slot.alu_result (access_size slot.inst) s.cache).0.latency

    access_with-LoadsFromCache :
        (put : ExMem → Cache L S → Cache L S)
        → LoadsFromCache slot (access_with d b put slot) (load_cycles - 1)
    access_with-LoadsFromCache put =
        let size = access_size slot.inst in
        let (stalls, done, cache) =
          access_with-Loads d b put slot load s f
            (read-latency d b slot.alu_result size s.cache t) in
        let (v, g, same) = read-LoadsFrom d b memory set_of l s.cache w slot.alu_result fits size in
        (
          stalls,
          done ∙ ap loads g,
          subst (λ c. IsValid d b memory set_of c) (sym cache) v,
          λ x. ap (λ c. view d b memory c x) cache ∙ same x,
        )

    -- For a directory and a backing store that keep what they promise (IsDirectory,
    -- IsBackingStore), a valid cache whose latencies are positive and do not wrap around (IsTimed),
    -- a load whose block ends within the 64-bit address space, and a stage with no access for it
    -- under way, the calls of `Access` and those of `AccessSlot` stall for the cycles of the cache
    -- but one, and the next call completes with the 4 or 8 bytes that the cache with its backing
    -- store has at the address (0 for an access that leaves its block), and with no second word.
    -- The cache is then valid and has the same byte at every address.
    pub cached_access-LoadsFromCache :
        LoadsFromCache slot (cached_access d b slot) (load_cycles - 1)
        × LoadsFromCache slot (cached_access_slot d b slot) (load_cycles - 1)
    unfolding cached_access cached_access_slot
    cached_access-LoadsFromCache =
        (access_with-LoadsFromCache (write_first d b), access_with-LoadsFromCache (write_pair d b))
