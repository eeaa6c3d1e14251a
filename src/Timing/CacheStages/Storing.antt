-- ===== src/Timing/CacheStages/Storing.antt =====
-- timing/pipeline/cache_stages.go: `Access` and `AccessSlot` of a store.
use m1sim.Base.{ℕ, zero, suc, true, false, ◌≡◌, refl, ap, sym, ◌∙◌, subst, eq→==, arith}
use m1sim.Timing.Registers.{ExMem}
use m1sim.Timing.Cache.Parts.{Directory, BackingStore}
use m1sim.Timing.Cache.{Cache}
use m1sim.Timing.Cache.View.{IsBackingStore, Reaches}
use m1sim.Timing.Cache.Valid.{IsValid, view}
use m1sim.Timing.Cache.Refinement.{stored}
use m1sim.Timing.Cache.ReadWrite.{write-StoresTo}
use m1sim.Timing.Stages.MemoryStage.{no_data, is_stp}
use m1sim.Timing.CacheStages.{
  CachedMemoryStage, Accessed, accessed, access_size, already_issued, cancel_access, store_cached,
  access_with, cached_access, cached_access_slot, write_first, write_pair,
}
use m1sim.Timing.CacheStages.Waiting.{times}
use m1sim.Timing.CacheStages.Loading.{IsIdle}

abbrev pub IsStore : ExMem → Type 0
IsStore slot = (slot.valid ≡ true) × (slot.mem_read ≡ false) × (slot.mem_write ≡ true)

-- The stage after the store was issued.
abbrev pub IsIssued : {L S : Type 0} → ExMem → CachedMemoryStage L S → Type 0
IsIssued slot s = (s.pending ≡ false) × (already_issued slot s ≡ true)

module _ {L S : Type 0} (d : Directory L) (b : BackingStore S) (put : ExMem → Cache L S → Cache L S)
    (slot : ExMem) (store : IsStore slot) where
  abbrev call : CachedMemoryStage L S → Accessed × CachedMemoryStage L S
  call s = access_with d b put slot s

  access_with-store :
      (s : CachedMemoryStage L S)
      → IsIdle slot s
      → (t : CachedMemoryStage L S) × (t.cache ≡ s.cache)
        × (already_issued slot t ≡ already_issued slot s)
        × (call s ≡ store_cached d b put slot t)
  unfolding access_with cancel_access already_issued
  access_with-store s h =
      let (v, r, m) = store in
      let p : (cancel_access slot s).pending ≡ false = ground arith in
      (cancel_access slot s, ground arith, ground arith, rw (access_with, v, r, m, p) refl)

  -- What a call leaves: no stall, the cache c and the store marked as issued.
  abbrev Leaves : Cache L S → Accessed × CachedMemoryStage L S → Type 0
  Leaves c a = (a.0 ≡ accessed no_data) × (a.1.cache ≡ c) × IsIssued slot a.1

  store_cached-issue :
      (t : CachedMemoryStage L S)
      → already_issued slot t ≡ false
      → Leaves (put slot t.cache) (store_cached d b put slot t)
  unfolding store_cached already_issued
  store_cached-issue t i =
      let e = eq→== slot.pc slot.pc refl in
      let f = eq→== slot.alu_result slot.alu_result refl in
      (
        refl,
        rw (store_cached, i) refl,
        (rw (store_cached, i) refl, rw (store_cached, i, already_issued, e, f) refl),
      )

  store_cached-replay :
      (t : CachedMemoryStage L S)
      → already_issued slot t ≡ true
      → Leaves t.cache (store_cached d b put slot t)
  unfolding store_cached already_issued
  store_cached-replay t i = (
    refl,
    rw (store_cached, i) refl,
    (rw (store_cached, i) refl, rw (store_cached, i, already_issued) i),
  )

  -- A call that issues the store, and one that replays it.
  pub access_with-issue :
      (s : CachedMemoryStage L S)
      → IsIdle slot s
      → already_issued slot s ≡ false
      → Leaves (put slot s.cache) (call s)
  access_with-issue s h i =
      let (t, c, j, e) = access_with-store s h in
      subst (λ a. Leaves (put slot s.cache) a) (sym e)
        (subst (λ c'. Leaves (put slot c') (store_cached d b put slot t)) c
          (store_cached-issue t (j ∙ i)))

  pub access_with-replay :
      (s : CachedMemoryStage L S)
      → IsIdle slot s
      → already_issued slot s ≡ true
      → Leaves s.cache (call s)
  access_with-replay s h i =
      let (t, c, j, e) = access_with-store s h in
      subst (λ a. Leaves s.cache a) (sym e)
        (subst (λ c'. Leaves c' (store_cached d b put slot t)) c (store_cached-replay t (j ∙ i)))

  -- However often the call is made again, the cache is written once.
  pub access_with-times :
      (n : ℕ) (c : Cache L S) (a : Accessed × CachedMemoryStage L S)
      → Leaves c a
      → Leaves c (times n (λ a. call a.1) a)
  access_with-times zero c a h = h
  access_with-times (suc n) c a (r, e, (p, i)) =
      let idle : IsIdle slot a.1 = ground arith in
      access_with-times n c (call a.1)
        (subst (λ c'. Leaves c' (call a.1)) e (access_with-replay a.1 idle i))

module _ {L S : Type 0} (d : Directory L) (b : BackingStore S) (memory : S → ℕ → ℕ) (set_of : ℕ → ℕ)
    (l : IsBackingStore b memory) (s : CachedMemoryStage L S)
    (w : IsValid d b memory set_of s.cache) (slot : ExMem)
    (fits : Reaches s.cache.config slot.alu_result) (store : IsStore slot) where
  -- The call neither stalls nor gives data, and the cache is valid with the stored bytes.
  abbrev pub StoresToCache : Accessed × CachedMemoryStage L S → Type 0
  StoresToCache a =
      (a.0 ≡ accessed no_data)
      × IsValid d b memory set_of a.1.cache
      × ((x : ℕ)
          → view d b memory a.1.cache x
            ≡ stored s.cache.config (view d b memory s.cache) slot.alu_result
                (access_size slot.inst) slot.store_value x)

  access_with-StoresToCache :
      (put : ExMem → Cache L S → Cache L S)
      → put slot s.cache ≡ write_first d b slot s.cache
      → IsIdle slot s
      → already_issued slot s ≡ false
      → (n : ℕ)
      → StoresToCache (times n (λ a. access_with d b put slot a.1) (access_with d b put slot s))
  unfolding write_first
  access_with-StoresToCache put p f i n =
      let size = access_size slot.inst in
      let (r, e, _) =
        access_with-times d b put slot store n (put slot s.cache) (access_with d b put slot s)
          (access_with-issue d b put slot store s f i) in
      let (v, same) =
        write-StoresTo d b memory set_of l s.cache w slot.alu_result fits size slot.store_value in
      (
        r,
        subst (λ c. IsValid d b memory set_of c) (sym (e ∙ p)) v,
        λ x. ap (λ c. view d b memory c x) (e ∙ p) ∙ same x,
      )

  -- For a directory and a backing store that keep what they promise (IsDirectory, IsBackingStore),
  -- a valid cache, a store whose block ends within the 64-bit address space, and a stage with no
  -- access for it under way that did not issue it last, `Access` completes at once and leaves a
  -- valid cache that has the stored bytes at the address (none for a store that leaves its block)
  -- and every other byte as before; this stays so however often the call is made again.
  pub cached_access-StoresToCache :
      IsIdle slot s
      → already_issued slot s ≡ false
      → (n : ℕ)
      → StoresToCache (times n (λ a. cached_access d b slot a.1) (cached_access d b slot s))
  unfolding cached_access
  cached_access-StoresToCache f i n = access_with-StoresToCache (write_first d b) refl f i n

  -- The same of `AccessSlot`, on a slot that is no STP.
  pub cached_access_slot-StoresToCache :
      is_stp slot.inst ≡ false
      → IsIdle slot s
      → already_issued slot s ≡ false
      → (n : ℕ)
      → StoresToCache
          (times n (λ a. cached_access_slot d b slot a.1) (cached_access_slot d b slot s))
  unfolding cached_access_slot write_pair
  cached_access_slot-StoresToCache h f i n =
      access_with-StoresToCache (write_pair d b) (rw (write_pair, h) refl) f i n
