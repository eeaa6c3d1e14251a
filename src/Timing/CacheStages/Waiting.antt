-- ===== src/Timing/CacheStages/Waiting.antt =====
-- timing/pipeline/cache_stages.go: a call that is made again while the pipeline stalls, and the number
-- of cycles that the cache charges.
use m1sim.Base.{
  ℕ, zero, suc, Bool, false, ◌+◌, ◌<◌, ◌^◌, ◌≡◌, inl, inr, refl, sym, ap, subst, ◌∙◌, ◌&&◌, ◌==◌,
  if◌then◌else◌, add64, Option-cases, arith,
}
use m1sim.Timing.Cache.Settings.{AccessResult, Config}
use m1sim.Timing.Cache.Parts.{Slot, Directory, BackingStore}
use m1sim.Timing.Cache.{
  Cache, block_addr, evict, handle_miss, find_block, read, no_access, store_forward_latency,
}

-- The state after n calls.
abbrev pub times {ℓ} : {A : Type ℓ} → ℕ → (A → A) → A → A
times zero f s = s
times (suc n) f s = times n f (f s)

-- A call that stalls, and a part of the state that it works on.
module _ {O T C : Type 0} (call : T → O × T) (stall : O) (part : T → C) where
  abbrev pub next : T → T
  next s = (call s).1

  -- The call stalls n times and then gives the result, with the part c of the state.
  abbrev pub Completes : T → ℕ → O → C → Type 0
  Completes s n result c =
      ((k : ℕ) → k < n → (call (times k next s)).0 ≡ stall)
      × ((call (times n next s)).0 ≡ result)
      × (part (call (times n next s)).1 ≡ c)

  pub Completes-next :
      (s t : T) (n : ℕ) (result : O) (c : C)
      → call s ≡ (stall, t)
      → Completes t n result c
      → Completes s (suc n) result c
  Completes-next s t n result c h (stalls, done, rest) =
      let e : next s ≡ t = ap (λ p. p.1) h in
      (
        λ k. elim k as (λ k. k < suc n → (call (times k next s)).0 ≡ stall) [
          | zero ↦ λ l. ap (λ p. p.0) h
          | suc k' ↦
              λ l. subst (λ u. (call (times k' next u)).0 ≡ stall) (sym e) (stalls k' (omega arith))
        ],
        subst (λ u. (call (times n next u)).0 ≡ result) (sym e) done,
        subst (λ u. part (call (times n next u)).1 ≡ c) (sym e) rest,
      )

  pub Completes-now :
      (s t : T) (result : O) (c : C) → call s ≡ (result, t) → part t ≡ c → Completes s 0 result c
  Completes-now s t result c h e =
      (λ k l. absurd (omega arith), ap (λ p. p.0) h, ap (λ p. part p.1) h ∙ e)

  -- For the states `wait n`, which count down.
  pub Completes-waiting :
      (wait : ℕ → T) (t : T) (result : O) (c : C)
      → ((n : ℕ) → suc (suc n) < 2 ^ 64 → call (wait (suc (suc n))) ≡ (stall, wait (suc n)))
      → call (wait 1) ≡ (result, t)
      → part t ≡ c
      → (n : ℕ) → suc n < 2 ^ 64
      → Completes (wait (suc n)) n result c
  Completes-waiting wait t result c more last e zero l = Completes-now (wait 1) t result c last e
  Completes-waiting wait t result c more last e (suc n) l =
      Completes-next (wait (suc (suc n))) (wait (suc n)) n result c (more n l)
        (Completes-waiting wait t result c more last e n (omega arith))

-- Latencies with which no count of cycles wraps around.
abbrev pub IsTimed : Config → Type 0
IsTimed c =
    (0 < c.hit_latency)
    × (c.hit_latency + 1 < 2 ^ 64)
    × (0 < c.miss_latency)
    × (c.miss_latency < 2 ^ 64)

module _ {L S : Type 0} (d : Directory L) (b : BackingStore S) where
  evict-latency :
      (p : Slot) (r : AccessResult) (c : Cache L S) → (evict d b p r c).0.latency ≡ r.latency
  unfolding evict
  evict-latency p r c = ground arith

  handle_miss-latency :
      (addr size value : ℕ) (c : Cache L S)
      → (handle_miss d b addr size false value c).0.latency ≡ c.config.miss_latency
  unfolding handle_miss
  handle_miss-latency addr size value c =
      let start : AccessResult = record no_access { latency = c.config.miss_latency } in
      elim (Option-cases (d.find_victim c.directory c.blocks (block_addr c.config addr))) [
        | inl h ↦ rw (handle_miss, h) refl
        | inr (p, h) ↦ rw (handle_miss, h) (evict-latency p start c)
      ]

  abbrev In64 : ℕ → Type 0
  In64 n = (0 < n) × (n < 2 ^ 64)

  hit-latency :
      (f : Bool) (h : ℕ)
      → 0 < h
      → h + 1 < 2 ^ 64
      → In64 (if f then add64 h store_forward_latency else h)
  hit-latency f h p q = ground arith

  -- Every access takes a cycle at least.
  pub read-latency :
      (addr size : ℕ) (c : Cache L S) → IsTimed c.config → In64 (read d b addr size c).0.latency
  unfolding read
  read-latency addr size c (h1, h2, h3, h4) =
      let counted = record c { stats = record c.stats { reads = add64 c.stats.reads 1 } } in
      let missed = record counted {
        stats = record counted.stats { misses = add64 c.stats.misses 1 };
      } in
      elim (Option-cases (find_block d b addr counted)) [
        | inl h ↦
            let e : (read d b addr size c).0.latency ≡ c.config.miss_latency =
              rw (read, h) (handle_miss-latency addr size 0 missed) in
            subst In64 (sym e) (h3, h4)
        | inr (p, h) ↦
            let f = c.recent_store_valid && c.recent_store_addr == addr in
            let e : (read d b addr size c).0.latency ≡ (
                if f
                then add64 c.config.hit_latency store_forward_latency
                else c.config.hit_latency) =
              rw (read, h) refl in
            subst In64 (sym e) (hit-latency f c.config.hit_latency h1 h2)
      ]
