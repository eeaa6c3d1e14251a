-- ===== src/Timing/CacheStages/Fetching.antt =====
-- timing/pipeline/cache_stages.go: `Fetch`, called at one PC until it completes.
use m1sim.Base.{
  ℕ, zero, suc, true, false, ◌-◌, ◌<◌, ◌^◌, ◌≡◌, inl, inr, refl, ap, sym, ◌∙◌, subst, ◌&&◌, ◌==◌,
  if◌then◌else◌, ltb, some, u32, sub64, Bool-cases, eq→==, arith,
}
use m1sim.Timing.Cache.Parts.{Directory, BackingStore}
use m1sim.Timing.Cache.{Cache, read}
use m1sim.Timing.Cache.View.{IsBackingStore, Reaches}
use m1sim.Timing.Cache.Valid.{IsValid, view}
use m1sim.Timing.Cache.Refinement.{loaded}
use m1sim.Timing.Cache.ReadWrite.{read-LoadsFrom}
use m1sim.Timing.CacheStages.{
  CachedFetchStage, stalling, fetched, cancel_fetch, await_fetch, start_fetch, cached_fetch,
}
use m1sim.Timing.CacheStages.Waiting.{
  times, Completes, Completes-next, Completes-now, Completes-waiting, IsTimed, read-latency,
}

module _ {L S : Type 0} (d : Directory L) (b : BackingStore S) where
  -- The stage that waits for n more cycles.
  abbrev waiting : ℕ → ℕ → ℕ → Cache L S → CachedFetchStage L S
  waiting pc n word c = record {
    cache = c;
    pending = true;
    pending_pc = pc;
    latency = n;
    result = some (record { word = word; ok = true });
  }

  abbrev pub next_fetch : ℕ → CachedFetchStage L S → CachedFetchStage L S
  next_fetch pc s = (cached_fetch d b pc s).1

  -- No wait for the PC is under way.
  abbrev pub IsFree : ℕ → CachedFetchStage L S → Type 0
  IsFree pc s = (s.pending && s.pending_pc == pc) ≡ false

  -- The fetch stalls n times and then gives the word, with the cache c.
  abbrev pub Fetches : ℕ → CachedFetchStage L S → ℕ → ℕ → Cache L S → Type 0
  Fetches pc s n word c =
      Completes (cached_fetch d b pc) stalling (λ t. t.cache) s n (fetched word) c

  fetch-waiting_one :
      (pc word : ℕ) (c : Cache L S)
      → cached_fetch d b pc (waiting pc 1 word c)
        ≡ (fetched word, record (waiting pc 0 word c) { pending = false })
  unfolding cached_fetch cancel_fetch await_fetch
  fetch-waiting_one pc word c = rw (cached_fetch, cancel_fetch, eq→== pc pc refl) refl

  fetch-waiting :
      (pc n word : ℕ) (c : Cache L S)
      → suc (suc n) < 2 ^ 64
      → cached_fetch d b pc (waiting pc (suc (suc n)) word c)
        ≡ (stalling, waiting pc (suc n) word c)
  unfolding cached_fetch cancel_fetch await_fetch
  fetch-waiting pc n word c h =
      let e : sub64 (suc (suc n)) 1 ≡ suc n = omega arith in
      let l : ltb 0 (suc n) ≡ true = ground arith in
      rw (cached_fetch, cancel_fetch, eq→== pc pc refl, e, l) refl

  -- The cycles that a fetch stalls.
  abbrev pub fetch_wait : ℕ → Cache L S → ℕ
  fetch_wait pc c = let r = (read d b pc 4 c).0 in if r.hit then 0 else r.latency - 1

  cached_fetch-free :
      (pc : ℕ) (s : CachedFetchStage L S)
      → IsFree pc s
      → (t : CachedFetchStage L S) × (t.cache ≡ s.cache)
        × (cached_fetch d b pc s ≡ start_fetch d b pc t)
  unfolding cached_fetch cancel_fetch
  cached_fetch-free pc s h =
      let p : (cancel_fetch pc s).pending ≡ false = ground arith in
      (cancel_fetch pc s, ground arith, rw (cached_fetch, p) refl)

  -- The access of the cache, which is made once.
  abbrev Started : ℕ → CachedFetchStage L S → Cache L S → Type 0
  Started pc s c = Fetches pc s (fetch_wait pc c) (u32 (read d b pc 4 c).0.word) (read d b pc 4 c).1

  start_fetch-miss :
      (pc n : ℕ) (s t : CachedFetchStage L S)
      → cached_fetch d b pc s ≡ start_fetch d b pc t
      → (read d b pc 4 t.cache).0.hit ≡ false
      → (read d b pc 4 t.cache).0.latency ≡ suc n
      → suc n < 2 ^ 64
      → Fetches pc s n (u32 (read d b pc 4 t.cache).0.word) (read d b pc 4 t.cache).1
  unfolding start_fetch
  start_fetch-miss pc zero s t e h l i =
      let word = u32 (read d b pc 4 t.cache).0.word in
      let c = (read d b pc 4 t.cache).1 in
      Completes-now (cached_fetch d b pc) stalling (λ t. t.cache) s
        (record (waiting pc 0 word c) { pending = false }) (fetched word) c
        (e ∙ rw (start_fetch, h, l) refl) refl
  start_fetch-miss pc (suc n) s t e h l i =
      let word = u32 (read d b pc 4 t.cache).0.word in
      let c = (read d b pc 4 t.cache).1 in
      let m : sub64 (suc (suc n)) 1 ≡ suc n = omega arith in
      let g : ltb 0 (suc n) ≡ true = ground arith in
      Completes-next (cached_fetch d b pc) stalling (λ t. t.cache) s (waiting pc (suc n) word c) n
        (fetched word) c (e ∙ rw (start_fetch, h, l, m, g) refl)
        (Completes-waiting (cached_fetch d b pc) stalling (λ t. t.cache) (λ k. waiting pc k word c)
          (record (waiting pc 0 word c) { pending = false }) (fetched word) c
          (λ k. fetch-waiting pc k word c) (fetch-waiting_one pc word c) refl n (omega arith))

  abbrev Charged : ℕ → Cache L S → Type 0
  Charged pc c = (0 < (read d b pc 4 c).0.latency) × ((read d b pc 4 c).0.latency < 2 ^ 64)

  start_fetch-Fetches :
      (pc : ℕ) (s t : CachedFetchStage L S)
      → cached_fetch d b pc s ≡ start_fetch d b pc t
      → Charged pc t.cache
      → Started pc s t.cache
  unfolding start_fetch
  start_fetch-Fetches pc s t e (l1, l2) =
      let r = (read d b pc 4 t.cache).0 in
      let word = u32 r.word in
      let done = (read d b pc 4 t.cache).1 in
      elim (Bool-cases r.hit) [
        | inl h ↦
            let w : fetch_wait pc t.cache ≡ 0 = rw h refl in
            subst (λ n. Fetches pc s n word done) (sym w)
              (Completes-now (cached_fetch d b pc) stalling (λ t. t.cache) s
                (record t { cache = done }) (fetched word) done (e ∙ rw (start_fetch, h) refl) refl)
        | inr h ↦
            let w : fetch_wait pc t.cache ≡ r.latency - 1 = rw h refl in
            subst (λ n. Fetches pc s n word done) (sym w)
              (start_fetch-miss pc (r.latency - 1) s t e h (omega arith) (omega arith))
      ]

  cached_fetch-Fetches :
      (pc : ℕ) (s : CachedFetchStage L S) → IsFree pc s → Charged pc s.cache → Started pc s s.cache
  cached_fetch-Fetches pc s f l =
      let (t, c, e) = cached_fetch-free pc s f in
      subst (λ c'. Started pc s c') c
        (start_fetch-Fetches pc s t e (subst (λ c'. Charged pc c') (sym c) l))

module _ {L S : Type 0} (d : Directory L) (b : BackingStore S) (memory : S → ℕ → ℕ) (set_of : ℕ → ℕ)
    (l : IsBackingStore b memory) (s : CachedFetchStage L S) (w : IsValid d b memory set_of s.cache)
    (pc : ℕ) (fits : Reaches s.cache.config pc) where
  -- For a directory and a backing store that keep what they promise (IsDirectory, IsBackingStore),
  -- a valid cache whose latencies are positive and do not wrap around (IsTimed), a PC whose block
  -- ends within the 64-bit address space, and a stage with no wait for that PC under way, the calls
  -- of `Fetch` at that PC stall for the cycles of the miss but one, or for none on a hit, and the
  -- next call completes with the four bytes that the cache with its backing store has at the PC (0
  -- for a fetch that leaves its block). The cache is then valid and has the same byte at every
  -- address.
  pub cached_fetch_lem :
      IsFree d b pc s
      → IsTimed s.cache.config
      → (n : ℕ) × (n ≡ fetch_wait d b pc s.cache)
        × ((k : ℕ) → k < n → (cached_fetch d b pc (times k (next_fetch d b pc) s)).0 ≡ stalling)
        × ((cached_fetch d b pc (times n (next_fetch d b pc) s)).0
            ≡ fetched (u32 (loaded s.cache.config (view d b memory s.cache) pc 4)))
        × IsValid d b memory set_of (cached_fetch d b pc (times n (next_fetch d b pc) s)).1.cache
        × ((x : ℕ)
            → view d b memory (cached_fetch d b pc (times n (next_fetch d b pc) s)).1.cache x
              ≡ view d b memory s.cache x)
  cached_fetch_lem f t =
      let (stalls, done, cache) =
        cached_fetch-Fetches d b pc s f (read-latency d b pc 4 s.cache t) in
      let (v, g, same) = read-LoadsFrom d b memory set_of l s.cache w pc fits 4 in
      (
        fetch_wait d b pc s.cache,
        refl,
        stalls,
        done ∙ ap (λ v. fetched (u32 v)) g,
        subst (λ c. IsValid d b memory set_of c) (sym cache) v,
        λ x. ap (λ c. view d b memory c x) cache ∙ same x,
      )
