-- ===== src/Timing/Cache/Operations.antt =====
-- `handleMiss` of timing/cache/cache.go as a load and as a store.
use m1sim.Base.{ℕ, Bool, true, false, ◌≡◌, some, refl, ap, sym, fun_ext, if◌then◌else◌, ◌∙◌, subst}
use m1sim.Timing.Cache.Settings.{AccessResult, Statistics}
use m1sim.Timing.Cache.Parts.{Slot, Directory, BackingStore}
use m1sim.Timing.Cache.View.{InDirectory, IsBackingStore, Reaches}
use m1sim.Timing.Cache.{
  Cache, block_addr, evict, refill, store_into, extract_from, visited, handle_miss, no_access,
}
use m1sim.Timing.Cache.Coherence.{Holds, Misses}
use m1sim.Timing.Cache.Coherence.Refill.{IsEvicted}
use m1sim.Timing.Cache.Coherence.Refill
use m1sim.Timing.Cache.Valid.{memory_of, IsValid, view}
use m1sim.Timing.Cache.Access.{evict_lem, fetched-IsValid, view-fetched}
use m1sim.Timing.Cache.Refinement.{
  loaded, stored, view-relabelled, extract_from-view, store_into-IsValid, view-store_into,
}

module _ {L S : Type 0} (d : Directory L) (b : BackingStore S) (memory : S → ℕ → ℕ) (set_of : ℕ → ℕ)
    (l : IsBackingStore b memory) where
  abbrev pub seen : Cache L S → ℕ → ℕ
  seen = view d b memory

  -- A load that leaves the memory as it is, and a store.
  abbrev pub LoadsFrom : Cache L S → ℕ → ℕ → AccessResult × Cache L S → Type 0
  LoadsFrom c addr size a =
      IsValid d b memory set_of a.1
      × (a.0.word ≡ loaded c.config (seen c) addr size)
      × ((x : ℕ) → seen a.1 x ≡ seen c x)

  abbrev pub StoresTo : Cache L S → ℕ → ℕ → ℕ → AccessResult × Cache L S → Type 0
  StoresTo c addr size value a =
      IsValid d b memory set_of a.1
      × ((x : ℕ) → seen a.1 x ≡ stored c.config (seen c) addr size value x)

  module _ (c : Cache L S) (w : IsValid d b memory set_of c) (addr : ℕ)
      (fits : Reaches c.config addr) where
    module _ (p : Slot) (st : Statistics) (s : S) (i : InDirectory c.config p)
        (h : p.set_id ≡ set_of (block_addr c.config addr))
        (m : Misses c.config c.blocks (block_addr c.config addr))
        (e : IsEvicted c.config c.blocks c.data_store
          (memory_of memory c.backing)
          (memory s)
          p) where
      abbrev filled : Cache L S
      filled = refill d b p addr (record c { stats = st; backing = some s })

      filled-IsValid : IsValid d b memory set_of filled
      filled-IsValid = fetched-IsValid d b memory set_of l p c w i addr st s e h fits m

      seen-filled : seen filled ≡ seen c
      seen-filled = fun_ext (λ x. view-fetched d b memory set_of l p c w i addr st s x e h fits m)

      filled-Holds : Holds filled.config filled.blocks p (block_addr filled.config addr)
      unfolding refill
      filled-Holds =
          Refill.fresh-Holds c.config set_of c.blocks c.data_store (memory_of memory c.backing)
            (memory s) p w.3 i e (block_addr c.config addr)

      -- The two ends of `handleMiss`, on the block that it fetched into p.
      load_filled :
          (size : ℕ) (r : AccessResult)
          → LoadsFrom c addr size
              (record r { word = extract_from d b p addr size filled }, visited d b p filled)
      unfolding refill
      load_filled size r = (
        filled-IsValid,
        extract_from-view d b memory set_of filled filled-IsValid p addr filled-Holds size
            ∙ ap (λ m. loaded c.config m addr size) seen-filled,
        λ x.
            view-relabelled d b memory set_of filled filled-IsValid (d.visit p filled.directory)
              filled.stats filled.recent_store_addr filled.recent_store_valid x
            ∙ ap (λ (f : ℕ → ℕ). f x) seen-filled,
      )

      store_filled :
          (size value : ℕ) (r : AccessResult)
          → StoresTo c addr size value (r, visited d b p (store_into d b p addr size value filled))
      unfolding refill store_into
      store_filled size value r =
          let done = store_into d b p addr size value filled in
          let valid =
            store_into-IsValid d b memory set_of filled filled-IsValid p addr filled-Holds size
              value in
          (
            valid,
            λ x.
                view-relabelled d b memory set_of done valid (d.visit p done.directory) done.stats
                  done.recent_store_addr done.recent_store_valid x
                ∙ view-store_into d b memory set_of filled filled-IsValid p addr filled-Holds size
                    value x
                ∙ ap (λ m. stored c.config m addr size value x) seen-filled,
          )

    -- `handleMiss` from the state c1 after the write-back of p.
    abbrev load_end : Slot → ℕ → AccessResult × Cache L S → AccessResult × Cache L S
    load_end p size e =
        let full = refill d b p addr e.1 in
        (record e.0 { word = extract_from d b p addr size full }, visited d b p full)

    abbrev store_end : Slot → ℕ → ℕ → AccessResult × Cache L S → AccessResult × Cache L S
    store_end p size value e =
        (e.0, visited d b p (store_into d b p addr size value (refill d b p addr e.1)))

    abbrev started : AccessResult
    started = record no_access { latency = c.config.miss_latency }

    handle_miss-find_victim :
        (p : Slot) (size value : ℕ) (is_write : Bool)
        → d.find_victim c.directory c.blocks (block_addr c.config addr) ≡ some p
        → handle_miss d b addr size is_write value c ≡ (
            if is_write
            then store_end p size value (evict d b p started c)
            else load_end p size (evict d b p started c))
    unfolding handle_miss
    handle_miss-find_victim p size value is_write f = rw (handle_miss, f) refl

    pub handle_miss-load :
        (size value : ℕ)
        → Misses c.config c.blocks (block_addr c.config addr)
        → LoadsFrom c addr size (handle_miss d b addr size false value c)
    handle_miss-load size value m =
        let (p, f, i, h) = w.1.find_victim_some c.directory c.blocks (block_addr c.config addr) in
        let (s, v, e) = evict_lem d b memory set_of l p c w i started in
        let r = (evict d b p started c).0 in
        subst (λ a. LoadsFrom c addr size a) (sym (handle_miss-find_victim p size value false f))
          (subst (λ c1. LoadsFrom c addr size (load_end p size (r, c1))) (sym v)
            (load_filled p (evict d b p started c).1.stats s i h m e size r))

    pub handle_miss-store :
        (size value : ℕ)
        → Misses c.config c.blocks (block_addr c.config addr)
        → StoresTo c addr size value (handle_miss d b addr size true value c)
    handle_miss-store size value m =
        let (p, f, i, h) = w.1.find_victim_some c.directory c.blocks (block_addr c.config addr) in
        let (s, v, e) = evict_lem d b memory set_of l p c w i started in
        let r = (evict d b p started c).0 in
        subst (λ a. StoresTo c addr size value a)
          (sym (handle_miss-find_victim p size value true f))
          (subst (λ c1. StoresTo c addr size value (store_end p size value (r, c1))) (sym v)
            (store_filled p (evict d b p started c).1.stats s i h m e size value r))
