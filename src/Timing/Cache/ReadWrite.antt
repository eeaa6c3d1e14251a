-- ===== src/Timing/Cache/ReadWrite.antt =====
-- `Read` and `Write` of timing/cache/cache.go, and the memory that the cache stands for.
use m1sim.Base.{
  ℕ, Bool, true, false, ◌≡◌, ◌==◌, ◌&&◌, add64, inl, inr, refl, ap, sym, ◌∙◌, subst, fun_ext,
  if◌then◌else◌,
}
use m1sim.Timing.Cache.Settings.{AccessResult, Statistics}
use m1sim.Timing.Cache.Parts.{Slot, Directory, BackingStore}
use m1sim.Timing.Cache.View.{IsBackingStore, Reaches}
use m1sim.Timing.Cache.{
  Cache, store_into, extract_from, visited, handle_miss, read, write, no_access,
  store_forward_latency,
}
use m1sim.Timing.Cache.Valid.{IsValid, view, find_block-cases}
use m1sim.Timing.Cache.Operations.{LoadsFrom, StoresTo, handle_miss-load, handle_miss-store}
use m1sim.Timing.Cache.Refinement.{
  loaded, stored, view-relabelled, extract_from-view, store_into-IsValid, view-store_into,
}

module _ {L S : Type 0} (d : Directory L) (b : BackingStore S) (memory : S → ℕ → ℕ) (set_of : ℕ → ℕ)
    (l : IsBackingStore b memory) (c : Cache L S) (w : IsValid d b memory set_of c) (addr : ℕ)
    (fits : Reaches c.config addr) where
  -- The state with other counts and another last store.
  abbrev relabelled : Statistics → ℕ → Bool → Cache L S
  relabelled st a v = record c { stats = st; recent_store_addr = a; recent_store_valid = v }

  seen-relabelled :
      (st : Statistics) (a : ℕ) (v : Bool) → view d b memory (relabelled st a v) ≡ view d b memory c
  seen-relabelled st a v = fun_ext (λ x. view-relabelled d b memory set_of c w c.directory st a v x)

  load_relabelled :
      (st : Statistics) (size : ℕ) (a : AccessResult × Cache L S)
      → LoadsFrom d b memory set_of l
          (relabelled st c.recent_store_addr c.recent_store_valid)
          addr
          size
          a
      → LoadsFrom d b memory set_of l c addr size a
  load_relabelled st size a (v, h, s) =
      let e = seen-relabelled st c.recent_store_addr c.recent_store_valid in
      (v, h ∙ ap (λ m. loaded c.config m addr size) e, λ x. s x ∙ ap (λ (f : ℕ → ℕ). f x) e)

  store_relabelled :
      (st : Statistics) (a' : ℕ) (v' : Bool) (size value : ℕ) (a : AccessResult × Cache L S)
      → StoresTo d b memory set_of l (relabelled st a' v') addr size value a
      → StoresTo d b memory set_of l c addr size value a
  store_relabelled st a' v' size value a (v, s) =
      (v, λ x. s x ∙ ap (λ m. stored c.config m addr size value x) (seen-relabelled st a' v'))

  -- The hit of `Read`, on the block p.
  abbrev read_hit : Slot → ℕ → Statistics → Statistics → AccessResult × Cache L S
  read_hit p size st st' =
      let forwards = c.recent_store_valid && c.recent_store_addr == addr in
      (
        record {
          hit = true;
          latency =
              if forwards
              then add64 c.config.hit_latency store_forward_latency
              else c.config.hit_latency;
          word =
              extract_from d b p addr size (relabelled st c.recent_store_addr c.recent_store_valid);
          evicted = false;
          evicted_addr = 0;
        },
        record c {
          stats = st';
          directory = d.visit p c.directory;
          recent_store_valid = if forwards then false else c.recent_store_valid;
        },
      )

  -- For a directory and a backing store that keep what they promise (IsDirectory, IsBackingStore),
  -- a valid cache and an address whose block ends within the 64-bit address space, `Read` leaves a
  -- valid cache with the same byte at every address and gives the bytes that the cache with its
  -- backing store has at the address, on a hit and on a miss with or without a write-back; for an
  -- access that leaves its block it gives 0.
  pub read-LoadsFrom : (size : ℕ) → LoadsFrom d b memory set_of l c addr size (read d b addr size c)
  unfolding read
  read-LoadsFrom size =
      let counted : Statistics = record c.stats { reads = add64 c.stats.reads 1 } in
      let missed : Statistics = record counted { misses = add64 c.stats.misses 1 } in
      let found : Statistics = record counted { hits = add64 c.stats.hits 1 } in
      let c1 = relabelled counted c.recent_store_addr c.recent_store_valid in
      let c2 = relabelled missed c.recent_store_addr c.recent_store_valid in
      elim (find_block-cases d b memory set_of c1 addr w) [
        | inl (h, m) ↦
            let e : read d b addr size c ≡ handle_miss d b addr size false 0 c2 =
              rw (read, h) refl in
            subst (λ a. LoadsFrom d b memory set_of l c addr size a) (sym e)
              (load_relabelled missed size (handle_miss d b addr size false 0 c2)
                (handle_miss-load d b memory set_of l c2 w addr fits size 0 m))
        | inr (p, h, g) ↦
            let e : read d b addr size c ≡ read_hit p size counted found = rw (read, h) refl in
            subst (λ a. LoadsFrom d b memory set_of l c addr size a) (sym e)
              (
                w,
                extract_from-view d b memory set_of c1 w p addr g size
                    ∙ ap (λ m. loaded c.config m addr size)
                        (seen-relabelled counted c.recent_store_addr c.recent_store_valid),
                view-relabelled d b memory set_of c w (d.visit p c.directory) found
                    c.recent_store_addr (read_hit p size counted found).1.recent_store_valid,
              )
      ]

  -- For a directory and a backing store that keep what they promise (IsDirectory, IsBackingStore),
  -- a valid cache and an address whose block ends within the 64-bit address space, `Write` leaves a
  -- valid cache that has the stored bytes at the address and every other byte as before, on a hit
  -- and on a miss with or without a write-back; an access that leaves its block changes no byte.
  pub write-StoresTo :
      (size value : ℕ)
      → StoresTo d b memory set_of l c addr size value (write d b addr size value c)
  unfolding write store_into
  write-StoresTo size value =
      let counted : Statistics = record c.stats { writes = add64 c.stats.writes 1 } in
      let missed : Statistics = record counted { misses = add64 c.stats.misses 1 } in
      let found : Statistics = record counted { hits = add64 c.stats.hits 1 } in
      let c1 = relabelled counted addr true in
      let c2 = relabelled missed addr true in
      elim (find_block-cases d b memory set_of c1 addr w) [
        | inl (h, m) ↦
            let e : write d b addr size value c ≡ handle_miss d b addr size true value c2 =
              rw (write, h) refl in
            subst (λ a. StoresTo d b memory set_of l c addr size value a) (sym e)
              (store_relabelled missed addr true size value
                (handle_miss d b addr size true value c2)
                (handle_miss-store d b memory set_of l c2 w addr fits size value m))
        | inr (p, h, g) ↦
            let c3 = visited d b p (relabelled found addr true) in
            let e : (write d b addr size value c).1 ≡ store_into d b p addr size value c3 =
              rw (write, h) refl in
            subst (λ c'. StoresTo d b memory set_of l c addr size value (no_access, c')) (sym e)
              (
                store_into-IsValid d b memory set_of c3 w p addr g size value,
                λ x.
                    view-store_into d b memory set_of c3 w p addr g size value x
                    ∙ ap (λ m. stored c.config m addr size value x)
                        (fun_ext (λ y.
                          view-relabelled d b memory set_of c w (d.visit p c.directory) found addr
                            true y)),
              )
      ]
