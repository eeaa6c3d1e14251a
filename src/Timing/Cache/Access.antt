-- ===== src/Timing/Cache/Access.antt =====
-- `handleMiss` of timing/cache/cache.go: the victim and the block that is fetched.
use m1sim.Base.{
  ℕ, true, ◌+◌, ◌%◌, ◌^◌, ◌≤◌, ◌≡◌, inl, inr, Option, some, refl, ap, sym, ◌∙◌, arith, Bool-cases,
}
use m1sim.Timing.Cache.Settings.{AccessResult, Statistics}
use m1sim.Timing.Cache.Parts.{Slot, Directory, BackingStore}
use m1sim.Timing.Cache.View.{InDirectory, IsBackingStore}
use m1sim.Timing.Cache.Blocks
use m1sim.Timing.Cache.{Cache, block_addr, block_index, fetch_block, write_victim, evict, refill}
use m1sim.Timing.Cache.Coherence.{Misses}
use m1sim.Timing.Cache.Coherence.Refill
use m1sim.Timing.Cache.Coherence.Refill.{IsEvicted}
use m1sim.Timing.Cache.Valid.{
  memory_of, IsValid, view, view-Sees, view_unique, write_victim-IsEvicted,
}

module _ {L S : Type 0} (d : Directory L) (b : BackingStore S) (memory : S → ℕ → ℕ) (set_of : ℕ → ℕ)
    (l : IsBackingStore b memory) (p : Slot) (c : Cache L S) (w : IsValid d b memory set_of c)
    (i : InDirectory c.config p) where
  evict_valid :
      (result : AccessResult)
      → (c.blocks p).is_valid ≡ true
      → (evict d b p result c).1 ≡ (record c {
        stats = (evict d b p result c).1.stats;
        backing =
            (write_victim b c.config.block_size
              (c.blocks p)
              (c.data_store (block_index c.config p))
              c.backing).0;
      })
  unfolding evict
  evict_valid result v = rw (evict, v) refl

  -- `evict` leaves the blocks, and the backing store has the victim.
  pub evict_lem :
      (result : AccessResult)
      → (s : S) × ((evict d b p result c).1
          ≡ (record c { stats = (evict d b p result c).1.stats; backing = some s }))
        × IsEvicted c.config c.blocks c.data_store (memory_of memory c.backing) (memory s) p
  unfolding evict memory_of
  evict_lem result = elim (Bool-cases (c.blocks p).is_valid) [
    | inl valid ↦
        let (s, e, h) = write_victim-IsEvicted d b memory set_of c p l w i valid in
        (
          s,
          evict_valid result valid
              ∙ ap
                  (λ (o : Option S). record c {
                    stats = (evict d b p result c).1.stats;
                    backing = o;
                  })
                  e,
          h,
        )
    | inr invalid ↦
        let (s, e) = w.2 in
        (
          s,
          rw (evict, invalid) (ap (λ (o : Option S). record c { backing = o }) e),
          record {
            outside = λ x _. ap (λ o. memory_of memory o x) (sym e);
            inside = λ x v. absurd (ground arith);
          },
        )
  ]

  -- The state after the fetch from the store s.
  abbrev fetched : ℕ → Statistics → S → Cache L S
  fetched addr st s = refill d b p addr (record c { stats = st; backing = some s })

  read-IsEvicted :
      (addr size : ℕ) (s : S)
      → IsEvicted c.config c.blocks c.data_store (memory_of memory c.backing) (memory s) p
      → IsEvicted c.config c.blocks c.data_store
          (memory_of memory c.backing)
          (memory (b.read addr size s).1)
          p
  read-IsEvicted addr size s e = record {
    outside = λ x h. l.read_memory addr size s x ∙ e.outside x h;
    inside = λ x v h. l.read_memory addr size s x ∙ e.inside x v h;
  }

  pub fetched-IsValid :
      (addr : ℕ) (st : Statistics) (s : S)
      → IsEvicted c.config c.blocks c.data_store (memory_of memory c.backing) (memory s) p
      → p.set_id ≡ set_of (block_addr c.config addr)
      → block_addr c.config addr + c.config.block_size ≤ 2 ^ 64
      → Misses c.config c.blocks (block_addr c.config addr)
      → IsValid d b memory set_of (fetched addr st s)
  unfolding refill fetch_block memory_of
  fetched-IsValid addr st s e h r m =
      let t = block_addr c.config addr in
      let n = c.config.block_size in
      let e' = read-IsEvicted t n s e in
      (
        w.0,
        w.1,
        ((b.read t n s).1, refl),
        Refill.refill-IsCoherent c.config set_of c.blocks c.data_store (memory_of memory c.backing)
            (memory (b.read t n s).1) p w.3 i e' t (b.read t n s).0 h
            (Blocks.block_addr_twice c.config addr w.0) r m
            (λ j k. l.read_bytes t n s j r k ∙ sym (l.read_memory t n s (t + j))),
      )

  pub view-fetched :
      (addr : ℕ) (st : Statistics) (s : S) (x : ℕ)
      → IsEvicted c.config c.blocks c.data_store (memory_of memory c.backing) (memory s) p
      → p.set_id ≡ set_of (block_addr c.config addr)
      → block_addr c.config addr + c.config.block_size ≤ 2 ^ 64
      → Misses c.config c.blocks (block_addr c.config addr)
      → view d b memory (fetched addr st s) x ≡ view d b memory c x
  unfolding refill fetch_block memory_of
  view-fetched addr st s x e h r m =
      let t = block_addr c.config addr in
      let n = c.config.block_size in
      let e' = read-IsEvicted t n s e in
      view_unique d b memory set_of (fetched addr st s) x (view d b memory c x)
        (fetched-IsValid addr st s e h r m)
        (Refill.refill-Sees c.config set_of c.blocks c.data_store (memory_of memory c.backing)
          (memory (b.read t n s).1) p w.3 i e' t (b.read t n s).0 x (view d b memory c x) m
          (λ y g.
            l.read_bytes t n s (y % n) r (Blocks.offset-lt c.config y w.0)
            ∙ ap (memory s) (sym (Blocks.block_addr-add c.config y ∙ ap (λ a. a + y % n) g))
            ∙ sym (l.read_memory t n s y))
          (view-Sees d b memory set_of c x w))
