-- ===== src/Timing/Cache/Refinement.antt =====
-- The accesses of timing/cache/cache.go as accesses of the memory that the cache stands for.
use m1sim.Base.{
  ℕ, Bool, true, false, ◌+◌, ◌%◌, ◌<◌, ◌≤◌, ◌≡◌, inl, inr, refl, ap, sym, ◌∙◌, if◌then◌else◌, ltb,
  arith, Bool-cases,
}
use m1sim.Timing.Cache.Settings.{Config, Statistics}
use m1sim.Timing.Cache.Parts.{Slot, Directory, BackingStore}
use m1sim.Timing.Cache.Bytes.{
  extract_bytes, store_bytes, extract_data, store_data, extract_bytes-view,
}
use m1sim.Timing.Cache.Blocks
use m1sim.Timing.Cache.{Cache, block_addr, block_index, store_into, extract_from}
use m1sim.Timing.Cache.Coherence.{Holds}
use m1sim.Timing.Cache.Coherence.Store
use m1sim.Timing.Cache.Valid.{memory_of, IsValid, view, view-Sees, view_unique}

-- A load and a store of the memory; one that leaves its block gives 0, or has no effect.
unfoldable pub loaded : Config → (ℕ → ℕ) → ℕ → ℕ → ℕ
unfolding extract_bytes
loaded c memory addr size =
    if ltb c.block_size (addr % c.block_size + size) then 0 else extract_bytes memory addr size

unfoldable pub stored : Config → (ℕ → ℕ) → ℕ → ℕ → ℕ → ℕ → ℕ
unfolding store_bytes
stored c memory addr size value =
    if ltb c.block_size (addr % c.block_size + size)
    then memory
    else store_bytes memory addr size value

store_bytes_zero : (bytes : ℕ → ℕ) (offset value : ℕ) → store_bytes bytes offset 0 value ≡ bytes
unfolding store_bytes
store_bytes_zero bytes offset value = refl

stored_outside :
    (c : Config) (memory : ℕ → ℕ) (addr size value x : ℕ)
    → ltb c.block_size (addr % c.block_size + size) ≡ true
    → stored c memory addr size value x ≡ store_bytes memory addr 0 value x
unfolding stored store_bytes
stored_outside c memory addr size value x h = rw (stored, h) refl

stored_inside :
    (c : Config) (memory : ℕ → ℕ) (addr size value x : ℕ)
    → ltb c.block_size (addr % c.block_size + size) ≡ false
    → stored c memory addr size value x ≡ store_bytes memory addr size value x
unfolding stored
stored_inside c memory addr size value x h = rw (stored, h) refl

module _ {L S : Type 0} (d : Directory L) (b : BackingStore S) (memory : S → ℕ → ℕ) (set_of : ℕ → ℕ)
    (c : Cache L S) (w : IsValid d b memory set_of c) where
  -- The order of the blocks, the counts and the last store are no part of the memory.
  pub view-relabelled :
      (l : L) (st : Statistics) (a : ℕ) (v : Bool) (x : ℕ)
      → view d b memory
          (record c { directory = l; stats = st; recent_store_addr = a; recent_store_valid = v })
          x
        ≡ view d b memory c x
  view-relabelled l st a v x =
      let c' : Cache L S = record c {
        directory = l;
        stats = st;
        recent_store_addr = a;
        recent_store_valid = v;
      } in
      view_unique d b memory set_of c' x (view d b memory c x) w (view-Sees d b memory set_of c x w)

  module _ (p : Slot) (addr : ℕ) (h : Holds c.config c.blocks p (block_addr c.config addr)) where
    -- What the block has at an offset is what the memory has there.
    view-held :
        (i : ℕ)
        → i < c.config.block_size
        → view d b memory c (block_addr c.config addr + i) ≡ c.data_store (block_index c.config p) i
    view-held i l =
        let t = block_addr c.config addr in
        let (o, e) = Blocks.offset-add c.config t i (Blocks.block_addr_twice c.config addr w.0) l in
        view_unique d b memory set_of c (t + i) (c.data_store (block_index c.config p) i) w
          (inl (p, (h.0, h.1, h.2 ∙ sym e), ap (c.data_store (block_index c.config p)) (sym o)))

    pub extract_from-view :
        (size : ℕ) → extract_from d b p addr size c ≡ loaded c.config (view d b memory c) addr size
    unfolding extract_from extract_data loaded
    extract_from-view size =
        elim (Bool-cases (ltb c.config.block_size (addr % c.config.block_size + size))) [
          | inl out ↦ rw (extract_from, loaded, out) refl
          | inr fits ↦
              let off = addr % c.config.block_size in
              let at = Blocks.block_addr-add c.config addr in
              let inside : off + size ≤ c.config.block_size = ground arith in
              rw (extract_from, loaded, fits)
                (sym (
                  ap (λ a. extract_bytes (view d b memory c) a size) at
                  ∙ extract_bytes-view (c.data_store (block_index c.config p)) (view d b memory c)
                      (block_addr c.config addr) off size (λ i k. view-held i (omega arith))))
        ]

    pub store_into-IsValid :
        (size value : ℕ) → IsValid d b memory set_of (store_into d b p addr size value c)
    unfolding store_into
    store_into-IsValid size value = (
      w.0,
      w.1,
      w.2,
      Store.store-IsCoherent c.config set_of c.blocks c.data_store (memory_of memory c.backing) p
          (block_addr c.config addr) w.3 h
          (store_data c.config.block_size (c.data_store (block_index c.config p))
            (addr % c.config.block_size) size value),
    )

    over :
        (size value n x : ℕ)
        → addr % c.config.block_size + n ≤ c.config.block_size
        → store_data c.config.block_size
            (c.data_store (block_index c.config p))
            (addr % c.config.block_size)
            size
            value
          ≡ store_bytes (c.data_store (block_index c.config p)) (addr % c.config.block_size) n value
        → view d b memory (store_into d b p addr size value c) x
          ≡ store_bytes (view d b memory c) addr n value x
    unfolding store_into
    over size value n x l e =
        view_unique d b memory set_of (store_into d b p addr size value c) x
          (store_bytes (view d b memory c) addr n value x) (store_into-IsValid size value)
          (Store.store-Sees c.config set_of c.blocks c.data_store (memory_of memory c.backing) p
            (block_addr c.config addr) w.3 h
            (store_data c.config.block_size (c.data_store (block_index c.config p))
              (addr % c.config.block_size) size value)
            addr n value (view d b memory c) refl l e (λ y. view-Sees d b memory set_of c y w) x)

    pub view-store_into :
        (size value x : ℕ)
        → view d b memory (store_into d b p addr size value c) x
          ≡ stored c.config (view d b memory c) addr size value x
    unfolding store_data
    view-store_into size value x =
        elim (Bool-cases (ltb c.config.block_size (addr % c.config.block_size + size))) [
          | inl out ↦
              let lt = Blocks.offset-lt c.config addr w.0 in
              over size value 0 x (omega arith)
                (rw (store_data, out) (sym (store_bytes_zero _ _ value)))
              ∙ sym (stored_outside c.config (view d b memory c) addr size value x out)
          | inr fits ↦
              over size value size x (ground arith) (rw (store_data, fits) refl)
              ∙ sym (stored_inside c.config (view d b memory c) addr size value x fits)
        ]
