-- ===== src/Timing/Cache/Valid.antt =====
-- The caches of timing/cache/cache.go that stand for a memory, and that memory.
use m1sim.Base.{
  ℕ, true, ◌+◌, ◌%◌, ◌<◌, ◌≡◌, ◌⊎◌, inl, inr, Option, none, some, Option-cases, refl, ap, sym, ◌∙◌,
  Bool-cases,
}
use m1sim.Timing.Cache.Parts.{Slot, Directory, BackingStore}
use m1sim.Timing.Cache.View.{InDirectory, IsDirectory, IsBackingStore}
use m1sim.Timing.Cache.Blocks
use m1sim.Timing.Cache.{Cache, block_addr, block_index, find_block, write_victim}
use m1sim.Timing.Cache.Coherence.{Holds, Misses, Sees, IsCoherent, Sees-unique}
use m1sim.Timing.Cache.Coherence.Refill.{IsEvicted}

-- Without a backing store every byte is 0.
unfoldable pub memory_of : {S : Type 0} → (S → ℕ → ℕ) → Option S → ℕ → ℕ
memory_of memory none x = 0
memory_of memory (some s) x = memory s x

module _ {L S : Type 0} (d : Directory L) (b : BackingStore S) (memory : S → ℕ → ℕ) where
  -- The byte that the cache with its backing store has at an address.
  unfoldable pub view : Cache L S → ℕ → ℕ
  unfolding find_block memory_of block_index
  view c x = elim (find_block d b x c) [
    | none ↦ memory_of memory c.backing x
    | some p ↦ c.data_store (block_index c.config p) (x % c.config.block_size)
  ]

  abbrev pub IsValid : (ℕ → ℕ) → Cache L S → Type 0
  IsValid set_of c =
      (0 < c.config.block_size)
      × IsDirectory d c.config set_of
      × ((s : S) × (c.backing ≡ some s))
      × IsCoherent c.config set_of c.blocks c.data_store (memory_of memory c.backing)

  abbrev pub HasByte : Cache L S → ℕ → ℕ → Type 0
  HasByte c x v = Sees c.config c.blocks c.data_store (memory_of memory c.backing) x v

  -- A lookup that finds nothing tells that no block holds the address, and one that finds a block
  -- finds one that does.
  pub lookup-Misses :
      (set_of : ℕ → ℕ) (c : Cache L S) (addr : ℕ)
      → IsValid set_of c
      → d.lookup c.directory c.blocks (block_addr c.config addr) ≡ none
      → Misses c.config c.blocks (block_addr c.config addr)
  lookup-Misses set_of c addr (_, dir, _, k) h q i v e =
      dir.lookup_none c.directory c.blocks _ q h i
        ((k.placed q (c.blocks q).tag (i, v, refl)).0 ∙ ap set_of e) v e

  pub find_block-cases :
      (set_of : ℕ → ℕ) (c : Cache L S) (addr : ℕ)
      → IsValid set_of c
      → ((find_block d b addr c ≡ none) × Misses c.config c.blocks (block_addr c.config addr))
        ⊎ ((p : Slot) × (find_block d b addr c ≡ some p)
            × Holds c.config c.blocks p (block_addr c.config addr))
  unfolding find_block
  find_block-cases set_of c addr w =
      elim (Option-cases (d.lookup c.directory c.blocks (block_addr c.config addr))) [
        | inl h ↦ inl (rw (find_block, h) refl, lookup-Misses set_of c addr w h)
        | inr (p, h) ↦
            let (i, _, v, t) = w.1.lookup_some c.directory c.blocks _ p h in
            inr (p, rw (find_block, h, v) refl, (i, v, t))
      ]

  pub view-Sees :
      (set_of : ℕ → ℕ) (c : Cache L S) (x : ℕ) → IsValid set_of c → HasByte c x (view c x)
  unfolding view
  view-Sees set_of c x w = elim (find_block-cases set_of c x w) [
    | inl (h, m) ↦ inr (m, rw (view, h) refl)
    | inr (p, h, g) ↦ inl (p, g, rw (view, h) refl)
  ]

  -- The view is the one value that an address has.
  pub view_unique :
      (set_of : ℕ → ℕ) (c : Cache L S) (x v : ℕ) → IsValid set_of c → HasByte c x v → view c x ≡ v
  view_unique set_of c x v w h =
      Sees-unique c.config set_of c.blocks c.data_store (memory_of memory c.backing) x _ _ w.3
        (view-Sees set_of c x w) h

  -- The write-back of a victim that is valid.
  pub write_victim-IsEvicted :
      (set_of : ℕ → ℕ) (c : Cache L S) (p : Slot)
      → IsBackingStore b memory
      → IsValid set_of c
      → InDirectory c.config p
      → (c.blocks p).is_valid ≡ true
      → ((s : S) × ((write_victim b c.config.block_size
              (c.blocks p)
              (c.data_store (block_index c.config p))
              c.backing).0
            ≡ some s)
          × IsEvicted c.config c.blocks c.data_store (memory_of memory c.backing) (memory s) p)
  unfolding write_victim memory_of
  write_victim-IsEvicted set_of c p l (pos, _, (s, e), k) i v =
      let n = c.config.block_size in
      let t = (c.blocks p).tag in
      let bytes = c.data_store (block_index c.config p) in
      let (_, aligned, reaches) = k.placed p t (i, v, refl) in
      let before : (x : ℕ) → memory s x ≡ memory_of memory c.backing x =
        λ x. ap (λ o. memory_of memory o x) (sym e) in
      let at : (x : ℕ) → t ≡ block_addr c.config x → x ≡ t + x % n =
        λ x g. Blocks.block_addr-add c.config x ∙ ap (λ a. a + x % n) (sym g) in
      elim (Bool-cases (c.blocks p).is_dirty) [
        | inl dirty ↦ (
          b.write t n bytes s,
          rw (e, dirty) refl,
          record {
            outside = λ x m.
                l.write_outside t n bytes s x reaches
                  (Blocks.block-outside c.config t x aligned (m v))
                ∙ before x;
            inside = λ x _ g.
                ap (memory (b.write t n bytes s)) (at x g)
                ∙ l.write_inside t n bytes s (x % n) reaches (Blocks.offset-lt c.config x pos);
          },
        )
        | inr clean ↦ (
          s,
          rw (e, clean) refl,
          record {
            outside = λ x m. before x;
            inside = λ x _ g.
                before x
                ∙ ap (memory_of memory c.backing) (at x g)
                ∙ sym (k.clean p t (x % n) (i, v, refl) clean (Blocks.offset-lt c.config x pos));
          },
        )
      ]
