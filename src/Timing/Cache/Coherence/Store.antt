-- ===== src/Timing/Cache/Coherence/Store.antt =====
-- `storeData` on a block that the cache holds: the write of timing/cache/cache.go.
use m1sim.Base.{
  ℕ, true, ◌+◌, ◌%◌, ◌<◌, ◌≤◌, ◌≡◌, ◌≢◌, ◌⊎◌, ◌==◌, inl, inr, sym, ◌∙◌, ap, ap₂, refl, arith, subst,
  Bool-cases, ==→eq, ==→ne,
}
use m1sim.Timing.Cache.Settings.{Config}
use m1sim.Timing.Cache.Parts.{Slot, Block, set_block}
use m1sim.Timing.Cache.Bytes.{store_bytes, store_bytes-view, store_bytes-outside}
use m1sim.Timing.Cache.{block_addr, block_index, set_bytes}
use m1sim.Timing.Cache.Blocks
use m1sim.Timing.Cache.Coherence.Writes
use m1sim.Timing.Cache.Coherence.{Holds, Sees, IsCoherent, Sees-unique}

module _ (c : Config) (set_of : ℕ → ℕ) (blocks : Slot → Block) (store : ℕ → ℕ → ℕ) (memory : ℕ → ℕ)
    (p : Slot) (t : ℕ) (k : IsCoherent c set_of blocks store memory) (held : Holds c blocks p t)
    (bytes : ℕ → ℕ) where
  abbrev dirty : Block
  dirty = record (blocks p) { is_dirty = true }

  abbrev new_blocks : Slot → Block
  new_blocks = set_block p dirty blocks

  abbrev new_store : ℕ → ℕ → ℕ
  new_store = set_bytes (block_index c p) bytes store

  -- A block is valid with a tag after the write as it was before.
  held_before : (q : Slot) (u : ℕ) → Holds c new_blocks q u → Holds c blocks q u
  held_before q u h = elim (Writes.after-cases c blocks p dirty q u h) [
    | inl (o, v, g) ↦ (h.0, ap (λ r. (blocks r).is_valid) o ∙ v, ap (λ r. (blocks r).tag) o ∙ g)
    | inr (_, g, _) ↦ g
  ]

  held_after : (q : Slot) (u : ℕ) → Holds c blocks q u → Holds c new_blocks q u
  held_after q u h = elim (Blocks.set_block-cases p dirty blocks q) [
    | inl (o, g) ↦ (
      h.0,
      ap (λ (b : Block). b.is_valid) g ∙ sym (ap (λ r. (blocks r).is_valid) o) ∙ h.1,
      ap (λ (b : Block). b.tag) g ∙ sym (ap (λ r. (blocks r).tag) o) ∙ h.2,
    )
    | inr (_, g) ↦ Writes.held_after c blocks p q dirty u g h
  ]

  pub store-IsCoherent : IsCoherent c set_of new_blocks new_store memory
  store-IsCoherent = record {
    placed = λ q u h. k.placed q u (held_before q u h);
    unique = λ q r u h j. k.unique q r u (held_before q u h) (held_before r u j);
    clean = λ q u j h f l. elim (Blocks.set_block-cases p dirty blocks q) [
      | inl (o, g) ↦ let d = sym (ap (λ (b : Block). b.is_dirty) g) ∙ f in absurd (ground arith)
      | inr (o, g) ↦
          ap (λ (s : ℕ → ℕ). s j) (Writes.other_bytes c p held.0 store q bytes h.0 o)
          ∙ k.clean q u j (held_before q u h) (sym (ap (λ (b : Block). b.is_dirty) g) ∙ f) l
    ];
  }

  -- Of the stored block, at the offset of the address.
  stored_here :
      (addr size value : ℕ) (view : ℕ → ℕ) (x : ℕ)
      → block_addr c addr ≡ t
      → bytes ≡ store_bytes (store (block_index c p)) (addr % c.block_size) size value
      → Sees c blocks store memory x (view x)
      → t ≡ block_addr c x
      → store_bytes view addr size value x ≡ bytes (x % c.block_size)
  stored_here addr size value view x h b s e =
      let at_addr : addr ≡ t + addr % c.block_size =
        Blocks.block_addr-add c addr ∙ ap (λ a. a + addr % c.block_size) h in
      let at_x : x ≡ t + x % c.block_size =
        Blocks.block_addr-add c x ∙ ap (λ a. a + x % c.block_size) (sym e) in
      let seen : view x ≡ store (block_index c p) (x % c.block_size) =
        Sees-unique c set_of blocks store memory x _ _ k s
          (inl (p, (held.0, held.1, held.2 ∙ e), refl)) in
      ap₂ (λ a y. store_bytes view a size value y) at_addr at_x
      ∙ store_bytes-view (store (block_index c p)) view t (addr % c.block_size) size value
          (x % c.block_size) (ap view (sym at_x) ∙ seen)
      ∙ ap (λ (f : ℕ → ℕ). f (x % c.block_size)) (sym b)

  -- Of another block.
  unstored :
      (x v : ℕ)
      → t ≢ block_addr c x
      → Sees c blocks store memory x v
      → Sees c new_blocks new_store memory x v
  unstored x v n (inl (q, g, f)) = inl (
    q,
    held_after q _ g,
    f
        ∙ sym (
            ap (λ (f : ℕ → ℕ). f (x % c.block_size))
              (Writes.other_bytes c p held.0 store q bytes g.0
                (λ o. n (sym held.2 ∙ sym (ap (λ r. (blocks r).tag) o) ∙ g.2)))),
  )
  unstored x v n (inr (m, f)) =
      inr ((λ q d a w. let g = held_before q _ (d, a, w) in m q g.0 g.1 g.2), f)

  -- An address of another block is not stored to.
  away :
      (addr size x : ℕ)
      → block_addr c addr ≡ t
      → addr % c.block_size + size ≤ c.block_size
      → t ≢ block_addr c x
      → (x < addr) ⊎ (addr + size ≤ x)
  away addr size x h l n =
      let e = Blocks.block_addr-add c addr in
      elim (Blocks.block-outside c t x (k.placed p t held).1 n) [
        | inl below ↦ inl (grind arith)
        | inr above ↦ inr (grind arith)
      ]

  -- Each address has its value with the stored bytes over it.
  pub store-Sees :
      (addr size value : ℕ) (view : ℕ → ℕ)
      → block_addr c addr ≡ t
      → addr % c.block_size + size ≤ c.block_size
      → bytes ≡ store_bytes (store (block_index c p)) (addr % c.block_size) size value
      → ((x : ℕ) → Sees c blocks store memory x (view x))
      → (x : ℕ) → Sees c new_blocks new_store memory x (store_bytes view addr size value x)
  store-Sees addr size value view h l b s x = elim (Bool-cases (t == block_addr c x)) [
    | inl same ↦
        let e = ==→eq _ _ same in
        inl (
          p,
          held_after p _ (held.0, held.1, held.2 ∙ e),
          stored_here addr size value view x h b (s x) e
              ∙ sym (
                  ap (λ (f : ℕ → ℕ). f (x % c.block_size))
                    (Blocks.set_bytes_same (block_index c p) bytes store)),
        )
    | inr other ↦
        let n = ==→ne _ _ other in
        subst (λ v. Sees c new_blocks new_store memory x v)
          (sym (store_bytes-outside view addr size value x (away addr size x h l n)))
          (unstored x (view x) n (s x))
  ]
