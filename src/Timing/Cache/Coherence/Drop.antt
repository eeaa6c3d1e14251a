-- ===== src/Timing/Cache/Coherence/Drop.antt =====
-- A block is written back and made invalid: the loop of `Flush` of timing/cache/cache.go.
use m1sim.Base.{ℕ, false, ◌+◌, ◌%◌, ◌≡◌, ◌≢◌, inl, inr, sym, ◌∙◌, ap, arith}
use m1sim.Timing.Cache.Settings.{Config}
use m1sim.Timing.Cache.Parts.{Slot, Block, set_block}
use m1sim.Timing.Cache.{block_addr, block_index}
use m1sim.Timing.Cache.View.{InDirectory}
use m1sim.Timing.Cache.Blocks
use m1sim.Timing.Cache.Coherence.Writes
use m1sim.Timing.Cache.Coherence.Refill.{IsEvicted}
use m1sim.Timing.Cache.Coherence.{Holds, Sees, IsCoherent}

module _ (c : Config) (set_of : ℕ → ℕ) (blocks : Slot → Block) (store : ℕ → ℕ → ℕ)
    (memory memory' : ℕ → ℕ) (p : Slot) (k : IsCoherent c set_of blocks store memory)
    (i : InDirectory c p) (e : IsEvicted c blocks store memory memory' p) where
  abbrev dropped : Block
  dropped = record (blocks p) { is_valid = false; is_dirty = false }

  abbrev new_blocks : Slot → Block
  new_blocks = set_block p dropped blocks

  -- What is held after it was held before, by another block.
  held_before :
      (q : Slot) (u : ℕ)
      → Holds c new_blocks q u
      → (q ≢ p) × Holds c blocks q u × (new_blocks q ≡ blocks q)
  held_before q u h = elim (Writes.after-cases c blocks p dropped q u h) [
    | inl (_, v, _) ↦ absurd (ground arith)
    | inr l ↦ l
  ]

  pub drop-IsCoherent : IsCoherent c set_of new_blocks store memory'
  drop-IsCoherent = record {
    placed = λ q u h. k.placed q u (held_before q u h).1;
    unique = λ q r u h j. k.unique q r u (held_before q u h).1 (held_before r u j).1;
    clean = λ q u j h f l.
        let (o, g, s) = held_before q u h in
        k.clean q u j g (sym (ap (λ (b : Block). b.is_dirty) s) ∙ f) l
        ∙ sym (
            e.outside (u + j) (λ v w.
              o (k.unique q p u g (i, v, w ∙ (Blocks.offset-add c u j (k.placed q u g).1 l).1))));
  }

  pub drop-Sees : (x v : ℕ) → Sees c blocks store memory x v → Sees c new_blocks store memory' x v
  drop-Sees x v (inl (q, h, g)) = elim (Blocks.set_block-cases p dropped blocks q) [
    | inl (o, _) ↦ inr (
      Writes.Misses-after c blocks p dropped (block_addr c x) (λ f. absurd (ground arith))
          (λ r j. k.unique r q _ j h ∙ o),
      g
          ∙ ap (λ s. store (block_index c s) (x % c.block_size)) o
          ∙ sym (
              e.inside x (ap (λ r. (blocks r).is_valid) (sym o) ∙ h.1)
                (ap (λ r. (blocks r).tag) (sym o) ∙ h.2)),
    )
    | inr (_, s) ↦ inl (q, Writes.held_after c blocks p q dropped _ s h, g)
  ]
  drop-Sees x v (inr (m, f)) = inr (
    Writes.Misses-after c blocks p dropped (block_addr c x) (λ f. absurd (ground arith))
        (λ q (d, a, h). absurd (m q d a h)),
    f ∙ sym (e.outside x (m p i)),
  )
