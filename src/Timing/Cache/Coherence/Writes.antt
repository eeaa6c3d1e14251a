-- ===== src/Timing/Cache/Coherence/Writes.antt =====
-- A write through a block pointer, as timing/cache/cache.go makes them: what the blocks hold then.
use m1sim.Base.{ℕ, true, ◌≡◌, ◌≢◌, ◌⊎◌, inl, inr, sym, ◌∙◌, ap}
use m1sim.Timing.Cache.Settings.{Config}
use m1sim.Timing.Cache.Parts.{Slot, Block, set_block}
use m1sim.Timing.Cache.{block_index, set_bytes}
use m1sim.Timing.Cache.View.{InDirectory}
use m1sim.Timing.Cache.Blocks
use m1sim.Timing.Cache.Coherence.{Holds, Misses}

-- Bytes of the other blocks stay, whatever is stored in this one.
pub other_bytes :
    (c : Config) (p : Slot) (i : InDirectory c p) (store : ℕ → ℕ → ℕ) (q : Slot) (bytes : ℕ → ℕ)
    → InDirectory c q
    → q ≢ p
    → set_bytes (block_index c p) bytes store (block_index c q) ≡ store (block_index c q)
other_bytes c p i store q bytes j n =
    Blocks.set_bytes_other _ _ bytes store (λ h. n (Blocks.block_index-injective c q p j.1 i.1 h))

-- A valid block of the new directory that is not p was there before.
pub held_before :
    (c : Config) (blocks : Slot → Block) (p : Slot) (q : Slot) (b : Block) (t : ℕ)
    → set_block p b blocks q ≡ blocks q
    → Holds c (set_block p b blocks) q t
    → Holds c blocks q t
held_before c blocks p q b t g (d, v, h) =
    (d, sym (ap (λ (b : Block). b.is_valid) g) ∙ v, sym (ap (λ (b : Block). b.tag) g) ∙ h)

pub held_after :
    (c : Config) (blocks : Slot → Block) (p : Slot) (q : Slot) (b : Block) (t : ℕ)
    → set_block p b blocks q ≡ blocks q
    → Holds c blocks q t
    → Holds c (set_block p b blocks) q t
held_after c blocks p q b t g (d, v, h) =
    (d, ap (λ (b : Block). b.is_valid) g ∙ v, ap (λ (b : Block). b.tag) g ∙ h)

-- No block holds what p held or no block held.
pub Misses-after :
    (c : Config) (blocks : Slot → Block) (p : Slot) (b : Block) (t : ℕ)
    → (b.is_valid ≡ true → b.tag ≢ t)
    → ((q : Slot) → Holds c blocks q t → q ≡ p)
    → Misses c (set_block p b blocks) t
Misses-after c blocks p b t n h q d v w = elim (Blocks.set_block-cases p b blocks q) [
  | inl (_, g) ↦
      n (sym (ap (λ (b : Block). b.is_valid) g) ∙ v) (sym (ap (λ (b : Block). b.tag) g) ∙ w)
  | inr (o, g) ↦ o (h q (held_before c blocks p q b t g (d, v, w)))
]

-- A valid block of the new directory is the written one or was there before.
pub after-cases :
    (c : Config) (blocks : Slot → Block) (p : Slot) (b : Block) (q : Slot) (u : ℕ)
    → Holds c (set_block p b blocks) q u
    → ((q ≡ p) × (b.is_valid ≡ true) × (b.tag ≡ u))
      ⊎ ((q ≢ p) × Holds c blocks q u × (set_block p b blocks q ≡ blocks q))
after-cases c blocks p b q u h = elim (Blocks.set_block-cases p b blocks q) [
  | inl (o, g) ↦
      inl (o, sym (ap (λ (b : Block). b.is_valid) g) ∙ h.1, sym (ap (λ (b : Block). b.tag) g) ∙ h.2)
  | inr (o, g) ↦ inr (o, held_before c blocks p q b u g h, g)
]
