-- ===== src/Timing/Cache/Coherence.antt =====
-- What timing/cache/cache.go keeps true of the blocks of a cache, and the memory that they and the
-- backing store stand for together.
pub mod Writes
pub mod Refill
pub mod Store
pub mod Drop
use m1sim.Base.{
  ℕ, Bool, true, false, ◌+◌, ◌*◌, ◌/◌, ◌%◌, ◌^◌, ◌<◌, ◌≤◌, ◌≡◌, ◌≢◌, ◌⊎◌, inl, inr, sym, ◌∙◌, ap,
  refl, arith,
}
use m1sim.Timing.Cache.Settings.{Config}
use m1sim.Timing.Cache.Parts.{Slot, Block}
use m1sim.Timing.Cache.{block_addr, block_index}
use m1sim.Timing.Cache.View.{InDirectory}
use m1sim.Timing.Cache.Blocks.{block_index-injective}

-- A valid block with the tag.
abbrev pub Holds : Config → (Slot → Block) → Slot → ℕ → Type 0
Holds c blocks p tag = InDirectory c p × ((blocks p).is_valid ≡ true) × ((blocks p).tag ≡ tag)

abbrev pub Misses : Config → (Slot → Block) → ℕ → Type 0
Misses c blocks tag =
    (p : Slot) → InDirectory c p → (blocks p).is_valid ≡ true → (blocks p).tag ≢ tag

-- The value at an address: in the block that holds it, else in the backing memory.
abbrev pub Sees : Config → (Slot → Block) → (ℕ → ℕ → ℕ) → (ℕ → ℕ) → ℕ → ℕ → Type 0
Sees c blocks store memory x v =
    ((p : Slot) × Holds c blocks p (block_addr c x)
      × (v ≡ store (block_index c p) (x % c.block_size)))
    ⊎ (Misses c blocks (block_addr c x) × (v ≡ memory x))

pub record IsCoherent (c : Config) (set_of : ℕ → ℕ) (blocks : Slot → Block) (store : ℕ → ℕ → ℕ)
    (memory : ℕ → ℕ) : Type 0 where
  pub placed :
      (p : Slot) (t : ℕ)
      → Holds c blocks p t
      → (p.set_id ≡ set_of t) × (block_addr c t ≡ t) × (t + c.block_size ≤ 2 ^ 64)
  pub unique : (p q : Slot) (t : ℕ) → Holds c blocks p t → Holds c blocks q t → p ≡ q
  pub clean :
      (p : Slot) (t i : ℕ)
      → Holds c blocks p t
      → (blocks p).is_dirty ≡ false
      → i < c.block_size
      → store (block_index c p) i ≡ memory (t + i)

-- An address has one value.
pub Sees-unique :
    (c : Config) (set_of : ℕ → ℕ) (blocks : Slot → Block) (store : ℕ → ℕ → ℕ) (memory : ℕ → ℕ)
    (x v w : ℕ)
    → IsCoherent c set_of blocks store memory
    → Sees c blocks store memory x v
    → Sees c blocks store memory x w
    → v ≡ w
Sees-unique c set_of blocks store memory x v w k (inl (p, h, e)) (inl (q, j, f)) =
    e ∙ ap (λ s. store (block_index c s) (x % c.block_size)) (k.unique p q _ h j) ∙ sym f
Sees-unique c set_of blocks store memory x v w k (inl (p, (d, t, e), _)) (inr (m, _)) =
    absurd (m p d t e)
Sees-unique c set_of blocks store memory x v w k (inr (m, _)) (inl (p, (d, t, e), _)) =
    absurd (m p d t e)
Sees-unique c set_of blocks store memory x v w k (inr (_, e)) (inr (_, f)) = e ∙ sym f
