-- ===== src/Timing/Cache/Fresh.antt =====
-- `New` of timing/cache/cache.go: a cache that holds no block.
use m1sim.Base.{ℕ, false, ◌<◌, ◌≡◌, inr, some, refl, arith}
use m1sim.Timing.Cache.Settings.{Config}
use m1sim.Timing.Cache.Parts.{Slot, Block, Directory, BackingStore}
use m1sim.Timing.Cache.View.{InDirectory, IsDirectory}
use m1sim.Timing.Cache.{new}
use m1sim.Timing.Cache.Coherence.{Holds, IsCoherent}
use m1sim.Timing.Cache.Valid.{memory_of, IsValid, view, view_unique}

-- Nothing is held where every block is invalid.
nothing_held :
    (c : Config) (blocks : Slot → Block) (p : Slot) (t : ℕ)
    → ((p : Slot) → InDirectory c p → (blocks p).is_valid ≡ false)
    → Holds c blocks p t
    → ⊥
nothing_held c blocks p t h (i, v, _) = let invalid = h p i in absurd (ground arith)

empty-IsCoherent :
    (c : Config) (set_of : ℕ → ℕ) (blocks : Slot → Block) (store : ℕ → ℕ → ℕ) (memory : ℕ → ℕ)
    → ((p : Slot) → InDirectory c p → (blocks p).is_valid ≡ false)
    → IsCoherent c set_of blocks store memory
empty-IsCoherent c set_of blocks store memory h = record {
  placed = λ p t k. absurd (nothing_held c blocks p t h k);
  unique = λ p q t k _. absurd (nothing_held c blocks p t h k);
  clean = λ p t i k _ _. absurd (nothing_held c blocks p t h k);
}

module _ {L S : Type 0} (d : Directory L) (b : BackingStore S) (memory : S → ℕ → ℕ) (set_of : ℕ → ℕ)
    (c : Config) (pos : 0 < c.block_size) (dir : IsDirectory d c set_of) (s : S) where
  -- For a directory that keeps what it promises (IsDirectory) and a positive block size, a new
  -- cache on a backing store is valid and has the bytes of the backing store.
  pub new_lem :
      IsValid d b memory set_of (new d b c (some s))
      × ((x : ℕ) → view d b memory (new d b c (some s)) x ≡ memory s x)
  unfolding new memory_of
  new_lem =
      let made = new d b c (some s) in
      let valid : IsValid d b memory set_of made = (
        pos,
        dir,
        (s, refl),
        empty-IsCoherent c set_of made.blocks made.data_store (memory s) dir.new_directory_invalid,
      ) in
      (
        valid,
        λ x. view_unique d b memory set_of made x (memory s x) valid (
            inr (
              (λ p i v _. nothing_held c made.blocks p _ dir.new_directory_invalid (i, v, refl)),
              refl,
            )),
      )
