-- ===== src/Timing/Cache/Parts.antt =====
-- What timing/cache/cache.go uses of the directory of the package akita, and its `BackingStore`.
use m1sim.Base.{ℕ, Bool, Option, List, ◌&&◌, ◌==◌, if◌then◌else◌}

-- A *akitacache.Block: `SetID` and `WayID` tell the blocks of a directory apart.
pub record Slot : Type 0 where
  pub set_id : ℕ
  pub way_id : ℕ

-- The fields of a block that the cache reads and writes.
pub record Block : Type 0 where
  pub tag : ℕ
  pub is_valid : Bool
  pub is_dirty : Bool

-- A write through the pointer.
unfoldable pub set_block : Slot → Block → (Slot → Block) → Slot → Block
set_block p v blocks q = if q.set_id == p.set_id && q.way_id == p.way_id then v else blocks q

-- The operations of `DirectoryImpl` on the order L of its blocks by their last use.
pub record Directory (L : Type 0) : Type 0 where
  pub new_directory : ℕ → ℕ → ℕ → L × (Slot → Block)
  pub lookup : L → (Slot → Block) → ℕ → Option Slot
  pub find_victim : L → (Slot → Block) → ℕ → Option Slot
  pub visit : Slot → L → L
  pub get_sets : L → List (List Slot)
  pub reset : L → (Slot → Block) → L × (Slot → Block)

-- The interface `BackingStore`, on the state S behind it; a []byte is its length and its bytes.
pub record BackingStore (S : Type 0) : Type 0 where
  pub read : ℕ → ℕ → S → (ℕ → ℕ) × S
  pub write : ℕ → ℕ → (ℕ → ℕ) → S → S
