-- ===== src/Timing/Cache/View.antt =====
-- What timing/cache/cache.go relies on of the directory and of the backing store.
use m1sim.Base.{List, ℕ, true, false, ◌+◌, ◌*◌, ◌/◌, ◌^◌, ◌<◌, ◌≤◌, ◌≡◌, ◌≢◌, ◌⊎◌, none, some}
use mathlib.Core.List.{Memᴰ}
use m1sim.Timing.Cache.Settings.{Config}
use m1sim.Timing.Cache.Parts.{Slot, Block, Directory, BackingStore}
use m1sim.Timing.Cache.{block_addr}

-- The slots of the directory.
abbrev pub InDirectory : Config → Slot → Type 0
InDirectory c p =
    (p.set_id < c.size / (c.associativity * c.block_size)) × (p.way_id < c.associativity)

-- What akita documents of a directory built for c, where `set_of` gives the set of an address.
pub record IsDirectory {L : Type 0} (d : Directory L) (c : Config) (set_of : ℕ → ℕ) : Type 0 where
  -- `Lookup` finds a valid block of the set of the address whose tag is the address, if there is one.
  pub lookup_some :
      (l : L) (blocks : Slot → Block) (addr : ℕ) (p : Slot)
      → d.lookup l blocks addr ≡ some p
      → InDirectory c p
        × (p.set_id ≡ set_of addr)
        × ((blocks p).is_valid ≡ true)
        × ((blocks p).tag ≡ addr)
  pub lookup_none :
      (l : L) (blocks : Slot → Block) (addr : ℕ) (p : Slot)
      → d.lookup l blocks addr ≡ none
      → InDirectory c p
      → p.set_id ≡ set_of addr
      → (blocks p).is_valid ≡ true
      → (blocks p).tag ≢ addr
  -- `FindVictim` gives a block of the set of the address.
  pub find_victim_some :
      (l : L) (blocks : Slot → Block) (addr : ℕ)
      → (p : Slot) × (d.find_victim l blocks addr ≡ some p)
        × InDirectory c p
        × (p.set_id ≡ set_of addr)
  -- `GetSets` has the blocks of the directory, and no others.
  pub get_sets_in :
      (l : L) (set : List Slot) (p : Slot) → Memᴰ set (d.get_sets l) → Memᴰ p set → InDirectory c p
  pub get_sets_all :
      (l : L) (p : Slot)
      → InDirectory c p
      → (set : List Slot) × Memᴰ set (d.get_sets l) × Memᴰ p set
  -- The blocks of a new directory and those of a reset one are invalid.
  pub new_directory_invalid :
      (p : Slot)
      → InDirectory c p
      → ((d.new_directory
            (c.size / (c.associativity * c.block_size))
            c.associativity
            c.block_size).1
          p).is_valid
        ≡ false
  pub reset_invalid :
      (l : L) (blocks : Slot → Block) (p : Slot)
      → InDirectory c p
      → ((d.reset l blocks).1 p).is_valid ≡ false

-- What a backing store promises: it stands for a memory, of which `Read` gives bytes without changing
-- it, and of which `Write` changes the bytes written.
pub record IsBackingStore {S : Type 0} (b : BackingStore S) (memory : S → ℕ → ℕ) : Type 0 where
  pub read_bytes :
      (addr size : ℕ) (s : S) (i : ℕ)
      → addr + size ≤ 2 ^ 64
      → i < size
      → (b.read addr size s).0 i ≡ memory s (addr + i)
  pub read_memory : (addr size : ℕ) (s : S) (x : ℕ) → memory (b.read addr size s).1 x ≡ memory s x
  pub write_inside :
      (addr size : ℕ) (bytes : ℕ → ℕ) (s : S) (i : ℕ)
      → addr + size ≤ 2 ^ 64
      → i < size
      → memory (b.write addr size bytes s) (addr + i) ≡ bytes i
  pub write_outside :
      (addr size : ℕ) (bytes : ℕ → ℕ) (s : S) (x : ℕ)
      → addr + size ≤ 2 ^ 64
      → (x < addr) ⊎ (addr + size ≤ x)
      → memory (b.write addr size bytes s) x ≡ memory s x

-- An address whose block lies in the 64-bit address space.
abbrev pub Reaches : Config → ℕ → Type 0
Reaches c addr = block_addr c addr + c.block_size ≤ 2 ^ 64
