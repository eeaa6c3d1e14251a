-- ===== src/Timing/Cache.antt =====
-- timing/cache/cache.go: a write-back, write-allocate cache. The directory of the package akita and the
-- backing store are parameters. A block's bytes are a function of the offset, of BlockSize bytes as
-- `New` allocates them; a *Block is its set and way, and the map holds the fields behind the pointer.
pub mod Settings
pub mod Bytes
pub mod Parts
pub mod View
pub mod Blocks
pub mod Coherence
pub mod Valid
pub mod Access
pub mod Refinement
pub mod Operations
pub mod ReadWrite
pub mod MemoryBacking
pub mod Drain
pub mod Flush
pub mod Fresh
mod Tests
use m1sim.Base.{
  ℕ, Bool, true, false, add64, ◌+◌, ◌*◌, ◌/◌, ◌%◌, ◌&&◌, ◌==◌, if◌then◌else◌, Option, none, some,
  List, [], ◌∷◌,
}
use m1sim.Timing.Cache.Settings.{Config, AccessResult, Statistics, no_statistics}
use m1sim.Timing.Cache.Bytes.{extract_data, store_data}
use m1sim.Timing.Cache.Parts.{Slot, Block, Directory, BackingStore, set_block}

pub record Cache (L S : Type 0) : Type 0 where
  pub config : Config
  pub directory : L
  pub blocks : Slot → Block
  pub data_store : ℕ → ℕ → ℕ
  pub stats : Statistics
  pub backing : Option S
  pub recent_store_addr : ℕ
  pub recent_store_valid : Bool

abbrev pub store_forward_latency : ℕ
store_forward_latency = 1

-- `(addr / BlockSize) * BlockSize`
abbrev pub block_addr : Config → ℕ → ℕ
block_addr c addr = addr / c.block_size * c.block_size

unfoldable pub block_index : Config → Slot → ℕ
block_index c p = p.set_id * c.associativity + p.way_id

-- The bytes of block n of the data store.
unfoldable pub set_bytes : ℕ → (ℕ → ℕ) → (ℕ → ℕ → ℕ) → ℕ → ℕ → ℕ
set_bytes n bytes store k = if k == n then bytes else store k

-- `victim.IsDirty && c.backing != nil`, and the write of the victim.
unfoldable pub write_victim :
    {S : Type 0} → BackingStore S → ℕ → Block → (ℕ → ℕ) → Option S → Option S × Bool
write_victim b size v bytes none = (none, false)
write_victim b size v bytes (some s) =
    if v.is_dirty then (some (b.write v.tag size bytes s), true) else (some s, false)

-- `victimData` after the fetch.
unfoldable pub fetch_block : {S : Type 0} → BackingStore S → ℕ → ℕ → Option S → (ℕ → ℕ) × Option S
fetch_block b addr size none = ((λ i. 0), none)
fetch_block b addr size (some s) = let (bytes, s') = b.read addr size s in (bytes, some s')

abbrev pub no_access : AccessResult
no_access = record { hit = false; latency = 0; word = 0; evicted = false; evicted_addr = 0 }

-- The methods, for a directory and a backing store.
module _ {L S : Type 0} (d : Directory L) (b : BackingStore S) where
  unfoldable pub new : Config → Option S → Cache L S
  new c backing =
      let num_sets = c.size / (c.associativity * c.block_size) in
      let (directory, blocks) = d.new_directory num_sets c.associativity c.block_size in
      record {
        config = c;
        directory = directory;
        blocks = blocks;
        data_store = λ n i. 0;
        stats = no_statistics;
        backing = backing;
        recent_store_addr = 0;
        recent_store_valid = false;
      }

  -- The write-back of the victim, with the counts.
  unfoldable pub evict : Slot → AccessResult → Cache L S → AccessResult × Cache L S
  unfolding block_index write_victim
  evict p result c =
      let v = c.blocks p in
      if v.is_valid
      then (let (backing, written) =
            write_victim b c.config.block_size v (c.data_store (block_index c.config p))
              c.backing in
          (
            record result { evicted = true; evicted_addr = v.tag },
            record c {
              stats = record c.stats {
                evictions = add64 c.stats.evictions 1;
                writebacks = if written then add64 c.stats.writebacks 1 else c.stats.writebacks;
              };
              backing = backing;
            },
          ))
      else (result, c)

  -- The victim takes the block of addr, clean.
  unfoldable pub refill : Slot → ℕ → Cache L S → Cache L S
  unfolding block_index fetch_block set_bytes set_block
  refill p addr c =
      let (bytes, backing) =
        fetch_block b (block_addr c.config addr) c.config.block_size c.backing in
      record c {
        backing = backing;
        data_store = set_bytes (block_index c.config p) bytes c.data_store;
        blocks =
            set_block p
              (record { tag = block_addr c.config addr; is_valid = true; is_dirty = false })
              c.blocks;
      }

  -- `storeData` on a block, and `IsDirty = true`.
  unfoldable pub store_into : Slot → ℕ → ℕ → ℕ → Cache L S → Cache L S
  unfolding block_index store_data set_bytes set_block
  store_into p addr size value c =
      let n = block_index c.config p in
      record c {
        data_store =
            set_bytes n
              (store_data c.config.block_size (c.data_store n) (addr % c.config.block_size) size
                value)
              c.data_store;
        blocks = set_block p (record (c.blocks p) { is_dirty = true }) c.blocks;
      }

  -- `extractData` on a block.
  unfoldable pub extract_from : Slot → ℕ → ℕ → Cache L S → ℕ
  unfolding block_index extract_data
  extract_from p addr size c =
      extract_data c.config.block_size (c.data_store (block_index c.config p))
        (addr % c.config.block_size) size

  abbrev pub visited : Slot → Cache L S → Cache L S
  visited p c = record c { directory = d.visit p c.directory }

  unfoldable pub handle_miss : ℕ → ℕ → Bool → ℕ → Cache L S → AccessResult × Cache L S
  unfolding evict refill store_into extract_from
  handle_miss addr size is_write write_data c =
      let result = record no_access { latency = c.config.miss_latency } in
      elim (d.find_victim c.directory c.blocks (block_addr c.config addr)) [
        | none ↦ (result, c)
        | some p ↦
            let (result', evicted) = evict p result c in
            let filled = refill p addr evicted in
            if is_write
            then (result', visited p (store_into p addr size write_data filled))
            else (record result' { word = extract_from p addr size filled }, visited p filled)
      ]

  -- `block != nil && block.IsValid`
  unfoldable pub find_block : ℕ → Cache L S → Option Slot
  find_block addr c = elim (d.lookup c.directory c.blocks (block_addr c.config addr)) [
    | none ↦ none
    | some p ↦ if (c.blocks p).is_valid then some p else none
  ]

  unfoldable pub read : ℕ → ℕ → Cache L S → AccessResult × Cache L S
  unfolding handle_miss find_block extract_from
  read addr size c =
      let counted = record c { stats = record c.stats { reads = add64 c.stats.reads 1 } } in
      elim (find_block addr counted) [
        | none ↦
            handle_miss addr size false 0
              (record counted { stats = record counted.stats { misses = add64 c.stats.misses 1 } })
        | some p ↦
            let forwards = c.recent_store_valid && c.recent_store_addr == addr in
            (
              record {
                hit = true;
                latency =
                    if forwards
                    then add64 c.config.hit_latency store_forward_latency
                    else c.config.hit_latency;
                word = extract_from p addr size counted;
                evicted = false;
                evicted_addr = 0;
              },
              record counted {
                stats = record counted.stats { hits = add64 c.stats.hits 1 };
                directory = d.visit p c.directory;
                recent_store_valid = if forwards then false else c.recent_store_valid;
              },
            )
      ]

  unfoldable pub write : ℕ → ℕ → ℕ → Cache L S → AccessResult × Cache L S
  unfolding handle_miss find_block store_into
  write addr size value c =
      let counted = record c {
        stats = record c.stats { writes = add64 c.stats.writes 1 };
        recent_store_addr = addr;
        recent_store_valid = true;
      } in
      elim (find_block addr counted) [
        | none ↦
            handle_miss addr size true value
              (record counted { stats = record counted.stats { misses = add64 c.stats.misses 1 } })
        | some p ↦ (
          record no_access { hit = true; latency = c.config.hit_latency },
          store_into p addr size value (
              visited p
                (record counted { stats = record counted.stats { hits = add64 c.stats.hits 1 } })),
        )
      ]
