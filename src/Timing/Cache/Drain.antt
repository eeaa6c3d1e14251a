-- ===== src/Timing/Cache/Drain.antt =====
-- timing/cache/cache.go: `Invalidate`, `Flush`, `Reset` and `ResetStats`.
use m1sim.Base.{ℕ, false, add64, if◌then◌else◌, none, some, List, [], ◌∷◌}
use m1sim.Timing.Cache.Settings.{no_statistics}
use m1sim.Timing.Cache.Parts.{Slot, Directory, BackingStore, set_block}
use m1sim.Timing.Cache.{Cache, block_index, write_victim, find_block}

module _ {L S : Type 0} (d : Directory L) (b : BackingStore S) where
  unfoldable pub invalidate : ℕ → Cache L S → Cache L S
  unfolding find_block set_block
  invalidate addr c = elim (find_block d b addr c) [
    | none ↦ c
    | some p ↦ record c {
      blocks = set_block p (record (c.blocks p) { is_valid = false; is_dirty = false }) c.blocks;
    }
  ]

  unfoldable pub reset_stats : Cache L S → Cache L S
  reset_stats c = record c { stats = no_statistics }

  -- The body of the loop of `Flush`.
  unfoldable pub flush_block : Slot → Cache L S → Cache L S
  unfolding write_victim block_index set_block
  flush_block p c =
      let v = c.blocks p in
      let (backing, written) =
        if v.is_valid
        then write_victim b c.config.block_size v (c.data_store (block_index c.config p)) c.backing
        else (c.backing, false) in
      record c {
        backing = backing;
        stats = record c.stats {
          writebacks = if written then add64 c.stats.writebacks 1 else c.stats.writebacks;
        };
        blocks = set_block p (record v { is_valid = false; is_dirty = false }) c.blocks;
      }

  unfoldable pub flush_set : List Slot → Cache L S → Cache L S
  flush_set [] c = c
  flush_set (p ∷ set) c = flush_set set (flush_block p c)

  unfoldable pub flush_sets : List (List Slot) → Cache L S → Cache L S
  flush_sets [] c = c
  flush_sets (set ∷ sets) c = flush_sets sets (flush_set set c)

  unfoldable pub flush : Cache L S → Cache L S
  unfolding flush_sets flush_set flush_block
  flush c = flush_sets (d.get_sets c.directory) c

  unfoldable pub reset : Cache L S → Cache L S
  reset c =
      let (directory, blocks) = d.reset c.directory c.blocks in
      record c {
        directory = directory;
        blocks = blocks;
        stats = no_statistics;
        recent_store_addr = 0;
        recent_store_valid = false;
      }
