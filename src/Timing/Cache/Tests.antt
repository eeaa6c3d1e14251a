-- ===== src/Timing/Cache/Tests.antt =====
-- timing/cache at a concrete size: one block of 64 bytes before the emulator's memory.
use m1sim.Base.{
  ℕ, Bool, true, false, ◌+◌, ◌≡◌, ◌&&◌, ◌==◌, if◌then◌else◌, none, some, some-injective,
  none-ne-some, List, [], ◌∷◌, refl, arith, sym, ◌-◌, ◌<◌, u32, ap, ap₂, ◌∙◌, subst,
}
use mathlib.Core.List.{Memᴰ}
use m1sim.Emu.Memory.{Memory, empty}
use m1sim.Timing.Cache.Settings.{Config}
use m1sim.Timing.Cache.Parts.{Slot, Block, Directory}
use m1sim.Timing.Cache.Bytes.{extract_bytes, store_bytes}
use m1sim.Timing.Cache.View.{InDirectory, IsDirectory, Reaches}
use m1sim.Timing.Cache.{Cache, new, read, write, handle_miss, find_block, evict, refill, store_into}
use m1sim.Timing.Cache.Drain.{flush}
use m1sim.Timing.Cache.MemoryBacking.{memory_backing, memory_backing-IsBackingStore}
use m1sim.Timing.Cache.Valid.{memory_of, IsValid, view}
use m1sim.Timing.Cache.Operations.{LoadsFrom, StoresTo}
use m1sim.Timing.Cache.ReadWrite.{read-LoadsFrom, write-StoresTo}
use m1sim.Timing.Cache.Flush.{flush_lem}
use m1sim.Timing.Cache.Fresh.{new_lem}
use m1sim.Timing.Cache.Refinement.{loaded}
use m1sim.Timing.Registers.{ExMem, empty_ex_mem}
use m1sim.Timing.CacheStages.{
  CachedFetchStage, CachedMemoryStage, fetched, stalling, new_cached_fetch_stage,
  new_cached_memory_stage, cached_fetch, cached_access, cached_access_slot, already_issued,
}
use m1sim.Timing.CacheStages.Waiting.{times, IsTimed}
use m1sim.Timing.CacheStages.Fetching.{next_fetch, fetch_wait, cached_fetch_lem}
use m1sim.Timing.CacheStages.Loading.{LoadsFromCache, load_cycles, cached_access-LoadsFromCache}
use m1sim.Timing.CacheStages.Storing.{StoresToCache, cached_access-StoresToCache}

abbrev tiny : Config
tiny = record { size = 64; associativity = 1; block_size = 64; hit_latency = 1; miss_latency = 12 }

abbrev only : Slot
only = record { set_id = 0; way_id = 0 }

abbrev invalid : Slot → Block
invalid p = record { tag = 0; is_valid = false; is_dirty = false }

-- A directory of one block, which is always the victim.
abbrev one_block : Directory ℕ
one_block = record {
  new_directory = λ sets ways size. (0, invalid);
  lookup = λ l blocks addr.
      if (blocks only).is_valid && (blocks only).tag == addr then some only else none;
  find_victim = λ l blocks addr. some only;
  visit = λ p l. l + 1;
  get_sets = λ l. (only ∷ []) ∷ [];
  reset = λ l blocks. (0, invalid);
}

abbrev set_zero : ℕ → ℕ
set_zero addr = 0

abbrev same_slot : ℕ → ℕ → Slot
same_slot a b = record { set_id = a; way_id = b }

only_slot : (p : Slot) → InDirectory tiny p → only ≡ p
only_slot p (h, k) = ap₂ same_slot (ground arith) (ground arith)

found : (b : Bool) (p : Slot) → (if b then some only else none) ≡ some p → (b ≡ true) × (only ≡ p)
found true p h = (refl, some-injective _ _ h)
found false p h = absurd (none-ne-some _ h)

not_found : (b : Bool) → (if b then some only else none) ≡ none → b ≡ false
not_found true h = absurd (none-ne-some _ (sym h))
not_found false h = refl

listed : (set : List Slot) (p : Slot) → Memᴰ set ((only ∷ []) ∷ []) → Memᴰ p set → only ≡ p
listed set p (Memᴰ.head e) g = elim (subst (λ t. Memᴰ p t) e g) [
  | Memᴰ.head f ↦ sym f
  | Memᴰ.tail n ↦ elim n [ ]
]
listed set p (Memᴰ.tail n) g = elim n [ ]

in_tiny : (p : Slot) → only ≡ p → InDirectory tiny p
in_tiny p e = subst (λ q. InDirectory tiny q) e (ground arith, ground arith)

-- It keeps what a directory promises.
one_block-IsDirectory : IsDirectory one_block tiny set_zero
one_block-IsDirectory = record {
  lookup_some = λ l blocks addr p h.
      let (b, e) = found _ p h in
      (
        in_tiny p e,
        ap (λ (q : Slot). q.set_id) (sym e),
        ap (λ q. (blocks q).is_valid) (sym e) ∙ ground arith,
        ap (λ q. (blocks q).tag) (sym e) ∙ ground arith,
      );
  lookup_none = λ l blocks addr p h i s v e.
      let b = not_found _ h in
      let o = only_slot p i in
      let v' = ap (λ q. (blocks q).is_valid) o ∙ v in
      let e' = ap (λ q. (blocks q).tag) o ∙ e in ground arith;
  find_victim_some = λ l blocks addr. (only, refl, (ground arith, ground arith), refl);
  get_sets_in = λ l set p h g. in_tiny p (listed set p h g);
  get_sets_all = λ l p i. ((only ∷ []), Memᴰ.head refl, Memᴰ.head (sym (only_slot p i)));
  new_directory_invalid = λ p i. refl;
  reset_invalid = λ l blocks p i. refl;
}

-- A new cache, and the cache after a store, whose one block is dirty.
abbrev fresh : Cache ℕ Memory
fresh = new one_block memory_backing tiny (some empty)

abbrev written : Cache ℕ Memory
written = (write one_block memory_backing 8 4 0xDEADBEEF fresh).1

abbrev bytes : Memory → ℕ → ℕ
bytes m = m

fresh-IsValid : IsValid one_block memory_backing bytes set_zero fresh
fresh-IsValid =
    (new_lem one_block memory_backing bytes set_zero tiny (ground arith) one_block-IsDirectory
      empty).0

written-IsValid : IsValid one_block memory_backing bytes set_zero written
unfolding new
written-IsValid =
    (write-StoresTo one_block memory_backing bytes set_zero memory_backing-IsBackingStore fresh
      fresh-IsValid 8 (omega arith) 4 0xDEADBEEF).0

write-StoresTo_example :
    StoresTo one_block memory_backing bytes set_zero memory_backing-IsBackingStore fresh 8 4
      0xDEADBEEF
      (write one_block memory_backing 8 4 0xDEADBEEF fresh)
unfolding new
write-StoresTo_example =
    write-StoresTo one_block memory_backing bytes set_zero memory_backing-IsBackingStore fresh
      fresh-IsValid 8 (omega arith) 4 0xDEADBEEF

-- The load of another block writes the dirty one back.
read-LoadsFrom_example :
    LoadsFrom one_block memory_backing bytes set_zero memory_backing-IsBackingStore written 72 4
      (read one_block memory_backing 72 4 written)
unfolding new write
read-LoadsFrom_example =
    read-LoadsFrom one_block memory_backing bytes set_zero memory_backing-IsBackingStore written
      written-IsValid 72 (omega arith) 4

flush_lem_example :
    IsValid one_block memory_backing bytes set_zero (flush one_block memory_backing written)
    × ((x : ℕ)
        → view one_block memory_backing bytes (flush one_block memory_backing written) x
          ≡ view one_block memory_backing bytes written x)
    × ((x : ℕ)
        → memory_of bytes (flush one_block memory_backing written).backing x
          ≡ view one_block memory_backing bytes written x)
flush_lem_example =
    flush_lem one_block memory_backing bytes set_zero memory_backing-IsBackingStore written
      written-IsValid

-- The stages on that cache: a fetch and a load that miss, and a store.
abbrev fetching : CachedFetchStage ℕ Memory
fetching = new_cached_fetch_stage written

abbrev accessing : CachedMemoryStage ℕ Memory
accessing = new_cached_memory_stage written

abbrev a_load : ExMem
a_load = record empty_ex_mem { valid = true; pc = 0x1000; alu_result = 72; mem_read = true }

abbrev a_store : ExMem
a_store = record empty_ex_mem {
  valid = true;
  pc = 0x1004;
  alu_result = 16;
  mem_write = true;
  store_value = 7;
}

written-config : written.config ≡ tiny
unfolding new write handle_miss find_block evict refill store_into
written-config = refl

tiny-IsTimed : IsTimed written.config
tiny-IsTimed =
    subst IsTimed (sym written-config) (omega arith, omega arith, omega arith, omega arith)

reached : (addr : ℕ) → addr < 1000 → Reaches written.config addr
reached addr h = subst (λ c. Reaches c addr) (sym written-config) (omega arith)

cached_fetch_lem_example :
    (n : ℕ) × (n ≡ fetch_wait one_block memory_backing 72 written)
    × ((k : ℕ)
        → k < n
        → (cached_fetch one_block memory_backing 72
            (times k (next_fetch one_block memory_backing 72) fetching)).0
          ≡ stalling)
    × ((cached_fetch one_block memory_backing 72
          (times n (next_fetch one_block memory_backing 72) fetching)).0
        ≡ fetched (u32 (loaded written.config (view one_block memory_backing bytes written) 72 4)))
    × IsValid one_block memory_backing bytes set_zero
        (cached_fetch one_block memory_backing 72
          (times n (next_fetch one_block memory_backing 72) fetching)).1.cache
    × ((x : ℕ)
        → view one_block memory_backing bytes
            (cached_fetch one_block memory_backing 72
              (times n (next_fetch one_block memory_backing 72) fetching)).1.cache
            x
          ≡ view one_block memory_backing bytes written x)
cached_fetch_lem_example =
    cached_fetch_lem one_block memory_backing bytes set_zero memory_backing-IsBackingStore fetching
      written-IsValid 72 (reached 72 (omega arith)) refl tiny-IsTimed

cached_access-LoadsFromCache_example :
    LoadsFromCache one_block memory_backing bytes set_zero memory_backing-IsBackingStore accessing
      written-IsValid a_load
      (cached_access one_block memory_backing a_load)
      (load_cycles one_block memory_backing bytes set_zero memory_backing-IsBackingStore accessing
          written-IsValid a_load
          (reached 72 (omega arith))
          (refl, refl)
          refl
          tiny-IsTimed
        - 1)
    × LoadsFromCache one_block memory_backing bytes set_zero memory_backing-IsBackingStore accessing
        written-IsValid a_load
        (cached_access_slot one_block memory_backing a_load)
        (load_cycles one_block memory_backing bytes set_zero memory_backing-IsBackingStore accessing
            written-IsValid a_load
            (reached 72 (omega arith))
            (refl, refl)
            refl
            tiny-IsTimed
          - 1)
cached_access-LoadsFromCache_example =
    cached_access-LoadsFromCache one_block memory_backing bytes set_zero
      memory_backing-IsBackingStore accessing written-IsValid a_load (reached 72 (omega arith))
      (refl, refl) refl tiny-IsTimed

-- Three calls.
cached_access-StoresToCache_example :
    StoresToCache one_block memory_backing bytes set_zero memory_backing-IsBackingStore accessing
      written-IsValid a_store
      (reached 16 (omega arith))
      (refl, refl, refl)
      (times 2
        (λ a. cached_access one_block memory_backing a_store a.1)
        (cached_access one_block memory_backing a_store accessing))
unfolding already_issued
cached_access-StoresToCache_example =
    cached_access-StoresToCache one_block memory_backing bytes set_zero
      memory_backing-IsBackingStore accessing written-IsValid a_store (reached 16 (omega arith))
      (refl, refl, refl) refl refl 2

-- The miss takes twelve cycles.
fetch_wait_eleven : fetch_wait one_block memory_backing 72 written ≡ 11
unfolding read write new handle_miss find_block
fetch_wait_eleven = refl

-- The store is read back, from the block.
read_back : (read one_block memory_backing 8 4 written).0.word ≡ 0xDEADBEEF
unfolding read write new extract_bytes store_bytes
read_back = refl
