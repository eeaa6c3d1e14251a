-- ===== src/Timing/Cache/Flush.antt =====
-- `Flush` of timing/cache/cache.go, and the memory that the cache stands for.
use m1sim.Base.{
  ℕ, Bool, true, false, ◌≡◌, List, [], ◌∷◌, inl, inr, Option, some, refl, ap, sym, ◌∙◌, subst,
  if◌then◌else◌, Bool-cases, arith,
}
use mathlib.Core.List.{Memᴰ}
use m1sim.Timing.Cache.Settings.{Statistics}
use m1sim.Timing.Cache.Parts.{Slot, Block, Directory, BackingStore, set_block}
use m1sim.Timing.Cache.View.{InDirectory, IsBackingStore}
use m1sim.Timing.Cache.Blocks
use m1sim.Timing.Cache.{Cache, block_addr, block_index, write_victim}
use m1sim.Timing.Cache.Drain.{flush_block, flush_set, flush_sets, flush}
use m1sim.Timing.Cache.Coherence.{Misses}
use m1sim.Timing.Cache.Coherence.Drop
use m1sim.Timing.Cache.Coherence.Refill.{IsEvicted}
use m1sim.Timing.Cache.Valid.{
  memory_of, IsValid, view, view-Sees, view_unique, write_victim-IsEvicted,
}

if-true {ℓ} : {A : Type ℓ} (c : Bool) (x y : A) → c ≡ true → (if c then x else y) ≡ x
if-true c x y h = rw h refl

if-false {ℓ} : {A : Type ℓ} (c : Bool) (x y : A) → c ≡ false → (if c then x else y) ≡ y
if-false c x y h = rw h refl

module _ {L S : Type 0} (d : Directory L) (b : BackingStore S) (memory : S → ℕ → ℕ) (set_of : ℕ → ℕ)
    (l : IsBackingStore b memory) where
  -- What the loop keeps: the memory, the configuration, and that invalid blocks stay so.
  abbrev Keeps : Cache L S → Cache L S → Type 0
  Keeps c c' =
      IsValid d b memory set_of c'
      × ((x : ℕ) → view d b memory c' x ≡ view d b memory c x)
      × (c'.config ≡ c.config)
      × ((q : Slot) → (c.blocks q).is_valid ≡ false → (c'.blocks q).is_valid ≡ false)

  Keeps-trans : (c c' c'' : Cache L S) → Keeps c c' → Keeps c' c'' → Keeps c c''
  Keeps-trans c c' c'' (_, s, e, m) (w, s', e', m') =
      (w, λ x. s' x ∙ s x, e' ∙ e, λ q h. m' q (m q h))

  module _ (c : Cache L S) (w : IsValid d b memory set_of c) (p : Slot)
      (i : InDirectory c.config p) where
    dropped : Statistics → S → Cache L S
    dropped st s = record c {
      backing = some s;
      stats = st;
      blocks = set_block p (record (c.blocks p) { is_valid = false; is_dirty = false }) c.blocks;
    }

    -- The backing store after the loop's body.
    abbrev victim_written : Option S × Bool
    victim_written =
        if (c.blocks p).is_valid
        then write_victim b c.config.block_size (c.blocks p) (c.data_store (block_index c.config p))
            c.backing
        else (c.backing, false)

    settled :
        (s : S)
        → victim_written.0 ≡ some s
        → flush_block d b p c ≡ dropped (flush_block d b p c).stats s
    unfolding flush_block dropped
    settled s e =
        ap
          (λ (o : Option S). record c {
            backing = o;
            stats = (flush_block d b p c).stats;
            blocks =
                set_block p (record (c.blocks p) { is_valid = false; is_dirty = false }) c.blocks;
          })
          e

    -- The write-back of the loop, where the block is valid.
    flushed :
        (s : S) × ((flush_block d b p c) ≡ dropped (flush_block d b p c).stats s)
        × IsEvicted c.config c.blocks c.data_store (memory_of memory c.backing) (memory s) p
    unfolding flush_block dropped memory_of
    flushed = elim (Bool-cases (c.blocks p).is_valid) [
      | inl valid ↦
          let (s, e, h) = write_victim-IsEvicted d b memory set_of c p l w i valid in
          (s, settled s (ap (λ (t : Option S × Bool). t.0) (if-true _ _ _ valid) ∙ e), h)
      | inr invalid ↦
          let (s, e) = w.2 in
          (
            s,
            settled s (ap (λ (t : Option S × Bool). t.0) (if-false _ _ _ invalid) ∙ e),
            record {
              outside = λ x _. ap (λ o. memory_of memory o x) (sym e);
              inside = λ x v. absurd (ground arith);
            },
          )
    ]

    dropped-Keeps :
        (st : Statistics) (s : S)
        → IsEvicted c.config c.blocks c.data_store (memory_of memory c.backing) (memory s) p
        → Keeps c (dropped st s) × (((dropped st s).blocks p).is_valid ≡ false)
    unfolding dropped memory_of
    dropped-Keeps st s e =
        let valid : IsValid d b memory set_of (dropped st s) = (
          w.0,
          w.1,
          (s, refl),
          Drop.drop-IsCoherent c.config set_of c.blocks c.data_store (memory_of memory c.backing)
              (memory s) p w.3 i e,
        ) in
        (
          (
            valid,
            λ x. view_unique d b memory set_of (dropped st s) x (view d b memory c x) valid (
                Drop.drop-Sees c.config set_of c.blocks c.data_store (memory_of memory c.backing)
                  (memory s) p w.3 i e x (view d b memory c x) (view-Sees d b memory set_of c x w)),
            refl,
            λ q h.
                elim (Blocks.set_block-cases p
                  (record (c.blocks p) { is_valid = false; is_dirty = false }) c.blocks q) [
                    | inl (_, g) ↦ ap (λ (b : Block). b.is_valid) g
                    | inr (_, g) ↦ ap (λ (b : Block). b.is_valid) g ∙ h
                  ],
          ),
          ap (λ (b : Block). b.is_valid)
              (Blocks.set_block_same p (record (c.blocks p) { is_valid = false; is_dirty = false })
                c.blocks),
        )

    flush_block-Keeps :
        Keeps c (flush_block d b p c) × (((flush_block d b p c).blocks p).is_valid ≡ false)
    flush_block-Keeps =
        let (s, e, h) = flushed in
        subst (λ c'. Keeps c c' × ((c'.blocks p).is_valid ≡ false)) (sym e)
          (dropped-Keeps (flush_block d b p c).stats s h)

  flush_set-Keeps :
      (set : List Slot) (c : Cache L S)
      → IsValid d b memory set_of c
      → ((p : Slot) → Memᴰ p set → InDirectory c.config p)
      → Keeps c (flush_set d b set c)
        × ((p : Slot) → Memᴰ p set → ((flush_set d b set c).blocks p).is_valid ≡ false)
  unfolding flush_set
  flush_set-Keeps [] c w i = ((w, λ x. refl, refl, λ q h. h), λ p h. elim h [ ])
  flush_set-Keeps (p ∷ set) c w i =
      let (k, v) = flush_block-Keeps c w p (i p (Memᴰ.head refl)) in
      let next = flush_block d b p c in
      let (k', v') =
        flush_set-Keeps set next k.0
          (λ q h. subst (λ conf. InDirectory conf q) (sym k.2) (i q (Memᴰ.tail h))) in
      (
        Keeps-trans c next (flush_set d b set next) k k',
        λ q h. elim h [
          | Memᴰ.head e ↦ k'.3 q (subst (λ r. (next.blocks r).is_valid ≡ false) (sym e) v)
          | Memᴰ.tail t ↦ v' q t
        ],
      )

  flush_sets-Keeps :
      (sets : List (List Slot)) (c : Cache L S)
      → IsValid d b memory set_of c
      → ((set : List Slot) (p : Slot) → Memᴰ set sets → Memᴰ p set → InDirectory c.config p)
      → Keeps c (flush_sets d b sets c)
        × ((set : List Slot) (p : Slot)
            → Memᴰ set sets
            → Memᴰ p set
            → ((flush_sets d b sets c).blocks p).is_valid ≡ false)
  unfolding flush_sets
  flush_sets-Keeps [] c w i = ((w, λ x. refl, refl, λ q h. h), λ set p h. elim h [ ])
  flush_sets-Keeps (set ∷ sets) c w i =
      let (k, v) = flush_set-Keeps set c w (λ p h. i set p (Memᴰ.head refl) h) in
      let next = flush_set d b set c in
      let (k', v') =
        flush_sets-Keeps sets next k.0
          (λ t q h g. subst (λ conf. InDirectory conf q) (sym k.2) (i t q (Memᴰ.tail h) g)) in
      (
        Keeps-trans c next (flush_sets d b sets next) k k',
        λ t q h g. elim h [
          | Memᴰ.head e ↦ k'.3 q (v q (subst (λ u. Memᴰ q u) e g))
          | Memᴰ.tail m ↦ v' t q m g
        ],
      )

  -- For a directory and a backing store that keep what they promise (IsDirectory, IsBackingStore),
  -- `Flush` of a valid cache leaves a valid cache with the same byte at every address, and the
  -- backing store alone then has them all.
  pub flush_lem :
      (c : Cache L S)
      → IsValid d b memory set_of c
      → IsValid d b memory set_of (flush d b c)
        × ((x : ℕ) → view d b memory (flush d b c) x ≡ view d b memory c x)
        × ((x : ℕ) → memory_of memory (flush d b c).backing x ≡ view d b memory c x)
  unfolding flush
  flush_lem c w =
      let sets = d.get_sets c.directory in
      let (k, v) = flush_sets-Keeps sets c w (w.1.get_sets_in c.directory) in
      let done = flush d b c in
      let empty : (x : ℕ) → Misses done.config done.blocks (block_addr done.config x) = λ x q i a _.
        let (set, m, n) =
          w.1.get_sets_all c.directory q (subst (λ conf. InDirectory conf q) k.2 i) in
        let invalid = v set q m n in absurd (ground arith) in
      (
        k.0,
        k.1,
        λ x.
            sym (
              view_unique d b memory set_of done x (memory_of memory done.backing x) k.0
                (inr (empty x, refl)))
            ∙ k.1 x,
      )
