-- ===== src/Timing/Cache/Coherence/Refill.antt =====
-- A block of the cache is replaced: `handleMiss` of timing/cache/cache.go.
use m1sim.Base.{
  ℕ, true, false, ◌+◌, ◌%◌, ◌^◌, ◌<◌, ◌≤◌, ◌≡◌, ◌≢◌, ◌==◌, inl, inr, sym, ◌∙◌, ap, subst,
  Bool-cases, ==→eq, ==→ne,
}
use m1sim.Timing.Cache.Settings.{Config}
use m1sim.Timing.Cache.Parts.{Slot, Block, set_block}
use m1sim.Timing.Cache.{block_addr, block_index, set_bytes}
use m1sim.Timing.Cache.View.{InDirectory}
use m1sim.Timing.Cache.Blocks
use m1sim.Timing.Cache.Coherence.Writes
use m1sim.Timing.Cache.Coherence.{Holds, Misses, Sees, IsCoherent}

-- The memory after the block p was written back where it had to be.
pub record IsEvicted (c : Config) (blocks : Slot → Block) (store : ℕ → ℕ → ℕ)
    (memory memory' : ℕ → ℕ) (p : Slot) : Type 0 where
  pub outside :
      (x : ℕ)
      → ((blocks p).is_valid ≡ true → (blocks p).tag ≢ block_addr c x)
      → memory' x ≡ memory x
  pub inside :
      (x : ℕ)
      → (blocks p).is_valid ≡ true
      → (blocks p).tag ≡ block_addr c x
      → memory' x ≡ store (block_index c p) (x % c.block_size)

module _ (c : Config) (set_of : ℕ → ℕ) (blocks : Slot → Block) (store : ℕ → ℕ → ℕ)
    (memory memory' : ℕ → ℕ) (p : Slot) (k : IsCoherent c set_of blocks store memory)
    (i : InDirectory c p) (e : IsEvicted c blocks store memory memory' p) where
  abbrev fresh : ℕ → Block
  fresh t = record { tag = t; is_valid = true; is_dirty = false }

  abbrev SeesNew : ℕ → (ℕ → ℕ) → ℕ → ℕ → Type 0
  SeesNew t bytes x v =
      Sees c (set_block p (fresh t) blocks) (set_bytes (block_index c p) bytes store) memory' x v

  -- p holds the block at t.
  pub fresh-Holds : (t : ℕ) → Holds c (set_block p (fresh t) blocks) p t
  fresh-Holds t =
      let g = Blocks.set_block_same p (fresh t) blocks in
      (i, ap (λ (b : Block). b.is_valid) g, ap (λ (b : Block). b.tag) g)

  refilled :
      (t : ℕ) (bytes : ℕ → ℕ) (x v : ℕ)
      → Misses c blocks t
      → bytes (x % c.block_size) ≡ memory' x
      → block_addr c x ≡ t
      → Sees c blocks store memory x v
      → SeesNew t bytes x v
  refilled t bytes x v m b h (inl (q, (d, a, f), _)) = absurd (m q d a (f ∙ h))
  refilled t bytes x v m b h (inr (_, f)) = inl (
    p,
    subst (λ t'. Holds c (set_block p (fresh t) blocks) p t') (sym h) (fresh-Holds t),
    f
        ∙ sym (b ∙ e.outside x (λ a g. m p i a (g ∙ h)))
        ∙ sym (
            ap (λ (s : ℕ → ℕ). s (x % c.block_size))
              (Blocks.set_bytes_same (block_index c p) bytes store)),
  )

  elsewhere :
      (t : ℕ) (bytes : ℕ → ℕ) (x v : ℕ)
      → t ≢ block_addr c x
      → Sees c blocks store memory x v
      → SeesNew t bytes x v
  elsewhere t bytes x v n (inl (q, (d, a, f), g)) =
      elim (Blocks.set_block-cases p (fresh t) blocks q) [
        | inl (o, _) ↦
            let held = subst (λ s. Holds c blocks s (block_addr c x)) o (d, a, f) in
            inr (
              Writes.Misses-after c blocks p (fresh t) (block_addr c x) (λ _. n)
                  (λ r h. k.unique r p _ h held),
              g
                  ∙ ap (λ s. store (block_index c s) (x % c.block_size)) o
                  ∙ sym (e.inside x held.1 held.2),
            )
        | inr (o, h) ↦ inl (
          q,
          Writes.held_after c blocks p q (fresh t) _ h (d, a, f),
          g
              ∙ sym (
                  ap (λ (s : ℕ → ℕ). s (x % c.block_size))
                    (Writes.other_bytes c p i store q bytes d o)),
        )
      ]
  elsewhere t bytes x v n (inr (m, f)) = inr (
    Writes.Misses-after c blocks p (fresh t) (block_addr c x) (λ _. n)
        (λ q (d, a, h). absurd (m q d a h)),
    f ∙ sym (e.outside x (m p i)),
  )

  -- After p was replaced by the block at t, each address has its value.
  pub refill-Sees :
      (t : ℕ) (bytes : ℕ → ℕ) (x v : ℕ)
      → Misses c blocks t
      → ((x : ℕ) → block_addr c x ≡ t → bytes (x % c.block_size) ≡ memory' x)
      → Sees c blocks store memory x v
      → SeesNew t bytes x v
  refill-Sees t bytes x v m b s = elim (Bool-cases (t == block_addr c x)) [
    | inl same ↦ let h = sym (==→eq _ _ same) in refilled t bytes x v m (b x h) h s
    | inr other ↦ elsewhere t bytes x v (==→ne _ _ other) s
  ]

  fresh_unique :
      (t : ℕ) (q r : Slot) (u : ℕ)
      → Misses c blocks t
      → Holds c (set_block p (fresh t) blocks) q u
      → Holds c (set_block p (fresh t) blocks) r u
      → q ≡ r
  fresh_unique t q r u m h j = elim (Writes.after-cases c blocks p (fresh t) q u h) [
    | inl (o, _, x) ↦ elim (Writes.after-cases c blocks p (fresh t) r u j) [
      | inl (o', _, _) ↦ o ∙ sym o'
      | inr (_, (d, a, y), _) ↦ absurd (m r d a (y ∙ sym x))
    ]
    | inr (_, (d, a, y), _) ↦ elim (Writes.after-cases c blocks p (fresh t) r u j) [
      | inl (_, _, x) ↦ absurd (m q d a (y ∙ sym x))
      | inr (_, l, _) ↦ k.unique q r u (d, a, y) l
    ]
  ]

  -- A clean block that the eviction passes by still agrees with the memory.
  kept_clean :
      (q : Slot) (bytes : ℕ → ℕ) (u j : ℕ)
      → q ≢ p
      → Holds c blocks q u
      → (blocks q).is_dirty ≡ false
      → j < c.block_size
      → set_bytes (block_index c p) bytes store (block_index c q) j ≡ memory' (u + j)
  kept_clean q bytes u j o h f l =
      ap (λ (s : ℕ → ℕ). s j) (Writes.other_bytes c p i store q bytes h.0 o)
      ∙ k.clean q u j h f l
      ∙ sym (
          e.outside (u + j) (λ v g.
            o (k.unique q p u h (i, v, g ∙ (Blocks.offset-add c u j (k.placed q u h).1 l).1))))

  -- The directory stays coherent with the memory.
  pub refill-IsCoherent :
      (t : ℕ) (bytes : ℕ → ℕ)
      → p.set_id ≡ set_of t
      → block_addr c t ≡ t
      → t + c.block_size ≤ 2 ^ 64
      → Misses c blocks t
      → ((j : ℕ) → j < c.block_size → bytes j ≡ memory' (t + j))
      → IsCoherent c set_of
          (set_block p (fresh t) blocks)
          (set_bytes (block_index c p) bytes store)
          memory'
  refill-IsCoherent t bytes s a l m b = record {
    placed = λ q u h. elim (Writes.after-cases c blocks p (fresh t) q u h) [
      | inl (o, _, x) ↦
          subst (λ u. (q.set_id ≡ set_of u) × (block_addr c u ≡ u) × (u + c.block_size ≤ 2 ^ 64)) x
            (ap (λ (r : Slot). r.set_id) o ∙ s, a, l)
      | inr (_, g, _) ↦ k.placed q u g
    ];
    unique = λ q r u h j. fresh_unique t q r u m h j;
    clean = λ q u j h f lt. elim (Writes.after-cases c blocks p (fresh t) q u h) [
      | inl (o, _, x) ↦
          ap (λ n. set_bytes (block_index c p) bytes store (block_index c n) j) o
          ∙ ap (λ (s : ℕ → ℕ). s j) (Blocks.set_bytes_same (block_index c p) bytes store)
          ∙ b j lt
          ∙ ap (λ u. memory' (u + j)) x
      | inr (o, g, y) ↦ kept_clean q bytes u j o g (sym (ap (λ (b : Block). b.is_dirty) y) ∙ f) lt
    ];
  }
