-- ===== src/Timing/Cache/Blocks.antt =====
-- Facts on block addresses, block indices and the writes of timing/cache/cache.go to its blocks.
use m1sim.Base.{
  ℕ, ◌+◌, ◌*◌, ◌/◌, ◌%◌, ◌<◌, ◌≤◌, ◌≡◌, ◌≢◌, ◌⊎◌, inl, inr, ◌==◌, ◌&&◌, arith, refl, ap, ap₂, sym,
  ◌∙◌, Bool-cases,
}
use native.Mathlib.Nat.{
  div-add-mod', mod-lt, div-eq_of_lt-le, mul-add-div_right, div-eq_of_lt, mul-div_cancel,
}
use m1sim.Timing.Cache.Settings.{Config}
use m1sim.Timing.Cache.Parts.{Slot, Block, set_block}
use m1sim.Timing.Cache.{block_addr, block_index, set_bytes}

pub block_addr-add : (c : Config) (x : ℕ) → x ≡ block_addr c x + x % c.block_size
block_addr-add c x = sym (div-add-mod' x c.block_size)

pub block_addr-inside :
    (c : Config) (t x : ℕ) → block_addr c t ≡ t → t ≤ x → x < t + c.block_size → block_addr c x ≡ t
block_addr-inside c t x e h l =
    ap (λ q. q * c.block_size)
      (div-eq_of_lt-le {k = t / c.block_size} c.block_size (rw e h) (grind arith))
    ∙ e

pub offset-lt : (c : Config) (x : ℕ) → 0 < c.block_size → x % c.block_size < c.block_size
offset-lt c x h = mod-lt x h

pub block_addr_twice :
    (c : Config) (x : ℕ) → 0 < c.block_size → block_addr c (block_addr c x) ≡ block_addr c x
block_addr_twice c x h = ap (λ q. q * c.block_size) (mul-div_cancel (x / c.block_size) h)

abbrev slot : ℕ → ℕ → Slot
slot a b = record { set_id = a; way_id = b }

-- The set of a block is its index divided by the associativity.
block_index-div :
    (c : Config) (p : Slot)
    → p.way_id < c.associativity
    → block_index c p / c.associativity ≡ p.set_id
unfolding block_index
block_index-div c p h =
    mul-add-div_right {m = c.associativity} (omega arith) p.set_id p.way_id
    ∙ grind (arith, div-eq_of_lt h)

pub block_index-injective :
    (c : Config) (p q : Slot)
    → p.way_id < c.associativity
    → q.way_id < c.associativity
    → block_index c p ≡ block_index c q
    → p ≡ q
unfolding block_index
block_index-injective c p q h k e =
    let sets =
      sym (block_index-div c p h) ∙ ap (λ n. n / c.associativity) e ∙ block_index-div c q k in
    ap₂ slot sets (grind arith)

-- The block behind a pointer after a write through a pointer.
pub set_block-cases :
    (p : Slot) (v : Block) (blocks : Slot → Block) (q : Slot)
    → ((q ≡ p) × (set_block p v blocks q ≡ v)) ⊎ ((q ≢ p) × (set_block p v blocks q ≡ blocks q))
unfolding set_block
set_block-cases p v blocks q = elim (Bool-cases (q.set_id == p.set_id && q.way_id == p.way_id)) [
  | inl same ↦ inl (ap₂ slot (ground arith) (ground arith), rw same refl)
  | inr other ↦ inr (
    (λ e.
        let sets = ap (λ (t : Slot). t.set_id) e in
        let ways = ap (λ (t : Slot). t.way_id) e in ground arith),
    rw other refl,
  )
]

pub set_bytes_same : (n : ℕ) (bytes : ℕ → ℕ) (store : ℕ → ℕ → ℕ) → set_bytes n bytes store n ≡ bytes
unfolding set_bytes
set_bytes_same n bytes store = ground arith

pub set_bytes_other :
    (n k : ℕ) (bytes : ℕ → ℕ) (store : ℕ → ℕ → ℕ) → k ≢ n → set_bytes n bytes store k ≡ store k
unfolding set_bytes
set_bytes_other n k bytes store h = ground arith

-- An address of the block at t is its offset above t.
pub offset-add :
    (c : Config) (t i : ℕ)
    → block_addr c t ≡ t
    → i < c.block_size
    → ((t + i) % c.block_size ≡ i) × (block_addr c (t + i) ≡ t)
offset-add c t i h l =
    let e = block_addr-inside c t (t + i) h (omega arith) (omega arith) in
    let s = block_addr-add c (t + i) in (grind arith, e)

-- An address of another block lies outside.
pub block-outside :
    (c : Config) (t x : ℕ)
    → block_addr c t ≡ t
    → t ≢ block_addr c x
    → (x < t) ⊎ (t + c.block_size ≤ x)
block-outside c t x h n = ground (arith, block_addr-inside c t x h)

pub set_block_same : (p : Slot) (v : Block) (blocks : Slot → Block) → set_block p v blocks p ≡ v
unfolding set_block
set_block_same p v blocks = ground arith
