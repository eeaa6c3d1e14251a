-- ===== src/Emu/Syscall/Mappings.antt =====
-- emu/syscall.go: the regions of `mmap`, and the program break.
use m1sim.Base.{
  ℕ, Bool, true, false, ◌≡◌, ◌<◌, ◌≤◌, ◌+◌, ◌*◌, ◌/◌, ◌%◌, ◌^◌, ◌==◌, List, [], ◌∷◌, ◌++◌, refl,
  sym, subst, add64, bit_and, Bool-cases, inl, inr, arith,
}
use m1sim.Emu.RegFile.{RegFile, read_reg}
use m1sim.Emu.Memory.{Memory}
use m1sim.Emu.Syscall.Settings
use m1sim.Emu.Syscall.Settings.{MmapRegion, Kernel, OpenFlags, page_size}
use m1sim.Emu.Syscall.{page_align, handle_mmap}

-- A region that the handler placed itself, not at the program's wish.
abbrev pub is_placed : MmapRegion → Bool
is_placed g = bit_and g.flags Settings.map_fixed == 0

abbrev pub end_of : MmapRegion → ℕ
end_of g = g.addr + g.len

-- A region of whole pages, not empty, at an address.
abbrev pub IsPlacedAt : ℕ → MmapRegion → Type 0
IsPlacedAt base g = (g.addr ≡ base) × (0 < g.len) × (base % page_size ≡ 0) × (g.len % page_size ≡ 0)

-- The regions in the order of their calls: those placed follow one another from base up to top.
abbrev pub Continues : Bool → ℕ → MmapRegion → (ℕ → Type 0) → Type 0
Continues true base g rest = IsPlacedAt base g × rest (end_of g)
Continues false base g rest = rest base

abbrev pub AreLaidOut : ℕ → List MmapRegion → ℕ → Type 0
AreLaidOut base [] top = base ≡ top
AreLaidOut base (g ∷ gs) top = Continues (is_placed g) base g (λ n. AreLaidOut n gs top)

Continues-map :
    (b : Bool) (base : ℕ) (g : MmapRegion) (P Q : ℕ → Type 0)
    → ((n : ℕ) → P n → Q n)
    → Continues b base g P
    → Continues b base g Q
Continues-map true base g P Q f (h, p) = (h, f (end_of g) p)
Continues-map false base g P Q f p = f base p

-- One more region.
AreLaidOut-more :
    (base top next : ℕ) (gs : List MmapRegion) (g : MmapRegion)
    → AreLaidOut base gs top
    → Continues (is_placed g) top g (λ n. n ≡ next)
    → AreLaidOut base (gs ++ g ∷ []) next
AreLaidOut-more base top next [] g h c =
    subst (λ n. Continues (is_placed g) n g (λ n. n ≡ next)) (sym h) c
AreLaidOut-more base top next (g' ∷ gs) g h c =
    Continues-map (is_placed g') base g' (λ n. AreLaidOut n gs top)
      (λ n. AreLaidOut n (gs ++ g ∷ []) next) (λ n l. AreLaidOut-more n top next gs g l c) h

-- The state of mmap in order.
pub record IsMapped {F W : Type 0} (k : Kernel F W) : Type 0 where
  pub aligned : k.next_mmap_addr % page_size ≡ 0
  pub laid_out : AreLaidOut Settings.default_mmap_base k.mmap_regions k.next_mmap_addr

page_align_lem :
    (len : ℕ)
    → 0 < len
    → len + page_size ≤ 2 ^ 64
    → (0 < page_align len)
      × (len ≤ page_align len)
      × (page_align len < len + page_size)
      × (page_align len % page_size ≡ 0)
unfolding page_align
page_align_lem len p h = (omega arith, omega arith, omega arith, omega arith)

module _ {F W : Type 0} (k : Kernel F W) (r : RegFile) (m : Memory) (v : IsMapped k) where
  abbrev region : ℕ → MmapRegion
  region addr = record {
    addr = addr;
    len = page_align (read_reg 1 r);
    prot = read_reg 2 r;
    flags = read_reg 3 r;
  }

  -- The two states that a successful mmap leaves.
  with_placed :
      0 < read_reg 1 r
      → k.next_mmap_addr + read_reg 1 r + page_size ≤ 2 ^ 64
      → is_placed (region k.next_mmap_addr) ≡ true
      → IsMapped (record k {
        next_mmap_addr = add64 k.next_mmap_addr (page_align (read_reg 1 r));
        mmap_regions = k.mmap_regions ++ region k.next_mmap_addr ∷ [];
      })
  with_placed l h p =
      let (pos, _, less, whole) = page_align_lem (read_reg 1 r) l (omega arith) in
      let even = v.aligned in
      let sum : k.next_mmap_addr + page_align (read_reg 1 r)
          ≡ add64 k.next_mmap_addr (page_align (read_reg 1 r)) =
        omega arith in
      record {
        aligned = subst (λ n. n % page_size ≡ 0) sum (omega arith);
        laid_out =
            AreLaidOut-more Settings.default_mmap_base k.next_mmap_addr _ k.mmap_regions
              (region k.next_mmap_addr) v.laid_out
              (subst
                (λ b.
                  Continues b k.next_mmap_addr (region k.next_mmap_addr)
                    (λ n. n ≡ add64 k.next_mmap_addr (page_align (read_reg 1 r))))
                (sym p) ((refl, pos, even, whole), sum));
      }

  with_fixed :
      (addr : ℕ)
      → is_placed (region addr) ≡ false
      → IsMapped (record k { mmap_regions = k.mmap_regions ++ region addr ∷ [] })
  with_fixed addr p = record {
    aligned = v.aligned;
    laid_out =
        AreLaidOut-more Settings.default_mmap_base k.next_mmap_addr k.next_mmap_addr k.mmap_regions
          (region addr) v.laid_out
          (subst (λ b. Continues b k.next_mmap_addr (region addr) (λ n. n ≡ k.next_mmap_addr))
            (sym p) refl);
  }

  pub handle_mmap-IsMapped :
      k.next_mmap_addr + read_reg 1 r + page_size ≤ 2 ^ 64 → IsMapped (handle_mmap k r m).host
  unfolding handle_mmap
  handle_mmap-IsMapped h =
      let addr = read_reg 0 r in
      let len = read_reg 1 r in
      let flags = read_reg 3 r in
      elim (Bool-cases (len == 0)) [
        | inl z ↦ subst IsMapped (sym (rw (handle_mmap, z) refl)) v
        | inr z ↦ elim (Bool-cases (bit_and flags Settings.map_anonymous == 0)) [
          | inl n ↦ subst IsMapped (sym (rw (handle_mmap, z, n) refl)) v
          | inr n ↦ elim (Bool-cases (bit_and flags Settings.map_fixed == 0)) [
            | inl p ↦
                subst IsMapped (sym (rw (handle_mmap, z, n, p) refl))
                  (with_placed (ground arith) h p)
            | inr p ↦ elim (Bool-cases (addr == 0)) [
              | inl q ↦ subst IsMapped (sym (rw (handle_mmap, z, n, p, q) refl)) v
              | inr q ↦
                  subst IsMapped (sym (rw (handle_mmap, z, n, p, q) refl))
                    (with_fixed (addr / page_size * page_size) p)
            ]
          ]
        ]
      ]
