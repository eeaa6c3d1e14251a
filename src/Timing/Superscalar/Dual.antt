-- ===== src/Timing/Superscalar/Dual.antt =====
-- timing/pipeline/superscalar.go: `canDualIssue` against `canIssueWith`.
use m1sim.Base.{
  ℕ, Bool, true, false, not, ◌+◌, ◌≤◌, ◌≡◌, ◌&&◌, ◌||◌, ◌==◌, ltb, some, [], ◌∷◌, Bool-cases, inl,
  inr, refl, subst, arith,
}
use m1sim.Timing.Registers.{IdEx}
use m1sim.Timing.Superscalar.{
  is_svc, has_rd, reads, writes_again, max_mem_ports, max_store_ports, conflicts, loads_rt2,
  add_counts, counts_of, one_if, stores_rt2, stores_rd_second, can_dual_issue_valid, can_dual_issue,
  can_issue_registers, can_issue_with, stores_rd, reads_loaded,
}
use m1sim.Timing.Hazard.{rt2_of}
use m1sim.Timing.Superscalar.Hazards.{or_false}
use m1sim.Timing.Superscalar.Loop.{
  is_flags_branch, can_issue_with-registers, count_ports-valid, can_issue_with-count_ports,
}
use m1sim.Timing.Superscalar.Ports.{totals, no_counts, can_issue_with-valid, can_issue_with-totals}

raw_blocked :
    (w n s1 sv s3 r l m : Bool)
    → (w && n && (s1 || sv || s3 || (r || l) && m)) ≡ false
    → (w && n && (sv || r && m)) ≡ false
raw_blocked w n s1 sv s3 r l m h = ground arith

can_issue_registers-svc :
    (new first : IdEx) → can_issue_registers new (some first ∷ []) ≡ true → is_svc new.inst ≡ false
unfolding can_issue_registers
can_issue_registers-svc new first h = elim (Bool-cases (is_svc new.inst)) [
  | inl s ↦
      let e : can_issue_registers new (some first ∷ []) ≡ false =
        rw (can_issue_registers, s) refl in
      absurd (ground arith)
  | inr s ↦ s
]

-- The ports of two loads and stores.
ports_free :
    (l1 l2 s1 s2 : ℕ)
    → l2 + (l1 + 0) + (s2 + (s1 + 0)) ≤ max_mem_ports
    → s2 + (s1 + 0) ≤ max_store_ports
    → (ltb max_mem_ports (l1 + l2 + (s1 + s2)) ≡ false) × (ltb max_store_ports (s1 + s2) ≡ false)
ports_free l1 l2 s1 s2 h k = (ground arith, ground arith)

totals-pair :
    (first second : IdEx)
    → first.valid ≡ true
    → second.valid ≡ true
    → totals (some second ∷ some first ∷ [])
      ≡ add_counts (counts_of second) (add_counts (counts_of first) no_counts)
totals-pair first second v w = rw (v, w) refl

conflicts-parts :
    (new prev : IdEx)
    → conflicts new prev ≡ false
    → ((prev.mem_write && new.mem_read) ≡ false)
      × ((prev.reg_write
            && not (prev.rd == 31)
            && (new.mem_write && has_rd prev.rd new.inst || reads new prev.rd && prev.mem_read))
          ≡ false)
      × (writes_again prev new ≡ false)
unfolding conflicts
conflicts-parts new prev x =
    let stored = stores_rt2 new prev || stores_rd new prev || stores_rd_second new prev in
    let w = prev.reg_write && not (prev.rd == 31) && (stored || reads_loaded new prev) in
    let (y, twice) = or_false (prev.mem_write && new.mem_read || w) (writes_again prev new) x in
    let (order, z) = or_false (prev.mem_write && new.mem_read) w y in
    (
      order,
      raw_blocked prev.reg_write (not (prev.rd == 31)) (stores_rt2 new prev) (stores_rd new prev)
          (stores_rd_second new prev) (reads new prev.rd)
          (loads_rt2 new prev && reads new (rt2_of prev.inst)) prev.mem_read z,
      twice,
    )

-- A pair that `canIssueWith` admits is one that `canDualIssue` admits, where the first one is valid
-- and neither a branch nor a system call, and the second no branch.
pub can_dual_issue-can_issue_with :
    (first second : IdEx)
    → first.valid ≡ true
    → first.is_branch ≡ false
    → second.is_branch ≡ false
    → is_svc first.inst ≡ false
    → can_issue_with (some second) (some first ∷ []) ≡ true
    → can_dual_issue (some first) (some second) ≡ true
unfolding can_dual_issue can_dual_issue_valid can_issue_registers
can_dual_issue-can_issue_with first second v b1 b2 s h =
    let free : is_flags_branch second ≡ false = rw b2 refl in
    let valid = can_issue_with-valid second (some first ∷ []) h in
    let free_registers = can_issue_with-registers second (some first ∷ []) free h in
    let no_svc = can_issue_registers-svc second first free_registers in
    let (_, mem, stores, _, _) = can_issue_with-totals second (some first ∷ []) free h in
    let t = totals-pair first second v valid in
    let (all_free, stores_free) =
      ports_free (one_if first.mem_read) (one_if second.mem_read) (one_if first.mem_write)
        (one_if second.mem_write) (subst (λ c. c.loads + c.stores ≤ max_mem_ports) t mem)
        (subst (λ c. c.stores ≤ max_store_ports) t stores) in
    let (c, e, _) = can_issue_with-count_ports second (some first ∷ []) free h in
    let (x, _) = count_ports-valid second first [] (counts_of second) c v e in
    let (order, written, twice) = conflicts-parts second first x in
    rw
      (
        can_dual_issue, v, valid, can_dual_issue_valid, b1, b2, s, no_svc, order, all_free,
        stores_free, written, twice,
      )
      refl
