-- ===== src/Timing/Superscalar/Ports.antt =====
-- timing/pipeline/superscalar.go: the ports that the instructions of a cycle use.
use m1sim.Base.{
  ℕ, true, false, ◌+◌, ◌≤◌, ◌≡◌, if◌then◌else◌, Option, none, some, some-injective, Bool-cases,
  List, [], ◌∷◌, inl, inr, refl, ap₂, sym, subst, ◌∙◌, arith,
}
use m1sim.Timing.Registers.{IdEx}
use m1sim.Timing.Superscalar.{
  PortCounts, counts_of, add_counts, count_ports, within_ports, can_issue_with, max_mem_ports,
  max_store_ports, max_alu_ports, max_write_ports,
}
use m1sim.Timing.Superscalar.Loop.{
  is_flags_branch, count_ports-valid, count_ports-invalid, can_issue_with-count_ports,
}

abbrev pub no_counts : PortCounts
no_counts = record { loads = 0; stores = 0; alu_ops = 0; write_ports = 0 }

-- The ports of all the valid instructions of a list.
abbrev pub totals : List (Option IdEx) → PortCounts
totals [] = no_counts
totals (none ∷ is) = totals is
totals (some i ∷ is) = if i.valid then add_counts (counts_of i) (totals is) else totals is

abbrev counts : ℕ × ℕ → ℕ × ℕ → PortCounts
counts (a, b) (c, d) = record { loads = a; stores = b; alu_ops = c; write_ports = d }

counts_equal :
    (a b : PortCounts)
    → a.loads ≡ b.loads
    → a.stores ≡ b.stores
    → a.alu_ops ≡ b.alu_ops
    → a.write_ports ≡ b.write_ports
    → a ≡ b
counts_equal a b p q r s = ap₂ counts (ap₂ (λ x y. (x, y)) p q) (ap₂ (λ x y. (x, y)) r s)

add_counts_zero : (c : PortCounts) → add_counts c no_counts ≡ c
add_counts_zero c =
    counts_equal (add_counts c no_counts) c (omega arith) (omega arith) (omega arith) (omega arith)

add_counts_assoc :
    (a b c : PortCounts) → add_counts (add_counts a b) c ≡ add_counts a (add_counts b c)
add_counts_assoc a b c =
    counts_equal (add_counts (add_counts a b) c) (add_counts a (add_counts b c)) (omega arith)
      (omega arith) (omega arith) (omega arith)

pub can_issue_with-valid :
    (new : IdEx) (earlier : List (Option IdEx))
    → can_issue_with (some new) earlier ≡ true
    → new.valid ≡ true
unfolding can_issue_with
can_issue_with-valid new earlier h = ground arith

count_ports-totals :
    (new : IdEx) (earlier : List (Option IdEx)) (c c' : PortCounts)
    → count_ports new earlier c ≡ some c'
    → c' ≡ add_counts c (totals earlier)
unfolding count_ports
count_ports-totals new [] c c' h = sym (some-injective _ _ h) ∙ sym (add_counts_zero c)
count_ports-totals new (none ∷ earlier) c c' h = count_ports-totals new earlier c c' h
count_ports-totals new (some p ∷ earlier) c c' h = elim (Bool-cases p.valid) [
  | inl v ↦
      let (_, g) = count_ports-valid new p earlier c c' v h in
      count_ports-totals new earlier (add_counts c (counts_of p)) c' g
      ∙ add_counts_assoc c (counts_of p) (totals earlier)
      ∙ sym (rw v refl)
  | inr v ↦
      count_ports-totals new earlier c c' (count_ports-invalid new p earlier c c' v h)
      ∙ sym (rw v refl)
]

-- An instruction that issues, and is no branch on the flags, is valid, and with the valid ones that
-- issued before it uses at most 3 ports for loads and stores, 2 of them for stores, 6 ALUs and 4
-- write ports of the register file.
pub can_issue_with-totals :
    (new : IdEx) (earlier : List (Option IdEx))
    → is_flags_branch new ≡ false
    → can_issue_with (some new) earlier ≡ true
    → (new.valid ≡ true)
      × ((totals (some new ∷ earlier)).loads + (totals (some new ∷ earlier)).stores ≤ max_mem_ports)
      × ((totals (some new ∷ earlier)).stores ≤ max_store_ports)
      × ((totals (some new ∷ earlier)).alu_ops ≤ max_alu_ports)
      × ((totals (some new ∷ earlier)).write_ports ≤ max_write_ports)
unfolding within_ports
can_issue_with-totals new earlier f h =
    let (c, e, w) = can_issue_with-count_ports new earlier f h in
    let valid = can_issue_with-valid new earlier h in
    let t : c ≡ totals (some new ∷ earlier) =
      count_ports-totals new earlier (counts_of new) c e ∙ sym (rw valid refl) in
    subst
      (λ c.
        (new.valid ≡ true)
        × (c.loads + c.stores ≤ max_mem_ports)
        × (c.stores ≤ max_store_ports)
        × (c.alu_ops ≤ max_alu_ports)
        × (c.write_ports ≤ max_write_ports))
      t (valid, ground arith, ground arith, ground arith, ground arith)
