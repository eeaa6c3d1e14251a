-- ===== src/Timing/Superscalar/Loop.antt =====
-- The loop of `canIssueWith` over the earlier instructions goes past each of them.
use m1sim.Base.{
  Bool, true, false, ◌≡◌, ◌&&◌, Option, none, some, some-injective, none-ne-some, Option-cases,
  Bool-cases, List, [], ◌∷◌, inl, inr, refl, ap, sym, subst, ◌∙◌, arith,
}
use mathlib.Core.List.{Memᴰ}
use m1sim.Timing.Registers.{IdEx}
use m1sim.Timing.Superscalar.{
  PortCounts, counts_of, conflicts, count_ports, can_issue_registers, can_issue_with, within_ports,
  branch_issue, flags_only, add_counts,
}

-- A conditional branch on the flags, which reads no register.
abbrev pub is_flags_branch : IdEx → Bool
is_flags_branch new =
    new.is_branch && elim (branch_issue new.inst) [ flags_only ↦ true | _ ↦ false ]

pub can_issue_with-registers :
    (new : IdEx) (earlier : List (Option IdEx))
    → is_flags_branch new ≡ false
    → can_issue_with (some new) earlier ≡ true
    → can_issue_registers new earlier ≡ true
unfolding can_issue_with
can_issue_with-registers new earlier f h = ground arith

pub can_issue_with-count_ports :
    (new : IdEx) (earlier : List (Option IdEx))
    → is_flags_branch new ≡ false
    → can_issue_with (some new) earlier ≡ true
    → (c : PortCounts) × (count_ports new earlier (counts_of new) ≡ some c)
      × (within_ports c ≡ true)
unfolding can_issue_registers
can_issue_with-count_ports new earlier f h =
    let g = can_issue_with-registers new earlier f h in
    elim (Option-cases (count_ports new earlier (counts_of new))) [
      | inl n ↦ absurd (ground arith)
      | inr (c, e) ↦ (c, e, ground arith)
    ]

module _ (new prev : IdEx) (earlier : List (Option IdEx)) (c c' : PortCounts) where
  -- The loop at one instruction that it goes past.
  pub count_ports-valid :
      prev.valid ≡ true
      → count_ports new (some prev ∷ earlier) c ≡ some c'
      → (conflicts new prev ≡ false)
        × (count_ports new earlier (add_counts c (counts_of prev)) ≡ some c')
  unfolding count_ports
  count_ports-valid v h = elim (Bool-cases (conflicts new prev)) [
    | inl x ↦ absurd (none-ne-some _ (sym (rw (count_ports, v, x) refl) ∙ h))
    | inr x ↦ (x, sym (rw (count_ports, v, x) refl) ∙ h)
  ]

  pub count_ports-invalid :
      prev.valid ≡ false
      → count_ports new (some prev ∷ earlier) c ≡ some c'
      → count_ports new earlier c ≡ some c'
  unfolding count_ports
  count_ports-invalid v h = sym (rw (count_ports, v) refl) ∙ h

-- The loop went past every valid instruction.
pub count_ports-conflicts :
    (new prev : IdEx) (earlier : List (Option IdEx)) (c c' : PortCounts)
    → Memᴰ (some prev) earlier
    → prev.valid ≡ true
    → count_ports new earlier c ≡ some c'
    → conflicts new prev ≡ false
unfolding count_ports
count_ports-conflicts new prev [] c c' n v h = elim n [ ]
count_ports-conflicts new prev (none ∷ earlier) c c' (Memᴰ.head e) v h =
    absurd (none-ne-some _ (sym e))
count_ports-conflicts new prev (none ∷ earlier) c c' (Memᴰ.tail n) v h =
    count_ports-conflicts new prev earlier c c' n v h
count_ports-conflicts new prev (some p ∷ earlier) c c' (Memᴰ.head e) v h =
    let q : prev ≡ p = some-injective _ _ e in
    subst (λ p. conflicts new p ≡ false) (sym q)
      (count_ports-valid new p earlier c c' (ap (λ p. p.valid) (sym q) ∙ v) h).0
count_ports-conflicts new prev (some p ∷ earlier) c c' (Memᴰ.tail n) v h =
    elim (Bool-cases p.valid) [
      | inl y ↦
          count_ports-conflicts new prev earlier (add_counts c (counts_of p)) c' n v
            (count_ports-valid new p earlier c c' y h).1
      | inr y ↦
          count_ports-conflicts new prev earlier c c' n v
            (count_ports-invalid new p earlier c c' y h)
    ]
