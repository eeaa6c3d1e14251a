-- ===== src/Timing/Superscalar/Hazards.antt =====
-- timing/pipeline/superscalar.go: what `canIssueWith` rules out between two instructions of a cycle.
use m1sim.Base.{
  ℕ, Bool, true, false, not, ◌≡◌, ◌&&◌, ◌||◌, ◌==◌, Option, some, Bool-cases, List, inl, inr, refl,
  arith,
}
use mathlib.Core.List.{Memᴰ}
use m1sim.Timing.Registers.{IdEx}
use m1sim.Timing.Hazard.LoadUse.{load_use_hazard}
use m1sim.Insts.Decoder.{decode}
use m1sim.Timing.Superscalar.Loads.{IsDecoded, next_uses_load-decoded}
use m1sim.Timing.Superscalar.{
  stores_rt2, stores_rd, stores_rd_second, reads_loaded, writes_again, counts_of, conflicts,
  can_issue_with,
}
use m1sim.Timing.Superscalar.Loop.{
  is_flags_branch, can_issue_with-count_ports, count_ports-conflicts,
}

pub or_false : (a b : Bool) → (a || b) ≡ false → (a ≡ false) × (b ≡ false)
or_false false false h = (refl, refl)
or_false false true h = absurd (ground arith)
or_false true b h = absurd (ground arith)

-- The written registers: one that the producer does not have is masked.
masked : (w a b : Bool) → w ≡ true → (w && a && b) ≡ false → (a && b) ≡ false
masked true a b w h = h
masked false a b w h = absurd (ground arith)

and_or : (a b c : Bool) → (a && (b || c)) ≡ false → ((a && b) ≡ false) × ((a && c) ≡ false)
and_or true b c h = or_false b c h
and_or false b c h = (refl, refl)

unmasked : (w a : Bool) → w ≡ true → (w && a) ≡ false → a ≡ false
unmasked true a e h = h
unmasked false a e h = absurd (ground arith)

module _ (new prev : IdEx) (earlier : List (Option IdEx)) (free : is_flags_branch new ≡ false)
    (issued : can_issue_with (some new) earlier ≡ true) (there : Memᴰ (some prev) earlier)
    (valid : prev.valid ≡ true) (writes : prev.reg_write ≡ true) where
  pub no_conflict : conflicts new prev ≡ false
  no_conflict =
      let (c, e, _) = can_issue_with-count_ports new earlier free issued in
      count_ports-conflicts new prev earlier (counts_of new) c there valid e

  abbrev written : Bool
  written = not (prev.rd == 31)

  abbrev stored : Bool
  stored = stores_rt2 new prev || stores_rd new prev || stores_rd_second new prev

  -- What each condition rules out.
  pub parts :
      ((prev.mem_write && new.mem_read) ≡ false)
      × ((written && stores_rt2 new prev) ≡ false)
      × ((written && stores_rd new prev) ≡ false)
      × ((written && stores_rd_second new prev) ≡ false)
      × ((written && reads_loaded new prev) ≡ false)
      × (writes_again prev new ≡ false)
  unfolding conflicts
  parts =
      let (x, twice) =
        or_false
          (prev.mem_write && new.mem_read
            || prev.reg_write && written && (stored || reads_loaded new prev))
          (writes_again prev new) no_conflict in
      let (order, w) =
        or_false (prev.mem_write && new.mem_read)
          (prev.reg_write && written && (stored || reads_loaded new prev)) x in
      let (s, raw) =
        and_or written stored (reads_loaded new prev)
          (masked prev.reg_write written (stored || reads_loaded new prev) writes w) in
      let (t, second) =
        and_or written (stores_rt2 new prev || stores_rd new prev) (stores_rd_second new prev) s in
      let (pair, value) = and_or written (stores_rt2 new prev) (stores_rd new prev) t in
      (order, pair, value, second, raw, twice)

  -- Of an instruction that is no branch on the flags and whose register holds what the decode stage
  -- gives for a word (IsDecoded), if it issues in a cycle with an earlier valid one that writes a
  -- register, the test that the one-wide tick makes of that word behind the earlier one finds no
  -- load-use hazard: as Rn, as Rm of a register format, or as the value that STR or STRQ stores, it
  -- reads neither the register of a load nor the second one of an LDP (both tests skip a load whose
  -- first register is 31).
  pub can_issue_with-load_use :
      (word : ℕ) (ifid_valid : Bool)
      → IsDecoded (decode word) new
      → load_use_hazard prev ifid_valid word ≡ false
  unfolding load_use_hazard
  can_issue_with-load_use word ifid_valid i =
      let (_, pair, value, _, raw, _) = parts in
      elim (Bool-cases (prev.valid && prev.mem_read && written && ifid_valid)) [
        | inl found ↦
            let e : written ≡ true = ground arith in
            rw found (
              next_uses_load-decoded (decode word) new prev i (ground arith)
                (unmasked written (reads_loaded new prev) e raw)
                (unmasked written (stores_rd new prev) e value)
                (unmasked written (stores_rt2 new prev) e pair))
        | inr none_found ↦ rw none_found refl
      ]
