-- ===== src/Timing/BranchPredictor/Training.antt =====
-- The well-formedness of the predictor, kept by every method, and what training does.
use m1sim.Base.{
  ℕ, zero, suc, Bool, true, false, ◌≤◌, ◌<◌, ◌^◌, ◌≡◌, ◌∙◌, arith, List, [], ◌∷◌, length, get_or,
  set, replicate, length-set, length-replicate, u32, sub32, shr, bit_and, bit_xor, if◌then◌else◌,
}
use m1sim.Base.Bits.{bit_and-le}
use m1sim.Timing.BranchPredictor.{
  Config, BranchPredictor, new_branch_predictor, bimodal_index, gshare_index, choice_index,
  btb_index, predict, update, saturate, reset,
}

-- Every counter has two bits.
abbrev pub Counters : List ℕ → Type 0
Counters [] = Unit {0}
Counters (c ∷ cs) = (c ≤ 3) × Counters cs

pub record IsValid (bp : BranchPredictor) : Type 0 where
  pub bht_positive : 0 < bp.bht_size
  pub bht_fits : bp.bht_size < 2 ^ 32
  pub btb_positive : 0 < bp.btb_size
  pub btb_fits : bp.btb_size < 2 ^ 32
  pub bimodal_length : length bp.bimodal ≡ bp.bht_size
  pub gshare_length : length bp.gshare ≡ bp.bht_size
  pub choice_length : length bp.choice ≡ bp.bht_size
  pub btb_length : length bp.btb ≡ bp.btb_size
  pub btb_valid_length : length bp.btb_valid ≡ bp.btb_size
  pub bimodal_counters : Counters bp.bimodal
  pub gshare_counters : Counters bp.gshare
  pub choice_counters : Counters bp.choice
  pub history_masked : bp.global_history ≤ bp.history_mask

-- No index leaves its table, whatever the sizes are.
module _ (pc : ℕ) {bp : BranchPredictor} (valid : IsValid bp) where
  pub bimodal_index-lt : bimodal_index pc bp < length bp.bimodal
  unfolding bimodal_index
  bimodal_index-lt = omega (arith, bit_and-le (shr pc 2) (sub32 bp.bht_size 1))

  pub gshare_index-lt : gshare_index pc bp < length bp.gshare
  unfolding gshare_index
  gshare_index-lt = omega (
    arith,
    bit_and-le
        (bit_xor (u32 (bit_and (shr pc 2) (sub32 bp.bht_size 1)))
          (bit_and bp.global_history bp.history_mask))
        (sub32 bp.bht_size 1),
  )

  pub choice_index-lt : choice_index pc bp < length bp.choice
  unfolding choice_index
  choice_index-lt = omega (arith, bit_and-le (shr pc 2) (sub32 bp.bht_size 1))

  pub btb_index-lt : btb_index pc bp < length bp.btb
  unfolding btb_index
  btb_index-lt = omega (arith, bit_and-le (shr pc 2) (sub32 bp.btb_size 1))

pub get_or-Counters : (cs : List ℕ) (i : ℕ) → Counters cs → get_or cs i 0 ≤ 3
get_or-Counters [] i h = omega arith
get_or-Counters (c ∷ cs) zero h = h.0
get_or-Counters (c ∷ cs) (suc i) h = get_or-Counters cs i h.1

set-Counters : (cs : List ℕ) (i v : ℕ) → Counters cs → v ≤ 3 → Counters (set cs i v)
set-Counters [] i v h p = h
set-Counters (c ∷ cs) zero v h p = (p, h.1)
set-Counters (c ∷ cs) (suc i) v h p = (h.0, set-Counters cs i v h.1 p)

replicate-Counters : (n v : ℕ) → v ≤ 3 → Counters (replicate n v)
replicate-Counters zero v p = tt
replicate-Counters (suc n) v p = (p, replicate-Counters n v p)

saturate-le : (up : Bool) (c : ℕ) → c ≤ 3 → saturate up c ≤ 3
unfolding saturate
saturate-le up c h = ground arith

trained :
    (cs : List ℕ) (i : ℕ) (up : Bool)
    → Counters cs
    → Counters (set cs i (saturate up (get_or cs i 0)))
trained cs i up h =
    set-Counters cs i (saturate up (get_or cs i 0)) h
      (saturate-le up (get_or cs i 0) (get_or-Counters cs i h))

pub predict-IsValid : (pc : ℕ) {bp : BranchPredictor} → IsValid bp → IsValid (predict pc bp).1
unfolding predict
predict-IsValid pc v = record {
  bht_positive = v.bht_positive;
  bht_fits = v.bht_fits;
  btb_positive = v.btb_positive;
  btb_fits = v.btb_fits;
  bimodal_length = v.bimodal_length;
  gshare_length = v.gshare_length;
  choice_length = v.choice_length;
  btb_length = v.btb_length;
  btb_valid_length = v.btb_valid_length;
  bimodal_counters = v.bimodal_counters;
  gshare_counters = v.gshare_counters;
  choice_counters = v.choice_counters;
  history_masked = v.history_masked;
}

-- A choice of two tables.
length-choice {ℓ} :
    {A : Type ℓ} (b : Bool) (xs ys : List A) {n : ℕ}
    → length xs ≡ n
    → length ys ≡ n
    → length (if b then xs else ys) ≡ n
length-choice true xs ys p q = p
length-choice false xs ys p q = q

choice-Counters :
    (b : Bool) (xs ys : List ℕ) → Counters xs → Counters ys → Counters (if b then xs else ys)
choice-Counters true xs ys p q = p
choice-Counters false xs ys p q = q

-- Training keeps a valid predictor valid: the three counter tables keep their size and hold 2-bit
-- counters, the target buffer and its valid bits keep their size, and the history stays within its
-- mask.
pub update-IsValid :
    (pc : ℕ) (taken : Bool) (target : ℕ) {bp : BranchPredictor}
    → IsValid bp
    → IsValid (update pc taken target bp)
unfolding update
update-IsValid pc taken target {bp} v = record {
  bht_positive = v.bht_positive;
  bht_fits = v.bht_fits;
  btb_positive = v.btb_positive;
  btb_fits = v.btb_fits;
  bimodal_length = length-set bp.bimodal _ _ ∙ v.bimodal_length;
  gshare_length = length-set bp.gshare _ _ ∙ v.gshare_length;
  choice_length = length-choice _ _ _ (length-set bp.choice _ _ ∙ v.choice_length) v.choice_length;
  btb_length = length-choice taken _ _ (length-set bp.btb _ _ ∙ v.btb_length) v.btb_length;
  btb_valid_length =
      length-choice taken _ _ (length-set bp.btb_valid _ _ ∙ v.btb_valid_length) v.btb_valid_length;
  bimodal_counters = trained bp.bimodal _ taken v.bimodal_counters;
  gshare_counters = trained bp.gshare _ taken v.gshare_counters;
  choice_counters =
      choice-Counters _ _ _ (trained bp.choice _ _ v.choice_counters) v.choice_counters;
  history_masked = bit_and-le _ bp.history_mask;
}

-- A reset of a valid predictor is valid.
pub reset-IsValid : {bp : BranchPredictor} → IsValid bp → IsValid (reset bp)
unfolding reset
reset-IsValid {bp} v = record {
  bht_positive = v.bht_positive;
  bht_fits = v.bht_fits;
  btb_positive = v.btb_positive;
  btb_fits = v.btb_fits;
  bimodal_length = length-replicate _ _ ∙ v.bimodal_length;
  gshare_length = length-replicate _ _ ∙ v.gshare_length;
  choice_length = length-replicate _ _ ∙ v.choice_length;
  btb_length = v.btb_length;
  btb_valid_length = length-replicate _ _ ∙ v.btb_valid_length;
  bimodal_counters = replicate-Counters _ 1 (omega arith);
  gshare_counters = replicate-Counters _ 1 (omega arith);
  choice_counters = replicate-Counters _ 2 (omega arith);
  history_masked = omega arith;
}

-- A new predictor is valid, for every configuration whose table sizes fit uint32; a size of 0 is
-- replaced.
pub new_branch_predictor-IsValid :
    (config : Config)
    → config.bht_size < 2 ^ 32
    → config.btb_size < 2 ^ 32
    → IsValid (new_branch_predictor config)
unfolding new_branch_predictor
new_branch_predictor-IsValid config p q = record {
  bht_positive = ground arith;
  bht_fits = ground arith;
  btb_positive = ground arith;
  btb_fits = ground arith;
  bimodal_length = length-replicate _ _;
  gshare_length = length-replicate _ _;
  choice_length = length-replicate _ _;
  btb_length = length-replicate _ _;
  btb_valid_length = length-replicate _ _;
  bimodal_counters = replicate-Counters _ 1 (omega arith);
  gshare_counters = replicate-Counters _ 1 (omega arith);
  choice_counters = replicate-Counters _ 2 (omega arith);
  history_masked = omega arith;
}
