-- ===== src/Timing/BranchPredictor.antt =====
-- timing/pipeline/branch_predictor.go: a tournament of a bimodal and a gshare predictor, with a
-- branch target buffer. A method that changes the predictor returns it changed.
pub mod Training
pub mod Targets
use m1sim.Base.{
  ℕ, Bool, true, false, not, ◌&&◌, ◌==◌, leb, ltb, same, if◌then◌else◌, List, length, get_or, set,
  replicate, ◌+◌, ◌-◌, u32, add64, shl32, sub32, shr, bit_and, bit_or, bit_xor,
}

pub record Config : Type 0 where
  pub bht_size : ℕ
  pub btb_size : ℕ
  pub global_history_length : ℕ
  pub use_tournament : Bool

abbrev pub default_config : Config
default_config = record {
  bht_size = 4096;
  btb_size = 2048;
  global_history_length = 12;
  use_tournament = true;
}

pub record Stats : Type 0 where
  pub predictions : ℕ
  pub correct : ℕ
  pub mispredictions : ℕ
  pub btb_hits : ℕ
  pub btb_misses : ℕ
  pub bimodal_correct : ℕ
  pub gshare_correct : ℕ
  pub tournament_chose_bimodal : ℕ
  pub tournament_chose_gshare : ℕ

abbrev pub no_stats : Stats
no_stats = record {
  predictions = 0;
  correct = 0;
  mispredictions = 0;
  btb_hits = 0;
  btb_misses = 0;
  bimodal_correct = 0;
  gshare_correct = 0;
  tournament_chose_bimodal = 0;
  tournament_chose_gshare = 0;
}

pub record Prediction : Type 0 where
  pub taken : Bool
  pub target : ℕ
  pub target_known : Bool
  pub confidence : ℕ

pub record BtbEntry : Type 0 where
  pub pc : ℕ
  pub target : ℕ

abbrev pub no_entry : BtbEntry
no_entry = record { pc = 0; target = 0 }

pub record BranchPredictor : Type 0 where
  pub bimodal : List ℕ
  pub gshare : List ℕ
  pub choice : List ℕ
  pub global_history : ℕ
  pub history_mask : ℕ
  pub btb : List BtbEntry
  pub btb_valid : List Bool
  pub bht_size : ℕ
  pub btb_size : ℕ
  pub use_tournament : Bool
  pub stats : Stats

-- A size of 0 asks for the default.
abbrev pub or_default : ℕ → ℕ → ℕ
or_default size default = if size == 0 then default else size

unfoldable pub new_branch_predictor : Config → BranchPredictor
new_branch_predictor config =
    let bht_size = or_default config.bht_size 4096 in
    let btb_size = or_default config.btb_size 512 in
    let history_len = or_default config.global_history_length 12 in
    record {
      bimodal = replicate bht_size 1;
      gshare = replicate bht_size 1;
      choice = replicate bht_size 2;
      global_history = 0;
      history_mask = sub32 (shl32 1 history_len) 1;
      btb = replicate btb_size no_entry;
      btb_valid = replicate btb_size false;
      bht_size = bht_size;
      btb_size = btb_size;
      use_tournament = config.use_tournament;
      stats = no_stats;
    }

unfoldable pub bimodal_index : ℕ → BranchPredictor → ℕ
bimodal_index pc bp = u32 (bit_and (shr pc 2) (sub32 bp.bht_size 1))

unfoldable pub gshare_index : ℕ → BranchPredictor → ℕ
gshare_index pc bp =
    let pc_bits = u32 (bit_and (shr pc 2) (sub32 bp.bht_size 1)) in
    let history = bit_and bp.global_history bp.history_mask in
    bit_and (bit_xor pc_bits history) (sub32 bp.bht_size 1)

unfoldable pub choice_index : ℕ → BranchPredictor → ℕ
unfolding bimodal_index
choice_index pc bp = bimodal_index pc bp

unfoldable pub btb_index : ℕ → BranchPredictor → ℕ
btb_index pc bp = u32 (bit_and (shr pc 2) (sub32 bp.btb_size 1))

unfoldable pub predict : ℕ → BranchPredictor → Prediction × BranchPredictor
predict pc bp =
    let s = bp.stats in
    let bimodal_counter = get_or bp.bimodal (bimodal_index pc bp) 0 in
    let bimodal_taken = leb 2 bimodal_counter in
    let gshare_counter = get_or bp.gshare (gshare_index pc bp) 0 in
    let gshare_taken = leb 2 gshare_counter in
    let use_gshare = leb 2 (get_or bp.choice (choice_index pc bp) 0) in
    let chose_gshare = bp.use_tournament && use_gshare in
    let chose_bimodal = bp.use_tournament && not use_gshare in
    let entry = get_or bp.btb (btb_index pc bp) no_entry in
    let hit = get_or bp.btb_valid (btb_index pc bp) false && entry.pc == pc in
    (
      record {
        taken = if chose_gshare then gshare_taken else bimodal_taken;
        target = if hit then entry.target else 0;
        target_known = hit;
        confidence = if chose_gshare then gshare_counter else bimodal_counter;
      },
      record bp {
        stats = record s {
          tournament_chose_gshare =
              if chose_gshare then add64 s.tournament_chose_gshare 1 else s.tournament_chose_gshare;
          tournament_chose_bimodal =
              if chose_bimodal
              then add64 s.tournament_chose_bimodal 1
              else s.tournament_chose_bimodal;
          btb_hits = if hit then add64 s.btb_hits 1 else s.btb_hits;
          btb_misses = if hit then s.btb_misses else add64 s.btb_misses 1;
          predictions = add64 s.predictions 1;
        };
      },
    )

-- `if up { if c < 3 { c++ } } else { if c > 0 { c-- } }`
unfoldable pub saturate : Bool → ℕ → ℕ
saturate up c = if up then (if ltb c 3 then c + 1 else c) else if ltb 0 c then c - 1 else c

unfoldable pub bool_to_uint32 : Bool → ℕ
bool_to_uint32 b = if b then 1 else 0

unfoldable pub update : ℕ → Bool → ℕ → BranchPredictor → BranchPredictor
update pc taken target bp =
    let s = bp.stats in
    let bimodal_idx = bimodal_index pc bp in
    let gshare_idx = gshare_index pc bp in
    let choice_idx = choice_index pc bp in
    let btb_idx = btb_index pc bp in
    let bimodal_counter = get_or bp.bimodal bimodal_idx 0 in
    let bimodal_predicted = leb 2 bimodal_counter in
    let bimodal_correct = same bimodal_predicted taken in
    let gshare_counter = get_or bp.gshare gshare_idx 0 in
    let gshare_predicted = leb 2 gshare_counter in
    let gshare_correct = same gshare_predicted taken in
    let choice_counter = get_or bp.choice choice_idx 0 in
    let use_gshare = leb 2 choice_counter in
    let final_prediction =
      if bp.use_tournament && use_gshare then gshare_predicted else bimodal_predicted in
    let final_correct = same final_prediction taken in
    record bp {
      stats = record s {
        bimodal_correct = if bimodal_correct then add64 s.bimodal_correct 1 else s.bimodal_correct;
        gshare_correct = if gshare_correct then add64 s.gshare_correct 1 else s.gshare_correct;
        correct = if final_correct then add64 s.correct 1 else s.correct;
        mispredictions = if final_correct then s.mispredictions else add64 s.mispredictions 1;
      };
      bimodal = set bp.bimodal bimodal_idx (saturate taken bimodal_counter);
      gshare = set bp.gshare gshare_idx (saturate taken gshare_counter);
      choice =
          if bp.use_tournament && not (same bimodal_correct gshare_correct)
          then set bp.choice choice_idx (saturate gshare_correct choice_counter)
          else bp.choice;
      global_history =
          bit_and (bit_or (shl32 bp.global_history 1) (bool_to_uint32 taken)) bp.history_mask;
      btb = if taken then set bp.btb btb_idx (record { pc = pc; target = target }) else bp.btb;
      btb_valid = if taken then set bp.btb_valid btb_idx true else bp.btb_valid;
    }

-- `for i := range table { table[i] = v }`
abbrev pub refill {ℓ} : {A : Type ℓ} → List A → A → List A
refill xs v = replicate (length xs) v

unfoldable pub reset : BranchPredictor → BranchPredictor
reset bp = record bp {
  bimodal = refill bp.bimodal 1;
  gshare = refill bp.gshare 1;
  choice = refill bp.choice 2;
  global_history = 0;
  btb_valid = refill bp.btb_valid false;
  stats = no_stats;
}
