-- ===== src/Timing/BranchPredictor/Targets.antt =====
-- What a prediction says after updates: the target buffer, the bimodal counters, the statistics.
use m1sim.Base.{
  ℕ, Bool, true, false, ◌≤◌, ◌<◌, ◌≡◌, ◌≢◌, ◌∙◌, ap, refl, arith, length, get_or, set, same, leb,
  add64, get_or-set_self, get_or-set_ne, if◌then◌else◌, eq→==,
}
use m1sim.Timing.BranchPredictor.{
  BranchPredictor, BtbEntry, no_entry, bimodal_index, btb_index, predict, update, saturate,
}
use m1sim.Timing.BranchPredictor.Training.{
  IsValid, bimodal_index-lt, btb_index-lt, get_or-Counters, update-IsValid,
}

-- The tables keep their sizes, so the indices do not move.
bimodal_index-update :
    (pc pc' : ℕ) (taken : Bool) (target : ℕ) (bp : BranchPredictor)
    → bimodal_index pc (update pc' taken target bp) ≡ bimodal_index pc bp
unfolding bimodal_index update
bimodal_index-update pc pc' taken target bp = refl

btb_index-update :
    (pc pc' : ℕ) (taken : Bool) (target : ℕ) (bp : BranchPredictor)
    → btb_index pc (update pc' taken target bp) ≡ btb_index pc bp
unfolding btb_index update
btb_index-update pc pc' taken target bp = refl

valid_index-lt :
    (pc : ℕ) {bp : BranchPredictor} → IsValid bp → btb_index pc bp < length bp.btb_valid
valid_index-lt pc v = omega (arith, btb_index-lt pc v)

-- In a valid predictor, after an update of a branch as taken the prediction for it knows the target
-- and gives the one of the update.
pub predict-update_target :
    (pc target : ℕ) {bp : BranchPredictor}
    → IsValid bp
    → let prediction = (predict pc (update pc true target bp)).0 in
      (prediction.target_known ≡ true) × (prediction.target ≡ target)
unfolding predict
predict-update_target pc target {bp} v =
    let i = btb_index pc bp in
    let stored : BtbEntry = record { pc = pc; target = target } in
    let entry : get_or (set bp.btb i stored) i no_entry ≡ stored =
      get_or-set_self bp.btb i stored no_entry (btb_index-lt pc v) in
    let valid : get_or (set bp.btb_valid i true) i false ≡ true =
      get_or-set_self bp.btb_valid i true false (valid_index-lt pc v) in
    unfold update btb_index in rw (entry, valid, eq→== pc pc refl) (refl, refl)

-- An update of a branch as not taken changes the predicted target of no branch, nor whether it is
-- known.
pub predict-update_not_taken :
    (pc pc' target : ℕ) (bp : BranchPredictor)
    → let before = (predict pc bp).0 in
      let after = (predict pc (update pc' false target bp)).0 in
      (after.target_known ≡ before.target_known) × (after.target ≡ before.target)
unfolding predict update btb_index
predict-update_not_taken pc pc' target bp = (refl, refl)

-- The bimodal counter that a branch is predicted by.
abbrev pub bimodal_counter : ℕ → BranchPredictor → ℕ
bimodal_counter pc bp = get_or bp.bimodal (bimodal_index pc bp) 0

bimodal_counter-update :
    (pc : ℕ) (taken : Bool) (target : ℕ) {bp : BranchPredictor}
    → IsValid bp
    → bimodal_counter pc (update pc taken target bp) ≡ saturate taken (bimodal_counter pc bp)
unfolding update bimodal_index
bimodal_counter-update pc taken target {bp} v =
    get_or-set_self bp.bimodal _ _ 0 (bimodal_index-lt pc v)

-- An update of a branch leaves the bimodal counter of a branch with another index.
pub bimodal_counter-update_ne :
    (pc pc' : ℕ) (taken : Bool) (target : ℕ) (bp : BranchPredictor)
    → bimodal_index pc' bp ≢ bimodal_index pc bp
    → bimodal_counter pc (update pc' taken target bp) ≡ bimodal_counter pc bp
bimodal_counter-update_ne pc pc' taken target bp h =
    unfold update bimodal_index in get_or-set_ne bp.bimodal _ _ _ 0 h

-- With the tournament off the bimodal counter decides.
predict_legacy :
    (pc : ℕ) (bp : BranchPredictor)
    → bp.use_tournament ≡ false
    → (predict pc bp).0.taken ≡ leb 2 (bimodal_counter pc bp)
unfolding predict
predict_legacy pc bp legacy = rw legacy

saturate_twice : (up : Bool) (c : ℕ) → c ≤ 3 → leb 2 (saturate up (saturate up c)) ≡ up
unfolding saturate
saturate_twice up c h = ground arith

-- In a valid predictor without the tournament, two updates of a branch with the same outcome make
-- the next prediction for it that outcome, whatever its counter was.
pub predict-update_twice :
    (pc t t' : ℕ) (taken : Bool) {bp : BranchPredictor}
    → IsValid bp
    → bp.use_tournament ≡ false
    → (predict pc (update pc taken t' (update pc taken t bp))).0.taken ≡ taken
predict-update_twice pc t t' taken {bp} v legacy =
    let once = update pc taken t bp in
    predict_legacy pc (update pc taken t' once) (unfold update in legacy)
    ∙ ap (leb 2) (
        bimodal_counter-update pc taken t' (update-IsValid pc taken t v)
        ∙ ap (saturate taken) (bimodal_counter-update pc taken t v))
    ∙ saturate_twice taken (bimodal_counter pc bp)
        (get_or-Counters bp.bimodal (bimodal_index pc bp) v.bimodal_counters)

-- An update counts exactly one of a correct prediction and a misprediction, by whether `predict` in
-- that state agrees with the outcome.
pub update_statistics :
    (pc : ℕ) (taken : Bool) (target : ℕ) (bp : BranchPredictor)
    → let right = same (predict pc bp).0.taken taken in
      let stats = (update pc taken target bp).stats in
      (stats.correct ≡ (if right then add64 bp.stats.correct 1 else bp.stats.correct))
      × (stats.mispredictions
          ≡ (if right then bp.stats.mispredictions else add64 bp.stats.mispredictions 1))
unfolding predict update
update_statistics pc taken target bp = (refl, refl)
