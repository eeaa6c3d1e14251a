-- ===== src/Timing.antt =====
-- timing: the cycle-level model. The branch predictor, the hazard unit and the write-back stage of the pipeline.
mod Tests
pub mod BranchPredictor
pub mod Registers
pub mod Hazard
pub mod Writeback
pub mod Stages
pub mod Cache
pub mod CacheStages
pub mod FastTiming
pub mod Superscalar
pub mod Latency
