-- ===== src/Tests.antt =====
-- Runs of the model at concrete inputs, and the theorems applied to them.
mod Samples
mod StoreRuns
mod ViewRuns
mod RolloutRuns
mod ConfigRuns
mod PopulationRuns
mod StateRuns
mod SampleRuns
mod FastRuns
mod EnvelopeRuns
mod MultiRuns
