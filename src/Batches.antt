-- ===== src/Batches.antt =====
-- `CreateInBatches` and `FindInBatches` of finisher_api.go.
pub mod Find
pub mod Create
mod Tests
