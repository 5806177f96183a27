-- ===== src/Stats/Examples.antt =====
-- The weekly projections at concrete inputs.
mod Samples
mod Repository
mod Service
mod Cycle
