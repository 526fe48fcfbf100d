-- ===== src/Simulation.antt =====
-- src/l2_pipeline/simulation: a market with a ground truth, faults between it and the engine, and the
-- driver that recovers from them. The draws of the generators are arguments.
pub mod Market
pub mod Faults
pub mod Driver
mod Tests
