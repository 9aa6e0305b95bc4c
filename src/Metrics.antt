-- ===== src/Metrics.antt =====
-- orchestrator/metrics.py: the scrape, which reconciles every release within a budget and emits
-- what it learned as gauges.
pub mod Snapshot
pub mod Waves
pub mod Tally
pub mod Futures
pub mod Scrape
pub mod Calls
