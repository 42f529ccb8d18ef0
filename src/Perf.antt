-- ===== src/Perf.antt =====
-- services/perf-tracker/app: the metrics taken from a trace (aggregator.py).
pub mod Metrics
mod Examples
