-- ===== src/RunnerMetrics.antt =====
-- The metrics of the runner supervisor on the Pi,
-- ansible/roles/github_runner_metrics/files/gh_runner_metrics.py.
pub mod Inputs
pub mod Series
pub mod Render
pub mod Numbers
pub mod Totality
pub mod Overflow
pub mod Expected
pub mod Published
pub mod Shared
pub mod Main
mod Tests
