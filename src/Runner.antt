-- ===== src/Runner.antt =====
-- The supervisor of the ephemeral CI runners, mac-worker/github-runner/supervisor/supervisor.py.
pub mod World
pub mod Docker
pub mod Github
pub mod Reap
pub mod Spawn
pub mod Tick
pub mod Start
pub mod Report
pub mod Settings
pub mod Files
pub mod Frame
mod Tests
