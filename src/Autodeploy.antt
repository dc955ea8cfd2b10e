-- ===== src/Autodeploy.antt =====
-- The decisions of the deploy controller, ansible/roles/homelab_autodeploy/files/homelab_autodeploy.py,
-- and the cycle in which its shell script takes them.
mod Tests
pub mod State
pub mod Plan
pub mod Rollback
pub mod Controller
pub mod Metrics
pub mod Main
pub mod Shell
