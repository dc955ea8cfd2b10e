-- ===== src/NfsClient.antt =====
-- The metrics of the Mac's NFS mounts on the Pi,
-- ansible/roles/nfs_server/files/nfs_client_metrics.py.
pub mod Validity
pub mod Render
pub mod Samples
pub mod Accepts
pub mod Main
pub mod Shared
mod Tests
