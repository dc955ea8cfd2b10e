-- ===== src/NfsMount.antt =====
-- The supervisor of the Mac's NFS mounts, mac-worker/nfs_mount.py.
mod Tests
pub mod Decide
pub mod Listing
pub mod World
pub mod Children
pub mod Recovery
pub mod Probe
pub mod Supervise
pub mod Report
pub mod Publish
pub mod Main
