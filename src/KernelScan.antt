-- ===== src/KernelScan.antt =====
-- The classifier of kernel-log lines, ansible/roles/node_exporter/files/kernel_io_scan.py.
mod Tests
pub mod Pattern
pub mod Classes
pub mod Scan
pub mod Prom
pub mod Parse
pub mod Carry
pub mod Main
