-- ===== src/SplitDns.antt =====
-- The drift detector for the tailnet's split-DNS routes,
-- ansible/roles/tailscale_dns/files/tailscale_split_dns.py.
mod Tests
pub mod Names
pub mod Verdict
pub mod Status
pub mod Printed
