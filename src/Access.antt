-- ===== src/Access.antt =====
-- Who may act through the REST API: the guards that every mutating endpoint stands behind.
pub mod Tools
pub mod Hosts
pub mod Request
mod Examples
