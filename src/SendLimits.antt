-- ===== src/SendLimits.antt =====
-- Send budgets: whatsapp-bridge/send_limits.go. `State` reads the stored counters, `Reserve` and
-- `Release` are the two transactions, `Allow` is what an endpoint asks before it sends.
pub mod State
pub mod Reserve
pub mod Release
pub mod Allow
mod Examples
