-- ===== src/Connection.antt =====
-- Account problems that WhatsApp reports, and the gate before every dial:
-- whatsapp-bridge/connection_problem.go. `Problem` holds the value and its classification, `State`
-- the bridge's fields and the operations on them, `Startup` the reading of the saved file.
pub mod Problem
pub mod State
pub mod Startup
mod Examples
