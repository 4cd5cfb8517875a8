-- ===== src/Webhook.antt =====
-- The webhook receiver that is configured at run time: whatsapp-bridge/webhook_runtime.go.
pub mod Outbox
pub mod Retry
pub mod Address
pub mod Config
mod Examples
