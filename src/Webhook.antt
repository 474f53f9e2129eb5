-- ===== src/Webhook.antt =====
-- internal/webhook: merchant callbacks through a transactional outbox, and internal payments.
pub mod Types
pub mod Merchants
pub mod Outbox
pub mod Payment
pub mod Engine
mod Tests
