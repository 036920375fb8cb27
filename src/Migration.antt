-- ===== src/Migration.antt =====
-- internal/migration: the provider's side of a sealed migration run.
pub mod Status
pub mod Seal
pub mod Runtime
pub mod Client
pub mod Engine
pub mod Interpreter
pub mod Redact
mod Tests
