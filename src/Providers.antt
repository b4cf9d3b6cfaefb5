-- ===== src/Providers.antt =====
-- src/provider: the choice of a language model provider.
pub mod Router
mod Tests
