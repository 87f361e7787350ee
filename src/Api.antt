-- ===== src/Api.antt =====
-- apps/api: the application around the services.
pub mod Auth
pub mod Providers
mod Tests
