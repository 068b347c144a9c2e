-- ===== src/Providers.antt =====
-- The authentication providers of internal/proxy: the local one with its rate limiter, and what a
-- successful login leaves behind.
pub mod Limiter
pub mod Local
pub mod Flow
pub mod Oidc
pub mod OpenShift
