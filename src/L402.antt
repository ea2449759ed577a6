-- ===== src/L402.antt =====
-- Package l402: tokens, their caveats, and how they travel.
pub mod Macaroon
pub mod Caveat
pub mod Service
pub mod Satisfier
pub mod Identifier
pub mod Lntypes
pub mod Header
pub mod Token
pub mod FileStore
pub mod Interceptor
pub mod ServerInterceptor
