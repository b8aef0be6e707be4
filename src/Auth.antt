-- ===== src/Auth.antt =====
-- src/auth: who a request comes from, and how often it may come.
pub mod Ip
pub mod RateLimit
pub mod CrossWallet
pub mod ClientIp
pub mod ApiKey
pub mod Redact
mod Tests
