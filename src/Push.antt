-- ===== src/Push.antt =====
-- src/push.rs: the push-mode server. The IP lists, the rate limiter and the webhook handlers.
pub mod Access
pub mod RateLimit
pub mod Webhook
pub mod Server
