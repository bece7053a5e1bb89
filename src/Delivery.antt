-- ===== src/Delivery.antt =====
-- What decides if, when and how a message is sent: internal/policy, internal/journey/quiethours.go and
-- internal/render/sms.go.
pub mod Policy
mod Eligible
pub mod QuietHours
mod NextOpen
pub mod Sms
mod Segments
mod Examples
