-- ===== src/Tests.antt =====
-- Concrete runs of the model, and the theorems applied to them.
mod Remote
mod Wire
mod Socks
mod Client
mod Config
mod Server
mod Admin
mod Tls
mod Start
mod Session
mod Relay
mod Proxy
