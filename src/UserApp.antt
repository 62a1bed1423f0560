-- ===== src/UserApp.antt =====
-- The user application, ui/nats-kv-user/src/lib.rs: its access gate, its pages, and its proxies to
-- the adapter, to the control plane and to the platform's own store.
pub mod Config
pub mod Envelope
pub mod Proxy
pub mod Handler
pub mod Json
pub mod Outbound
