-- ===== src/Tests.antt =====
-- Runs of the models on concrete inputs.
mod Toy
mod Ends
mod Compact
mod Envelope
mod Auth
mod Header
mod Config
mod Adapter
mod Client
mod Delivery
mod Fuzz
mod Time
