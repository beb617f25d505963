-- ===== src/Examples.antt =====
-- Runs of the model at concrete inputs, and the theorems applied there.
mod Rationals
mod Geometry
mod Desk
mod Router
mod Wire
mod Hub
mod Keys
mod Landing
mod Files
mod Clip
mod Retry
