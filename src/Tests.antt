-- ===== src/Tests.antt =====
-- Runs on small inputs: each states what a theorem says of concrete data.
mod Brief
mod Conditions
mod Store
mod Runner
mod Freshness
mod Derivation
mod Work
mod Triage
mod Gaps
mod Publication
mod Pages
mod Operators
