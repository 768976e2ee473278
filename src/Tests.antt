-- ===== src/Tests.antt =====
-- The theorems at work on small inputs.
mod World
mod Witnesses
mod Settings
mod Initialisation
mod Oracle
mod Arithmetic
mod Reachability
mod Deployments
mod Tasks
