-- ===== src/Tests.antt =====
-- A small cluster in memory, and the theorems of the library at concrete inputs.
mod World
mod Client
mod Cluster
mod Pods
mod Workflows
mod Rounds
mod Attached
mod Ends
mod Once
mod Order
mod Costs
mod Manager
mod Vouching
mod Lives
mod Library
mod Signing
mod Bills
