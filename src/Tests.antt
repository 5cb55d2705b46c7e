-- ===== src/Tests.antt =====
-- Tests of the models, and the theorems at concrete inputs.
mod Samples
mod Engines
mod Composed
mod Caching
mod Routing
mod Access
mod Retries
mod Queues
mod Nodes
mod Isolation
mod Limits
mod Shards
mod History
mod Versions
mod Pools
