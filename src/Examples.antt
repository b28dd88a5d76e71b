-- ===== src/Examples.antt =====
-- The theorems at concrete inputs: a cluster of three nodes, their logs, a store, a client of the cluster, and the web API.
mod Fixtures
mod Logs
mod Nodes
mod Stores
mod Clusters
mod Clients
mod Handlers
mod Accounts
mod Creations
mod Removals
mod Elections
