-- ===== src/Runs.antt =====
-- The theorems at concrete inputs, by component.
mod Wire
mod Stores
mod Scans
mod Nodes
mod Postgres
mod Messages
mod Services
mod Watches
mod Histories
mod Lifetimes
mod Clients
mod Daemons
mod Connections
