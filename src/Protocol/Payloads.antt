-- ===== src/Protocol/Payloads.antt =====
-- pkg/protocol/msg_*.go and netaddr.go: what the messages carry.
pub mod Inventory
pub mod Version
pub mod Chain
pub mod Delivery
