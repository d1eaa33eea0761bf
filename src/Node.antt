-- ===== src/Node.antt =====
-- pkg/node: what the node does with the messages of its peers, with its peers and with its mempool.
pub mod Sync
pub mod Serving
pub mod Peers
pub mod Mempool
pub mod Messages
pub mod Service
pub mod Lifetime
