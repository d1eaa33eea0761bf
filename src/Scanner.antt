-- ===== src/Scanner.antt =====
-- pkg/scanner: requests, what a block holds for them, and the worker.
pub mod Requests
pub mod Blocks
pub mod Worker
pub mod Manager
pub mod Descriptor
pub mod Esplora
