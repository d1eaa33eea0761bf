-- ===== src/Client.antt =====
-- cmd/neutrino: the command line client, its state file and its subscription.
pub mod Config
pub mod Subscription
