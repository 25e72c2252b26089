-- ===== src/Client.antt =====
-- client/: the daemon that holds shares.
pub mod Node
pub mod World
pub mod Registration
pub mod Reconstruct
pub mod Split
pub mod Backup
pub mod SelfHeal
pub mod Mutation
pub mod Listen
pub mod ColdChains
pub mod Detection
pub mod Startup
pub mod Immune
pub mod Watchdog
pub mod PeerServer
pub mod Cluster
