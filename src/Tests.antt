-- ===== src/Tests.antt =====
-- The theorems at concrete inputs, with the parameters filled by concrete functions.
pub mod Parameters
pub mod Cryptography
pub mod Channels
pub mod Listening
pub mod Nodes
pub mod Orchestration
pub mod Prompt
pub mod Sharing
pub mod Storage
pub mod Wire
pub mod Together
pub mod Watching
