-- ===== src/Tests.antt =====
-- Runs of the models at concrete inputs, and the theorems applied to such inputs.
pub mod HashSet
pub mod Receiving
pub mod ReceivingHeader
pub mod Pools
pub mod Digests
pub mod Text
pub mod Headers
pub mod Urls
pub mod Dns
pub mod Rounds
pub mod Configs
pub mod Resolver
pub mod Pointers
pub mod Threads
pub mod Extracting
pub mod Logging
pub mod Starting
pub mod Paths
pub mod Uris
pub mod Events
