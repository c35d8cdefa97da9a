-- ===== src/Server.antt =====
-- src/server: `DnsHandler`, which answers a query from the local records, the blocklists, the cache
-- or the upstreams.
pub mod Interfaces
pub mod Upstreams
pub mod Wire
pub mod Untouched
pub mod Paused
pub mod Accounts
pub mod Action
pub mod Cache
pub mod Caching
pub mod Expiry
pub mod Overflow
pub mod Query
pub mod Handler
pub mod Tasks
pub mod Lifetime
pub mod Replies
pub mod Blocking
pub mod Filter
