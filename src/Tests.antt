-- ===== src/Tests.antt =====
-- The theorems at concrete inputs.
mod Fixtures
mod Engine
mod Db
mod App
mod Program
mod Stats
mod Resolver
mod Logger
mod Server
mod Tasks
