-- ===== src/Clients.antt =====
-- The clients of the local socket: `unix_listen` of posix-specific.c.
mod Defs
mod Thread
mod Cycle
mod Debug
mod Slots
mod Levels
mod Change
mod Valid
mod Switch
mod Messages
mod Close
mod Listing
mod Walk
mod Accept
mod Rounds
mod Reach
mod Ending
mod Request
mod Output
unfoldable pub use Defs.*
unfoldable pub use Thread.*
unfoldable pub use Debug.*
unfoldable pub use Slots.*
unfoldable pub use Levels.*
unfoldable pub use Change.*
unfoldable pub use Valid.*
unfoldable pub use Switch.*
unfoldable pub use Messages.*
unfoldable pub use Close.*
unfoldable pub use Listing.*
unfoldable pub use Walk.*
unfoldable pub use Accept.*
unfoldable pub use Rounds.*
unfoldable pub use Reach.*
unfoldable pub use Ending.*
unfoldable pub use Request.*
unfoldable pub use Output.*
