-- ===== src/Devices.antt =====
-- The devices of the program: linux.c, and what posix-specific.c does with them at its start and end.
mod Defs
mod Laws
mod Start
mod Awaited
mod Select
unfoldable pub use Defs.*
unfoldable pub use Laws.*
unfoldable pub use Start.*
unfoldable pub use Awaited.*
unfoldable pub use Select.*
