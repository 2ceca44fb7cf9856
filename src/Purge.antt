-- ===== src/Purge.antt =====
-- originator.c, `purge_orig`: originators, neighbours and gateways that time out.
mod Defs
mod Select
mod Dangling
unfoldable pub use Defs.*
pub use Select.*
pub use Dangling.*
