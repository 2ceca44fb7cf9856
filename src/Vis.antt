-- ===== src/Vis.antt =====
-- The packets for the visualisation server: vis-types.h and their making in batman-adv.c.
mod Defs
mod Write
mod Layout
mod Loops
mod Packet
unfoldable pub use Defs.*
unfoldable pub use Layout.*
pub use Write.*
pub use Loops.*
unfoldable pub use Packet.*
