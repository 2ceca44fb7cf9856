-- ===== src/BitArray.antt =====
-- bitarray.c, behind its laws: the functions, and what the children prove of them.
mod Defs
mod Count
mod Shift
mod Mark
mod Status
mod Packet
mod Seen
unfoldable pub use Defs.*
pub use Count.*
pub use Shift.*
pub use Mark.*
pub use Status.*
pub use Packet.*
pub use Seen.*
