-- ===== src/Link.antt =====
-- batman-adv.c, `count_real_packets` and `isBidirectionalNeigh`, behind their laws: duplicates, and
-- the quality of the link to a neighbour.
mod Defs
mod Bounds
unfoldable pub use Defs.*
pub use Bounds.*
