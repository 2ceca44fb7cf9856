-- ===== src/Mesh.antt =====
-- The shared state of batmand-adv: the structures of batman-adv.h and packet.h, and the globals of
-- batman-adv.c that its components read and write.
mod Types
mod State
pub use Types.*
unfoldable pub use State.*
