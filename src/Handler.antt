-- ===== src/Handler.antt =====
-- batman-adv.c, `batman`: the handling of a received originator message, and the main loop around it.
mod Defs
mod Cycle
unfoldable pub use Defs.*
unfoldable pub use Cycle.*
