-- ===== src/Schedule.antt =====
-- schedule.c, and `send_packet` of posix-specific.c: the queue of packets to be sent.
mod Send
mod Defs
mod Order
mod Forward
mod Drain
mod Retry
unfoldable pub use Send.*
unfoldable pub use Defs.*
pub use Order.*
pub use Retry.*
pub use Forward.*
unfoldable pub use Drain.*
