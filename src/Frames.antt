-- ===== src/Frames.antt =====
-- posix-specific.c: what comes in on the interfaces, on the tap device and from a local client.
mod Layout
mod Receive
mod Tap
mod Select
unfoldable pub use Layout.*
unfoldable pub use Receive.*
unfoldable pub use Tap.*
unfoldable pub use Select.*
