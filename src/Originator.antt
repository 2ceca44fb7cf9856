-- ===== src/Originator.antt =====
-- originator.c, behind its laws: the originators and their neighbours, which router is best, and
-- which are too old.
mod Nodes
mod Lookup
mod Update
mod Order
mod Best
mod Report
unfoldable pub use Nodes.*
unfoldable pub use Update.*
unfoldable pub use Report.*
unfoldable pub use Order.*
pub use Lookup.*
pub use Best.*
