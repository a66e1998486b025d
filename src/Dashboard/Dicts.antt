-- ===== src/Dashboard/Dicts.antt =====
-- Python's dicts, in the order of insertion.
mod Base
mod Find
mod Keys
mod Counts
mod Every
unfoldable pub use Base.*
pub use Find.*
pub use Keys.*
pub use Counts.*
pub use Every.*
