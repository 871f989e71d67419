-- ===== src/Invariant/Places.antt =====
-- What the place of each process says about the counters and the semaphores.
mod Counting
mod Held
mod Bounds
unfoldable pub use Counting.*
unfoldable pub use Held.*
pub use Bounds.*
