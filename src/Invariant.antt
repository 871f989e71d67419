-- ===== src/Invariant.antt =====
-- The invariant of the simulation, and that it holds in every reachable state.
mod Places
mod Defs
mod Turns
mod Pilots
mod Hostesses
mod Passengers
mod Mains
mod Steps
unfoldable pub use Places.*
pub use Defs.*
pub use Turns.*
pub use Hostesses.{Boarded, board_passenger-Boarded}
pub use Passengers.{Moved, landing-drop_down}
pub use Steps.{
  reached-le, reached_mono, move_counts, counts-IsOrdered, IsLow, Inv-IsLow, ideal-Step-Inv,
  Step-ideal, Step-of_ideal, Step-Inv, Reach-Inv,
}
