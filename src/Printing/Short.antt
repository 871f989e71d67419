-- ===== src/Printing/Short.antt =====
-- In a reachable state the numbers of the shared record fit the columns of the log.
use so_assignment2_air_bridg.Base.{ℕ, ◌≡◌, ◌<◌, some, get_elem?-lt, arith, total-own}
use so_assignment2_air_bridg.Data.{n_pass}
use so_assignment2_air_bridg.Pilot.{PilotPlace}
use so_assignment2_air_bridg.Hostess.{HostessPlace}
use so_assignment2_air_bridg.Passenger.{PassengerPlace}
use so_assignment2_air_bridg.System.{System}
use so_assignment2_air_bridg.Invariant.{SystemInv, PilotPlane, HostessPlane, is_broken}
use so_assignment2_air_bridg.States.Places.{PilotState, HostessState, PassengerState}
use so_assignment2_air_bridg.States.{StatesAgree}
use so_assignment2_air_bridg.Logging.RoundTrip.{IsShort}

pilot-lt : (p : PilotPlace) (v a b : ℕ) → PilotState p v → PilotPlane p a b → v < 100
unfolding PilotState PilotPlane
pilot-lt p v a b h i = ground arith

hostess-lt : (h : HostessPlace) (v a b : ℕ) → HostessState h v → HostessPlane h a b → v < 100
unfolding HostessState HostessPlane
hostess-lt p v a b h i = ground arith

passenger-lt : (a : PassengerPlace) (v : ℕ) → PassengerState a (some v) → is_broken a ≡ 0 → v < 1000
unfolding PassengerState is_broken
passenger-lt a v h e = ground arith

pub StatesAgree-IsShort : (s : System) → SystemInv s → StatesAgree s → IsShort s.shared.f_st
StatesAgree-IsShort s i a = record {
  size = a.size;
  pilot = pilot-lt s.pilot _ _ _ a.pilot i.pilot_plane;
  hostess = hostess-lt s.hostess _ _ _ a.hostess i.hostess_plane;
  passengers = λ j v e.
      let lt : j < n_pass =
        omega (arith, get_elem?-lt s.shared.f_st.st.passenger_stat j e, a.size) in
      let here : PassengerState (s.passenger j) (some v) = rw e at (a.passengers j lt) in
      passenger-lt (s.passenger j) v here
        (omega (arith, i.unbroken, total-own is_broken n_pass s.passenger j lt));
  queue = omega (arith, i.queued, i.ordered);
  aboard = omega (arith, i.aboard, i.queued, i.ordered);
  boarded = omega (arith, i.queued, i.ordered);
}
