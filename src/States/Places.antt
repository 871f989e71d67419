-- ===== src/States/Places.antt =====
-- Which values the state field of a process has at its places. Some functions leave the field
-- alone, so that it has the value of an earlier place.
use so_assignment2_air_bridg.Base.{ℕ, ◌≡◌, ◌⊎◌, true, false, Option, some}
use so_assignment2_air_bridg.Data
use so_assignment2_air_bridg.Pilot.{PilotPlace}
use so_assignment2_air_bridg.Hostess.{HostessPlace}
use so_assignment2_air_bridg.Passenger.{PassengerPlace}

-- The pilot keeps the state of having dropped the passengers until the next flight back.
unfoldable pub PilotState : PilotPlace → ℕ → Type 0
PilotState PilotPlace.connect v = v ≡ Data.flying_back
PilotState PilotPlace.test v = (v ≡ Data.flying_back) ⊎ (v ≡ Data.droping_passengers)
PilotState (PilotPlace.flight_enter false) v =
    (v ≡ Data.flying_back) ⊎ (v ≡ Data.droping_passengers)
PilotState (PilotPlace.flight_body false) v = (v ≡ Data.flying_back) ⊎ (v ≡ Data.droping_passengers)
PilotState (PilotPlace.flight_leave false) v = v ≡ Data.flying_back
PilotState PilotPlace.signal_enter v = v ≡ Data.flying_back
PilotState PilotPlace.signal_body v = v ≡ Data.flying_back
PilotState PilotPlace.signal_leave v = v ≡ Data.ready_for_boarding
PilotState PilotPlace.signal_post v = v ≡ Data.ready_for_boarding
PilotState PilotPlace.wait_enter v = v ≡ Data.ready_for_boarding
PilotState PilotPlace.wait_body v = v ≡ Data.ready_for_boarding
PilotState PilotPlace.wait_leave v = v ≡ Data.waiting_for_boarding
PilotState PilotPlace.wait_down v = v ≡ Data.waiting_for_boarding
PilotState (PilotPlace.flight_enter true) v = v ≡ Data.waiting_for_boarding
PilotState (PilotPlace.flight_body true) v = v ≡ Data.waiting_for_boarding
PilotState (PilotPlace.flight_leave true) v = v ≡ Data.flying
PilotState PilotPlace.drop_enter v = v ≡ Data.flying
PilotState PilotPlace.drop_stat v = v ≡ Data.flying
PilotState PilotPlace.exited v = (v ≡ Data.flying_back) ⊎ (v ≡ Data.droping_passengers)
PilotState PilotPlace.failed v = Unit
PilotState _ v = v ≡ Data.droping_passengers

unfoldable pub HostessState : HostessPlace → ℕ → Type 0
HostessState HostessPlace.connect v = v ≡ Data.wait_for_flight
HostessState HostessPlace.next_enter v = (v ≡ Data.wait_for_flight) ⊎ (v ≡ Data.ready_to_flight)
HostessState HostessPlace.next_body v = (v ≡ Data.wait_for_flight) ⊎ (v ≡ Data.ready_to_flight)
HostessState HostessPlace.next_leave v = v ≡ Data.wait_for_flight
HostessState HostessPlace.next_down v = v ≡ Data.wait_for_flight
HostessState HostessPlace.wait_enter v = (v ≡ Data.wait_for_flight) ⊎ (v ≡ Data.check_passport)
HostessState HostessPlace.wait_body v = (v ≡ Data.wait_for_flight) ⊎ (v ≡ Data.check_passport)
HostessState HostessPlace.wait_leave v = v ≡ Data.wait_for_passenger
HostessState HostessPlace.wait_down v = v ≡ Data.wait_for_passenger
HostessState HostessPlace.check_enter v = v ≡ Data.wait_for_passenger
HostessState HostessPlace.check_body v = v ≡ Data.wait_for_passenger
HostessState HostessPlace.ready_leave v = v ≡ Data.ready_to_flight
HostessState HostessPlace.ready_post v = v ≡ Data.ready_to_flight
HostessState HostessPlace.exited v = (v ≡ Data.wait_for_flight) ⊎ (v ≡ Data.ready_to_flight)
HostessState HostessPlace.failed v = Unit
HostessState _ v = v ≡ Data.check_passport

unfoldable pub PassengerState : PassengerPlace → Option ℕ → Type 0
PassengerState PassengerPlace.connect v = v ≡ some Data.going_to_airport
PassengerState PassengerPlace.queue_enter v = v ≡ some Data.going_to_airport
PassengerState PassengerPlace.queue_body v = v ≡ some Data.going_to_airport
PassengerState PassengerPlace.queue_leave v = v ≡ some Data.in_queue
PassengerState PassengerPlace.queue_post v = v ≡ some Data.in_queue
PassengerState PassengerPlace.queue_down v = v ≡ some Data.in_queue
PassengerState PassengerPlace.show_enter v = v ≡ some Data.in_queue
PassengerState PassengerPlace.show_body v = v ≡ some Data.in_queue
PassengerState PassengerPlace.show_leave v = v ≡ some Data.in_flight
PassengerState PassengerPlace.show_post v = v ≡ some Data.in_flight
PassengerState PassengerPlace.arrive_down v = v ≡ some Data.in_flight
PassengerState PassengerPlace.arrive_enter v = v ≡ some Data.in_flight
PassengerState PassengerPlace.arrive_body v = v ≡ some Data.in_flight
PassengerState PassengerPlace.failed v = Unit
PassengerState _ v = v ≡ some Data.at_destination
