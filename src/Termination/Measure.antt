-- ===== src/Termination/Measure.antt =====
-- The measure. A passenger counts the steps left to take. The hostess counts hers up to the end of
-- the present round, and a round for every passenger whom she has not checked. The pilot counts
-- those of the present flight, and a flight for every passenger who is not on it and has not
-- landed.
use so_assignment2_air_bridg.Base.{ℕ, ◌+◌, ◌-◌, ◌*◌, true, false}
use so_assignment2_air_bridg.Data.{n_pass}
use so_assignment2_air_bridg.Pilot.{PilotPlace}
use so_assignment2_air_bridg.Hostess.{HostessPlace}
use so_assignment2_air_bridg.Passenger.{PassengerPlace}
use so_assignment2_air_bridg.Main.{MainPlace}

unfoldable pub passenger_left : PassengerPlace → ℕ
passenger_left PassengerPlace.connect = 15
passenger_left PassengerPlace.queue_enter = 14
passenger_left PassengerPlace.queue_body = 13
passenger_left PassengerPlace.queue_leave = 12
passenger_left PassengerPlace.queue_post = 11
passenger_left PassengerPlace.queue_down = 10
passenger_left PassengerPlace.show_enter = 9
passenger_left PassengerPlace.show_body = 8
passenger_left PassengerPlace.show_leave = 7
passenger_left PassengerPlace.show_post = 6
passenger_left PassengerPlace.arrive_down = 5
passenger_left PassengerPlace.arrive_enter = 4
passenger_left PassengerPlace.arrive_body = 3
passenger_left PassengerPlace.arrive_post = 2
passenger_left PassengerPlace.arrive_leave = 1
passenger_left PassengerPlace.exited = 0
passenger_left PassengerPlace.failed = 0

unfoldable pub hostess_place_left : HostessPlace → ℕ
hostess_place_left HostessPlace.connect = 30
hostess_place_left HostessPlace.ready_enter = 20
hostess_place_left HostessPlace.ready_body = 19
hostess_place_left HostessPlace.ready_leave = 18
hostess_place_left HostessPlace.ready_post = 17
hostess_place_left HostessPlace.next_enter = 16
hostess_place_left HostessPlace.next_body = 15
hostess_place_left HostessPlace.next_leave = 14
hostess_place_left HostessPlace.next_down = 13
hostess_place_left HostessPlace.wait_enter = 12
hostess_place_left HostessPlace.wait_body = 11
hostess_place_left HostessPlace.wait_leave = 10
hostess_place_left HostessPlace.wait_down = 9
hostess_place_left HostessPlace.check_enter = 8
hostess_place_left HostessPlace.check_body = 7
hostess_place_left HostessPlace.check_leave = 6
hostess_place_left HostessPlace.check_call = 5
hostess_place_left HostessPlace.check_id = 4
hostess_place_left HostessPlace.board_enter = 3
hostess_place_left HostessPlace.board_body = 2
hostess_place_left (HostessPlace.board_leave _) = 1
hostess_place_left HostessPlace.exited = 0
hostess_place_left HostessPlace.failed = 0

abbrev pub hostess_left : HostessPlace → ℕ → ℕ
hostess_left h n = hostess_place_left h + 20 * (n_pass - n)

-- `a` passengers are aboard and `b` have boarded in all. Before the take-off those who are to fly
-- later are the ones who have not landed; after it, the ones who have not boarded.
unfoldable pub pilot_left : PilotPlace → ℕ → ℕ → ℕ
pilot_left PilotPlace.connect a b = 15 + 50 * (n_pass + a - b)
pilot_left PilotPlace.test a b = 14 + 50 * (n_pass + a - b)
pilot_left (PilotPlace.flight_enter false) a b = 13 + 50 * (n_pass + a - b)
pilot_left (PilotPlace.flight_body false) a b = 12 + 50 * (n_pass + a - b)
pilot_left (PilotPlace.flight_leave false) a b = 11 + 50 * (n_pass + a - b)
pilot_left PilotPlace.signal_enter a b = 10 + 50 * (n_pass + a - b)
pilot_left PilotPlace.signal_body a b = 9 + 50 * (n_pass + a - b)
pilot_left PilotPlace.signal_leave a b = 8 + 50 * (n_pass + a - b)
pilot_left PilotPlace.signal_post a b = 7 + 50 * (n_pass + a - b)
pilot_left PilotPlace.wait_enter a b = 6 + 50 * (n_pass + a - b)
pilot_left PilotPlace.wait_body a b = 5 + 50 * (n_pass + a - b)
pilot_left PilotPlace.wait_leave a b = 4 + 50 * (n_pass + a - b)
pilot_left PilotPlace.wait_down a b = 3 + 50 * (n_pass + a - b)
pilot_left (PilotPlace.flight_enter true) a b = 40 + 50 * (n_pass - b)
pilot_left (PilotPlace.flight_body true) a b = 39 + 50 * (n_pass - b)
pilot_left (PilotPlace.flight_leave true) a b = 38 + 50 * (n_pass - b)
pilot_left PilotPlace.drop_enter a b = 37 + 50 * (n_pass - b)
pilot_left PilotPlace.drop_stat a b = 36 + 50 * (n_pass - b)
pilot_left (PilotPlace.drop_loop i) a b = 25 + (a - i) + 50 * (n_pass - b)
pilot_left PilotPlace.drop_save a b = 24 + 50 * (n_pass - b)
pilot_left PilotPlace.drop_leave a b = 23 + 50 * (n_pass - b)
pilot_left PilotPlace.drop_down a b = 22 + 50 * (n_pass - b)
pilot_left PilotPlace.return_enter a b = 21 + 50 * (n_pass - b)
pilot_left PilotPlace.return_save a b = 20 + 50 * (n_pass - b)
pilot_left PilotPlace.return_leave a b = 19 + 50 * (n_pass - b)
pilot_left PilotPlace.exited a b = 0
pilot_left PilotPlace.failed a b = 0

unfoldable pub main_left : MainPlace → ℕ
main_left MainPlace.enable = n_pass + 5
main_left MainPlace.signal = n_pass + 4
main_left (MainPlace.waiting m) = n_pass + 3 - m
main_left MainPlace.result = 1
main_left MainPlace.exited = 0
main_left MainPlace.failed = 0
