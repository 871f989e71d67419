-- ===== src/Invariant/Places/Counting.antt =====
-- Which processes are inside a critical section, and how many passengers have done what.
use so_assignment2_air_bridg.Base.{ℕ, ◌≤◌, leb, if◌then◌else◌, total}
use so_assignment2_air_bridg.Data.{n_pass}
use so_assignment2_air_bridg.Pilot.{PilotPlace}
use so_assignment2_air_bridg.Hostess.{HostessPlace}
use so_assignment2_air_bridg.Passenger.{PassengerPlace}

-- Inside a critical section.
unfoldable pub pilot_inside : PilotPlace → ℕ
pilot_inside (PilotPlace.flight_body _) = 1
pilot_inside (PilotPlace.flight_leave _) = 1
pilot_inside PilotPlace.signal_body = 1
pilot_inside PilotPlace.signal_leave = 1
pilot_inside PilotPlace.wait_body = 1
pilot_inside PilotPlace.wait_leave = 1
pilot_inside PilotPlace.drop_stat = 1
pilot_inside (PilotPlace.drop_loop _) = 1
pilot_inside PilotPlace.drop_save = 1
pilot_inside PilotPlace.drop_leave = 1
pilot_inside PilotPlace.return_save = 1
pilot_inside PilotPlace.return_leave = 1
pilot_inside _ = 0

unfoldable pub hostess_inside : HostessPlace → ℕ
hostess_inside HostessPlace.next_body = 1
hostess_inside HostessPlace.next_leave = 1
hostess_inside HostessPlace.wait_body = 1
hostess_inside HostessPlace.wait_leave = 1
hostess_inside HostessPlace.check_body = 1
hostess_inside HostessPlace.check_leave = 1
hostess_inside HostessPlace.board_body = 1
hostess_inside (HostessPlace.board_leave _) = 1
hostess_inside HostessPlace.ready_body = 1
hostess_inside HostessPlace.ready_leave = 1
hostess_inside _ = 0

unfoldable pub passenger_inside : PassengerPlace → ℕ
passenger_inside PassengerPlace.queue_body = 1
passenger_inside PassengerPlace.queue_leave = 1
passenger_inside PassengerPlace.show_body = 1
passenger_inside PassengerPlace.show_leave = 1
passenger_inside PassengerPlace.arrive_body = 1
passenger_inside PassengerPlace.arrive_post = 1
passenger_inside PassengerPlace.arrive_leave = 1
passenger_inside _ = 0

-- How far a passenger has come.
abbrev pub rank : PassengerPlace → ℕ
rank PassengerPlace.connect = 0
rank PassengerPlace.queue_enter = 1
rank PassengerPlace.queue_body = 2
rank PassengerPlace.queue_leave = 3
rank PassengerPlace.queue_post = 4
rank PassengerPlace.queue_down = 5
rank PassengerPlace.show_enter = 6
rank PassengerPlace.show_body = 7
rank PassengerPlace.show_leave = 8
rank PassengerPlace.show_post = 9
rank PassengerPlace.arrive_down = 10
rank PassengerPlace.arrive_enter = 11
rank PassengerPlace.arrive_body = 12
rank PassengerPlace.arrive_post = 13
rank PassengerPlace.arrive_leave = 14
rank PassengerPlace.exited = 15
rank PassengerPlace.failed = 0

abbrev pub reached : ℕ → PassengerPlace → ℕ
reached r p = if leb r (rank p) then 1 else 0

unfoldable pub is_pending : PassengerPlace → ℕ
is_pending PassengerPlace.arrive_post = 1
is_pending _ = 0

unfoldable pub is_broken : PassengerPlace → ℕ
is_broken PassengerPlace.failed = 1
is_broken _ = 0

-- How many passengers have done what: counted in the queue, announced themselves, been called,
-- shown the passport, been let out, left the plane; are about to report the empty plane; are inside
-- a critical section; have failed.
pub record Counts : Type 0 where
  pub joined : ℕ
  pub posted : ℕ
  pub called : ℕ
  pub shown : ℕ
  pub freed : ℕ
  pub left : ℕ
  pub pending : ℕ
  pub inside : ℕ
  pub broken : ℕ

abbrev pub counts : (ℕ → PassengerPlace) → Counts
counts f = record {
  joined = total (reached 3) n_pass f;
  posted = total (reached 5) n_pass f;
  called = total (reached 6) n_pass f;
  shown = total (reached 10) n_pass f;
  freed = total (reached 11) n_pass f;
  left = total (reached 13) n_pass f;
  pending = total is_pending n_pass f;
  inside = total passenger_inside n_pass f;
  broken = total is_broken n_pass f;
}

pub record IsOrdered (c : Counts) : Type 0 where
  pub joined_le : c.joined ≤ n_pass
  pub posted_le : c.posted ≤ c.joined
  pub called_le : c.called ≤ c.posted
  pub shown_le : c.shown ≤ c.called
  pub freed_le : c.freed ≤ c.shown
  pub left_le : c.left ≤ c.freed
