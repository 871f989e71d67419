-- ===== src/System.antt =====
-- The whole simulation: `main`, the pilot, the hostess and the passengers, interleaved in any order
-- over what they share. Every step is a call of a semaphore by one process, or the statements of one
-- process between two calls. In the code it is the mutex that keeps other processes from the record and the
-- log during such statements: Faults.Exclusion says when it does. For a `semop` without the documented
-- effect the steps are still whole, and a theorem on such a `semop` speaks of no finer interleaving.
use so_assignment2_air_bridg.Base.{ℕ, ◌+◌, ◌<◌, ◌≡◌, some, update, total}
use so_assignment2_air_bridg.Data.{FullStat, n_pass}
use so_assignment2_air_bridg.Semaphore.{SemOp}
use so_assignment2_air_bridg.Shared.{Shared}
use so_assignment2_air_bridg.Pilot.{PilotPlace, pilot_step}
use so_assignment2_air_bridg.Hostess.{HostessPlace, hostess_step}
use so_assignment2_air_bridg.Passenger.{PassengerPlace, passenger_step}
use so_assignment2_air_bridg.Main.{MainPlace, main_step}
use so_assignment2_air_bridg.Main

-- `n_checked` is the hostess's local `nPassengers`; the passengers are those below `n_pass`.
pub record System : Type 0 where
  pub shared : Shared
  pub main : MainPlace
  pub pilot : PilotPlace
  pub hostess : HostessPlace
  pub n_checked : ℕ
  pub passenger : ℕ → PassengerPlace

-- Whether a process has ended, for good or with an error.
abbrev pub pilot_ended : PilotPlace → ℕ
pilot_ended PilotPlace.exited = 1
pilot_ended PilotPlace.failed = 1
pilot_ended _ = 0

abbrev pub hostess_ended : HostessPlace → ℕ
hostess_ended HostessPlace.exited = 1
hostess_ended HostessPlace.failed = 1
hostess_ended _ = 0

abbrev pub passenger_ended : PassengerPlace → ℕ
passenger_ended PassengerPlace.exited = 1
passenger_ended PassengerPlace.failed = 1
passenger_ended _ = 0

-- The number of children that have ended.
unfoldable pub exits : System → ℕ
exits s = total passenger_ended n_pass s.passenger + hostess_ended s.hostess + pilot_ended s.pilot

-- The state in which `main` has made its children; `f` is the content of the new shared memory.
abbrev pub initial : FullStat → System
initial f = record {
  shared = Main.start f;
  main = MainPlace.enable;
  pilot = PilotPlace.connect;
  hostess = HostessPlace.connect;
  n_checked = 0;
  passenger = λ _. PassengerPlace.connect;
}

pub data Step (k : SemOp) (s : System) : System → Type 0 where
  main_moves :
      {t : Shared} {p : MainPlace}
      → main_step k (exits s) s.main s.shared ≡ some (t, p)
      → Step k s (record s { shared = t; main = p })
  pilot_moves :
      {t : Shared} {p : PilotPlace}
      → pilot_step k s.pilot s.shared ≡ some (t, p)
      → Step k s (record s { shared = t; pilot = p })
  hostess_moves :
      {t : Shared} {p : HostessPlace} {n : ℕ}
      → hostess_step k s.hostess s.n_checked s.shared ≡ some (t, (p, n))
      → Step k s (record s { shared = t; hostess = p; n_checked = n })
  passenger_moves :
      {t : Shared} {p : PassengerPlace} (i : ℕ)
      → i < n_pass
      → passenger_step k i (s.passenger i) s.shared ≡ some (t, p)
      → Step k s (record s { shared = t; passenger = update s.passenger i p })

-- The states that the simulation can reach.
pub data Reach (k : SemOp) (f : FullStat) : System → Type 0 where
  begin : Reach k f (initial f)
  later : {s t : System} → Reach k f s → Step k s t → Reach k f t
