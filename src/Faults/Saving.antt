-- ===== src/Faults/Saving.antt =====
-- The simulation in which a saving function may end its program: `openLog` and `closeLog` of src/logging.c
-- call `exit` if `fopen` or `fclose` fails, and the pilot, the hostess and the passengers save inside their
-- critical sections. What the section has stored in the record by then stays there, and the mutex
-- stays down.
mod Effects
mod Dying
pub mod Endless
mod Frozen
pub mod Lost
use so_assignment2_air_bridg.Base.{ℕ, ◌+◌, ◌≡◌, ◌≤◌, ◌<◌, some, ◌++◌, length, update}
use so_assignment2_air_bridg.Data.{FullStat, n_pass}
use so_assignment2_air_bridg.Semaphore.{SemOp}
use so_assignment2_air_bridg.Logging.{Log}
use so_assignment2_air_bridg.Shared.{Shared}
use so_assignment2_air_bridg.Main.{MainPlace, main_step}
use so_assignment2_air_bridg.Pilot.{PilotPlace, pilot_step}
use so_assignment2_air_bridg.Hostess.{HostessPlace, hostess_step}
use so_assignment2_air_bridg.Passenger.{PassengerPlace, passenger_step}
use so_assignment2_air_bridg.System.{System, Step, initial, exits, Reach, begin, later}

-- A step that would lead from `s` to `t` ends in `u`, since one of its saving functions fails: some of its
-- entries are written, and the record is stored as for `t` (every section stores before it saves).
-- The last of the written entries is the one that fails if its file cannot be closed. A part of an entry's
-- text is left out.
pub record SaveFails (s t u : Shared) : Type 0 where
  pub written : Log
  pub lost : Log
  pub entries : t.log ≡ s.log ++ (written ++ lost)
  pub grows : 1 ≤ length (written ++ lost)
  pub stopped : u ≡ record t { log = s.log ++ written }

-- A step, or one that ends its process so.
pub data FaultyStep (k : SemOp) (s : System) : System → Type 0 where
  regular : {t : System} → Step k s t → FaultyStep k s t
  main_dies :
      {t u : Shared} {p : MainPlace}
      → main_step k (exits s) s.main s.shared ≡ some (t, p)
      → SaveFails s.shared t u
      → FaultyStep k s (record s { shared = u; main = MainPlace.failed })
  pilot_dies :
      {t u : Shared} {p : PilotPlace}
      → pilot_step k s.pilot s.shared ≡ some (t, p)
      → SaveFails s.shared t u
      → FaultyStep k s (record s { shared = u; pilot = PilotPlace.failed })
  hostess_dies :
      {t u : Shared} {p : HostessPlace} {n : ℕ}
      → hostess_step k s.hostess s.n_checked s.shared ≡ some (t, (p, n))
      → SaveFails s.shared t u
      → FaultyStep k s (record s { shared = u; hostess = HostessPlace.failed })
  passenger_dies :
      {t u : Shared} {p : PassengerPlace} (i : ℕ)
      → i < n_pass
      → passenger_step k i (s.passenger i) s.shared ≡ some (t, p)
      → SaveFails s.shared t u
      → FaultyStep k s
          (record s { shared = u; passenger = update s.passenger i PassengerPlace.failed })

pub data FaultySteps (k : SemOp) (s : System) : System → Type 0 where
  here : FaultySteps k s s
  further : {t u : System} → FaultySteps k s t → FaultyStep k t u → FaultySteps k s u

-- 1 for a step in which a child dies inside its critical section.
abbrev pub child_dies : {k : SemOp} {s t : System} → FaultyStep k s t → ℕ
child_dies (regular st) = 0
child_dies (main_dies e c) = 0
child_dies (pilot_dies e c) = 1
child_dies (hostess_dies e c) = 1
child_dies (passenger_dies i lt e c) = 1

-- Without such failures it is the simulation.
pub Reach-FaultySteps :
    {k : SemOp} {f : FullStat} {s : System} → Reach k f s → FaultySteps k (initial f) s
Reach-FaultySteps begin = here
Reach-FaultySteps (later r st) = further (Reach-FaultySteps r) (regular st)
