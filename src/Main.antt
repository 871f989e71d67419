-- ===== src/Main.antt =====
-- src/probSemSharedMemAirLift.c: the generator process. It has initialised what is shared and made
-- the children (`start`), and then lets them go, waits for all of them and writes the result.
use so_assignment2_air_bridg.Base.{
  ℕ, zero, suc, ◌+◌, false, List, none, ltb, leb, if◌then◌else◌, set,
}
use so_assignment2_air_bridg.Data
use so_assignment2_air_bridg.Data.{FullStat, n_pass}
use so_assignment2_air_bridg.Semaphore
use so_assignment2_air_bridg.Semaphore.{SemOp, sem_signal, sem_up}
use so_assignment2_air_bridg.Logging.{create_log, save_air_lift_result}
use so_assignment2_air_bridg.Shared.{Shared, Turn, checked, act}

pub data MainPlace : Type 0 where
  enable : MainPlace  -- `semUp (semgid, sh->mutex)`
  signal : MainPlace  -- `semSignal`
  waiting : ℕ → MainPlace  -- the head of the loop of `wait`, with its `m`
  result : MainPlace
  exited failed : MainPlace

-- The first `p` rounds of `for (p = 0; p < N; p++)`: the passengers are going to the airport.
unfoldable pub all_going : ℕ → List ℕ → List ℕ
all_going zero l = l
all_going (suc p) l = set (all_going p l) p Data.going_to_airport

-- The fields that `main` sets; `f` is the content of the new shared memory. The number of the
-- flight, the passengers of each flight and the passenger checked are not set.
unfoldable pub initialise : FullStat → FullStat
unfolding all_going
initialise f = record f {
  st = record {
    pilot_stat = Data.flying_back;
    hostess_stat = Data.wait_for_flight;
    passenger_stat = all_going n_pass f.st.passenger_stat;
  };
  finished = false;
  n_pass_in_queue = 0;
  n_pass_in_flight = 0;
  total_pass_boarded = 0;
}

-- What is shared when the children are born; all semaphores are created red.
unfoldable pub start : FullStat → Shared
unfolding initialise
start f = record { f_st = initialise f; sems = λ _. 0; log = create_log }

-- The loop `while (m < N+2)` and what follows it.
abbrev pub wait_loop : ℕ → MainPlace
wait_loop m = if ltb m (n_pass + 2) then MainPlace.waiting m else MainPlace.result

unfoldable pub write_result : Shared → Shared
write_result s = record s { log = save_air_lift_result s.f_st s.log }

-- One step, when `exits` children have ended: `wait` returns once for each of them, and it fails if no
-- child is left to wait for.
unfoldable pub main_step : SemOp → ℕ → MainPlace → Shared → Turn MainPlace
unfolding write_result sem_signal sem_up
main_step k exits MainPlace.enable s =
    checked (sem_up k s.sems Semaphore.mutex) s MainPlace.failed MainPlace.signal
main_step k exits MainPlace.signal s =
    checked (sem_signal k s.sems) s MainPlace.failed (MainPlace.waiting 0)
main_step k exits (MainPlace.waiting m) s =
    if ltb m exits
    then act s (wait_loop (m + 1))
    else if leb (n_pass + 2) m
    then act s MainPlace.failed
    else none
main_step k exits MainPlace.result s = act (write_result s) MainPlace.exited
main_step k exits MainPlace.exited s = none
main_step k exits MainPlace.failed s = none
