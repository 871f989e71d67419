-- ===== src/Pilot.antt =====
-- src/semSharedMemPilot.c: the pilot. A place is a point between two atomic actions: a call of
-- `semDown` or `semUp`, or the statements inside a critical section. The time that a flight takes
-- (`usleep`) is left out: the scheduler may delay any step.
use so_assignment2_air_bridg.Base.{ℕ, ◌+◌, Bool, true, false, none, ltb, if◌then◌else◌, incr}
use so_assignment2_air_bridg.Data
use so_assignment2_air_bridg.Data.{FullStat}
use so_assignment2_air_bridg.Semaphore
use so_assignment2_air_bridg.Semaphore.{SemOp, sem_connect, sem_down, sem_up}
use so_assignment2_air_bridg.Logging.{
  save_state, save_start_boarding, save_flight_arrived, save_flight_returning,
}
use so_assignment2_air_bridg.Shared.{Shared, Turn, checked, unchecked, act}

pub data PilotPlace : Type 0 where
  connect : PilotPlace
  test : PilotPlace  -- `while (!isFinished ())`
  flight_enter flight_body flight_leave : Bool → PilotPlace
  signal_enter signal_body signal_leave signal_post : PilotPlace
  wait_enter wait_body wait_leave wait_down : PilotPlace
  drop_enter drop_stat : PilotPlace
  drop_loop : ℕ → PilotPlace  -- the head of the `for`, with its `i`
  drop_save drop_leave drop_down return_enter return_save return_leave : PilotPlace
  exited failed : PilotPlace

unfoldable pub set_pilot_stat : ℕ → FullStat → FullStat
set_pilot_stat v f = record f { st = record f.st { pilot_stat = v } }

-- `isFinished`
unfoldable pub is_finished : FullStat → Bool
is_finished f = f.finished

-- The critical section of `flight`.
unfoldable pub flight : Bool → Shared → Shared
unfolding set_pilot_stat
flight go s =
    let f = set_pilot_stat (if go then Data.flying else Data.flying_back) s.f_st in
    record s { f_st = f; log = save_state f s.log }

-- The critical section of `signalReadyForBoarding`.
unfoldable pub signal_ready_for_boarding : Shared → Shared
unfolding set_pilot_stat
signal_ready_for_boarding s =
    let g = set_pilot_stat Data.ready_for_boarding s.f_st in
    let f = record g { n_flight = incr g.n_flight } in
    record s { f_st = f; log = save_start_boarding f (save_state f s.log) }

-- The critical section of `waitUntilReadyToFlight`.
unfoldable pub wait_until_ready_to_flight : Shared → Shared
unfolding set_pilot_stat
wait_until_ready_to_flight s =
    let f = set_pilot_stat Data.waiting_for_boarding s.f_st in
    record s { f_st = f; log = save_state f s.log }

-- `dropPassengersAtTarget` up to its loop, its saving after the loop, and its second section.
unfoldable pub drop_passengers : Shared → Shared
unfolding set_pilot_stat
drop_passengers s = record s { f_st = set_pilot_stat Data.droping_passengers s.f_st }

unfoldable pub save_arrival : Shared → Shared
save_arrival s = record s { log = save_state s.f_st (save_flight_arrived s.f_st s.log) }

unfoldable pub save_return : Shared → Shared
save_return s = record s { log = save_flight_returning s.f_st s.log }

-- Where `flight` returns to.
abbrev pub after_flight : Bool → PilotPlace
after_flight true = PilotPlace.drop_enter
after_flight false = PilotPlace.signal_enter

-- One step of the pilot.
unfoldable pub pilot_step : SemOp → PilotPlace → Shared → Turn PilotPlace
unfolding is_finished flight signal_ready_for_boarding wait_until_ready_to_flight drop_passengers
    save_arrival save_return sem_connect sem_down sem_up
pilot_step k PilotPlace.connect s =
    checked (sem_connect k s.sems) s PilotPlace.failed PilotPlace.test
pilot_step k PilotPlace.test s =
    act s (if is_finished s.f_st then PilotPlace.exited else PilotPlace.flight_enter false)
pilot_step k (PilotPlace.flight_enter go) s =
    checked (sem_down k s.sems Semaphore.mutex) s PilotPlace.failed (PilotPlace.flight_body go)
pilot_step k (PilotPlace.flight_body go) s = act (flight go s) (PilotPlace.flight_leave go)
pilot_step k (PilotPlace.flight_leave go) s =
    checked (sem_up k s.sems Semaphore.mutex) s PilotPlace.failed (after_flight go)
pilot_step k PilotPlace.signal_enter s =
    checked (sem_down k s.sems Semaphore.mutex) s PilotPlace.failed PilotPlace.signal_body
pilot_step k PilotPlace.signal_body s = act (signal_ready_for_boarding s) PilotPlace.signal_leave
pilot_step k PilotPlace.signal_leave s =
    checked (sem_up k s.sems Semaphore.mutex) s PilotPlace.failed PilotPlace.signal_post
pilot_step k PilotPlace.signal_post s =
    unchecked (sem_up k s.sems Semaphore.ready_for_boarding) s PilotPlace.wait_enter
pilot_step k PilotPlace.wait_enter s =
    checked (sem_down k s.sems Semaphore.mutex) s PilotPlace.failed PilotPlace.wait_body
pilot_step k PilotPlace.wait_body s = act (wait_until_ready_to_flight s) PilotPlace.wait_leave
pilot_step k PilotPlace.wait_leave s =
    checked (sem_up k s.sems Semaphore.mutex) s PilotPlace.failed PilotPlace.wait_down
pilot_step k PilotPlace.wait_down s =
    unchecked (sem_down k s.sems Semaphore.ready_to_flight) s (PilotPlace.flight_enter true)
pilot_step k PilotPlace.drop_enter s =
    checked (sem_down k s.sems Semaphore.mutex) s PilotPlace.failed PilotPlace.drop_stat
pilot_step k PilotPlace.drop_stat s = act (drop_passengers s) (PilotPlace.drop_loop 0)
pilot_step k (PilotPlace.drop_loop i) s =
    if ltb i s.f_st.n_pass_in_flight
    then unchecked (sem_up k s.sems Semaphore.passengers_wait_in_flight) s
        (PilotPlace.drop_loop (i + 1))
    else act s PilotPlace.drop_save
pilot_step k PilotPlace.drop_save s = act (save_arrival s) PilotPlace.drop_leave
pilot_step k PilotPlace.drop_leave s =
    checked (sem_up k s.sems Semaphore.mutex) s PilotPlace.failed PilotPlace.drop_down
pilot_step k PilotPlace.drop_down s =
    unchecked (sem_down k s.sems Semaphore.plane_empty) s PilotPlace.return_enter
pilot_step k PilotPlace.return_enter s =
    checked (sem_down k s.sems Semaphore.mutex) s PilotPlace.failed PilotPlace.return_save
pilot_step k PilotPlace.return_save s = act (save_return s) PilotPlace.return_leave
pilot_step k PilotPlace.return_leave s =
    checked (sem_up k s.sems Semaphore.mutex) s PilotPlace.failed PilotPlace.test
pilot_step k PilotPlace.exited s = none
pilot_step k PilotPlace.failed s = none
