-- ===== src/Passenger.antt =====
-- src/semSharedMemPassenger.c: a passenger. The journey to the airport (`usleep`) is left out: the
-- scheduler may delay any step.
use so_assignment2_air_bridg.Base.{ℕ, none, ◌==◌, if◌then◌else◌, set, incr, decr}
use so_assignment2_air_bridg.Data
use so_assignment2_air_bridg.Data.{FullStat}
use so_assignment2_air_bridg.Semaphore
use so_assignment2_air_bridg.Semaphore.{SemOp, sem_connect, sem_down, sem_up}
use so_assignment2_air_bridg.Logging.{save_state}
use so_assignment2_air_bridg.Shared.{Shared, Turn, checked, unchecked, act}

pub data PassengerPlace : Type 0 where
  connect : PassengerPlace
  queue_enter queue_body queue_leave queue_post queue_down : PassengerPlace
  show_enter show_body show_leave show_post : PassengerPlace
  arrive_down arrive_enter arrive_body arrive_post arrive_leave : PassengerPlace
  exited failed : PassengerPlace

unfoldable pub set_passenger_stat : ℕ → ℕ → FullStat → FullStat
set_passenger_stat id v f = record f {
  st = record f.st { passenger_stat = set f.st.passenger_stat id v };
}

-- The first critical section of `waitInQueue`.
unfoldable pub join_queue : ℕ → Shared → Shared
unfolding set_passenger_stat
join_queue id s =
    let g = set_passenger_stat id Data.in_queue s.f_st in
    let f = record g { n_pass_in_queue = incr g.n_pass_in_queue } in
    record s { f_st = f; log = save_state f s.log }

-- Its second critical section.
unfoldable pub show_id : ℕ → Shared → Shared
unfolding set_passenger_stat
show_id id s =
    let f = record (set_passenger_stat id Data.in_flight s.f_st) { passenger_checked = id } in
    record s { f_st = f; log = save_state f s.log }

-- The critical section of `waitUntilDestination`, up to the test for the last passenger.
unfoldable pub arrive : ℕ → Shared → Shared
unfolding set_passenger_stat
arrive id s =
    let g = set_passenger_stat id Data.at_destination s.f_st in
    let f = record g { n_pass_in_flight = decr g.n_pass_in_flight } in
    record s { f_st = f; log = save_state f s.log }

-- `if (sh->fSt.nPassInFlight == 0)`
abbrev pub after_arrival : FullStat → PassengerPlace
after_arrival f =
    if f.n_pass_in_flight == 0 then PassengerPlace.arrive_post else PassengerPlace.arrive_leave

-- One step of the passenger `id`.
unfoldable pub passenger_step : SemOp → ℕ → PassengerPlace → Shared → Turn PassengerPlace
unfolding join_queue show_id arrive sem_connect sem_down sem_up
passenger_step k id PassengerPlace.connect s =
    checked (sem_connect k s.sems) s PassengerPlace.failed PassengerPlace.queue_enter
passenger_step k id PassengerPlace.queue_enter s =
    checked (sem_down k s.sems Semaphore.mutex) s PassengerPlace.failed PassengerPlace.queue_body
passenger_step k id PassengerPlace.queue_body s = act (join_queue id s) PassengerPlace.queue_leave
passenger_step k id PassengerPlace.queue_leave s =
    checked (sem_up k s.sems Semaphore.mutex) s PassengerPlace.failed PassengerPlace.queue_post
passenger_step k id PassengerPlace.queue_post s =
    unchecked (sem_up k s.sems Semaphore.passengers_in_queue) s PassengerPlace.queue_down
passenger_step k id PassengerPlace.queue_down s =
    unchecked (sem_down k s.sems Semaphore.passengers_wait_in_queue) s PassengerPlace.show_enter
passenger_step k id PassengerPlace.show_enter s =
    checked (sem_down k s.sems Semaphore.mutex) s PassengerPlace.failed PassengerPlace.show_body
passenger_step k id PassengerPlace.show_body s = act (show_id id s) PassengerPlace.show_leave
passenger_step k id PassengerPlace.show_leave s =
    checked (sem_up k s.sems Semaphore.mutex) s PassengerPlace.failed PassengerPlace.show_post
passenger_step k id PassengerPlace.show_post s =
    unchecked (sem_up k s.sems Semaphore.id_shown) s PassengerPlace.arrive_down
passenger_step k id PassengerPlace.arrive_down s =
    unchecked (sem_down k s.sems Semaphore.passengers_wait_in_flight) s PassengerPlace.arrive_enter
passenger_step k id PassengerPlace.arrive_enter s =
    checked (sem_down k s.sems Semaphore.mutex) s PassengerPlace.failed PassengerPlace.arrive_body
passenger_step k id PassengerPlace.arrive_body s =
    let t = arrive id s in act t (after_arrival t.f_st)
passenger_step k id PassengerPlace.arrive_post s =
    unchecked (sem_up k s.sems Semaphore.plane_empty) s PassengerPlace.arrive_leave
passenger_step k id PassengerPlace.arrive_leave s =
    checked (sem_up k s.sems Semaphore.mutex) s PassengerPlace.failed PassengerPlace.exited
passenger_step k id PassengerPlace.exited s = none
passenger_step k id PassengerPlace.failed s = none
