-- ===== src/Hostess.antt =====
-- src/semSharedMemHostess.c: the hostess. Beside her place she has one local variable, the number
-- `n` of passengers that she has checked; the result of `checkPassport` is part of a place.
use so_assignment2_air_bridg.Base.{
  ℕ, ◌+◌, ◌^◌, Bool, true, false, ◌&&◌, ◌||◌, none, ltb, leb, ◌==◌, if◌then◌else◌, set, incr, decr,
}
use so_assignment2_air_bridg.Data
use so_assignment2_air_bridg.Data.{FullStat, n_pass, min_fc, max_fc}
use so_assignment2_air_bridg.Semaphore
use so_assignment2_air_bridg.Semaphore.{SemOp, sem_connect, sem_down, sem_up}
use so_assignment2_air_bridg.Logging.{save_state, save_passenger_checked, save_flight_departed}
use so_assignment2_air_bridg.Shared.{Shared, Turn, checked, unchecked, act}

pub data HostessPlace : Type 0 where
  connect : HostessPlace
  next_enter next_body next_leave next_down : HostessPlace
  wait_enter wait_body wait_leave wait_down : HostessPlace
  check_enter check_body check_leave check_call check_id board_enter board_body : HostessPlace
  board_leave : Bool → HostessPlace  -- with `last`
  ready_enter ready_body ready_leave ready_post : HostessPlace
  exited failed : HostessPlace

unfoldable pub set_hostess_stat : ℕ → FullStat → FullStat
set_hostess_stat v f = record f { st = record f.st { hostess_stat = v } }

-- The critical section of `waitForNextFlight`.
unfoldable pub wait_for_next_flight : Shared → Shared
unfolding set_hostess_stat
wait_for_next_flight s =
    let f = set_hostess_stat Data.wait_for_flight s.f_st in
    record s { f_st = f; log = save_state f s.log }

-- The critical section of `waitForPassenger`.
unfoldable pub wait_for_passenger : Shared → Shared
unfolding set_hostess_stat
wait_for_passenger s =
    let f = set_hostess_stat Data.wait_for_passenger s.f_st in
    record s { f_st = f; log = save_state f s.log }

-- The first critical section of `checkPassport`.
unfoldable pub start_check : Shared → Shared
unfolding set_hostess_stat
start_check s =
    let f = set_hostess_stat Data.check_passport s.f_st in
    record s { f_st = f; log = save_state f s.log }

-- The getters return an `int`: a value from 2 ^ 31 on is negative, and so below `MINFC`.
abbrev pub int_limit : ℕ
int_limit = 2 ^ 31

abbrev pub n_passengers_in_flight : FullStat → ℕ
n_passengers_in_flight f = f.n_pass_in_flight

abbrev pub n_passengers_in_queue : FullStat → ℕ
n_passengers_in_queue f = f.n_pass_in_queue

-- `last` of `checkPassport`
unfoldable pub is_last : FullStat → Bool
is_last f =
    n_passengers_in_flight f == max_fc
    || (leb min_fc (n_passengers_in_flight f)
        && ltb (n_passengers_in_flight f) int_limit
        && n_passengers_in_queue f == 0)
    || f.total_pass_boarded == n_pass

-- The three counters that `checkPassport` changes.
unfoldable pub count_boarded : FullStat → FullStat
count_boarded f = record f {
  n_pass_in_queue = decr f.n_pass_in_queue;
  n_pass_in_flight = incr f.n_pass_in_flight;
  total_pass_boarded = incr f.total_pass_boarded;
}

-- The second critical section of `checkPassport`.
unfoldable pub board_passenger : Shared → Shared
unfolding count_boarded
board_passenger s =
    let f = count_boarded s.f_st in
    record s { f_st = f; log = save_state f (save_passenger_checked f s.log) }

-- The critical section of `signalReadyToFlight`. A write past the array changes nothing here.
unfoldable pub signal_ready_to_flight : Shared → Shared
unfolding set_hostess_stat
signal_ready_to_flight s =
    let g = set_hostess_stat Data.ready_to_flight s.f_st in
    let f = record g {
      n_passengers_in_flight = set g.n_passengers_in_flight (decr g.n_flight) g.n_pass_in_flight;
      finished = g.total_pass_boarded == n_pass;
    } in
    record s { f_st = f; log = save_flight_departed f (save_state f s.log) }

-- `while (nPassengers < N)`
abbrev pub outer_loop : ℕ → HostessPlace
outer_loop n = if ltb n n_pass then HostessPlace.next_enter else HostessPlace.exited

-- `while (!lastPassengerInFlight)`
abbrev pub inner_loop : Bool → HostessPlace
inner_loop true = HostessPlace.ready_enter
inner_loop false = HostessPlace.wait_enter

-- One step of the hostess who has checked `n` passengers.
unfoldable pub hostess_step : SemOp → HostessPlace → ℕ → Shared → Turn (HostessPlace × ℕ)
unfolding wait_for_next_flight wait_for_passenger start_check is_last board_passenger
    signal_ready_to_flight sem_connect sem_down sem_up
hostess_step k HostessPlace.connect n s =
    checked (sem_connect k s.sems) s (HostessPlace.failed, n) (outer_loop 0, 0)
hostess_step k HostessPlace.next_enter n s =
    checked (sem_down k s.sems Semaphore.mutex) s (HostessPlace.failed, n)
      (HostessPlace.next_body, n)
hostess_step k HostessPlace.next_body n s =
    act (wait_for_next_flight s) (HostessPlace.next_leave, n)
hostess_step k HostessPlace.next_leave n s =
    checked (sem_up k s.sems Semaphore.mutex) s (HostessPlace.failed, n) (HostessPlace.next_down, n)
hostess_step k HostessPlace.next_down n s =
    unchecked (sem_down k s.sems Semaphore.ready_for_boarding) s (HostessPlace.wait_enter, n)
hostess_step k HostessPlace.wait_enter n s =
    checked (sem_down k s.sems Semaphore.mutex) s (HostessPlace.failed, n)
      (HostessPlace.wait_body, n)
hostess_step k HostessPlace.wait_body n s = act (wait_for_passenger s) (HostessPlace.wait_leave, n)
hostess_step k HostessPlace.wait_leave n s =
    checked (sem_up k s.sems Semaphore.mutex) s (HostessPlace.failed, n) (HostessPlace.wait_down, n)
hostess_step k HostessPlace.wait_down n s =
    unchecked (sem_down k s.sems Semaphore.passengers_in_queue) s (HostessPlace.check_enter, n)
hostess_step k HostessPlace.check_enter n s =
    checked (sem_down k s.sems Semaphore.mutex) s (HostessPlace.failed, n)
      (HostessPlace.check_body, n)
hostess_step k HostessPlace.check_body n s = act (start_check s) (HostessPlace.check_leave, n)
hostess_step k HostessPlace.check_leave n s =
    checked (sem_up k s.sems Semaphore.mutex) s (HostessPlace.failed, n)
      (HostessPlace.check_call, n)
hostess_step k HostessPlace.check_call n s =
    unchecked (sem_up k s.sems Semaphore.passengers_wait_in_queue) s (HostessPlace.check_id, n)
hostess_step k HostessPlace.check_id n s =
    unchecked (sem_down k s.sems Semaphore.id_shown) s (HostessPlace.board_enter, n)
hostess_step k HostessPlace.board_enter n s =
    checked (sem_down k s.sems Semaphore.mutex) s (HostessPlace.failed, n)
      (HostessPlace.board_body, n)
hostess_step k HostessPlace.board_body n s =
    let t = board_passenger s in act t (HostessPlace.board_leave (is_last t.f_st), n)
hostess_step k (HostessPlace.board_leave last) n s =
    checked (sem_up k s.sems Semaphore.mutex) s (HostessPlace.failed, n) (inner_loop last, n + 1)
hostess_step k HostessPlace.ready_enter n s =
    checked (sem_down k s.sems Semaphore.mutex) s (HostessPlace.failed, n)
      (HostessPlace.ready_body, n)
hostess_step k HostessPlace.ready_body n s =
    act (signal_ready_to_flight s) (HostessPlace.ready_leave, n)
hostess_step k HostessPlace.ready_leave n s =
    checked (sem_up k s.sems Semaphore.mutex) s (HostessPlace.failed, n)
      (HostessPlace.ready_post, n)
hostess_step k HostessPlace.ready_post n s =
    unchecked (sem_up k s.sems Semaphore.ready_to_flight) s (outer_loop n, n)
hostess_step k HostessPlace.exited n s = none
hostess_step k HostessPlace.failed n s = none
