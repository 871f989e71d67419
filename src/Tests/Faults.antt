-- ===== src/Tests/Faults.antt =====
-- Failures of `semop`, the order of the states and of the log, and who is on a flight.
use mathlib.Core.List.{flatten, map, Perm}
use so_assignment2_air_bridg.Base.{
  ◌-◌, ◌≡◌, ◌≤◌, ◌⊎◌, refl, arith, [], ◌∷◌, ◌++◌, replicate, length, get_elem?, total, leb,
  if◌then◌else◌, ◌≢◌, ◌+◌, some,
}
use so_assignment2_air_bridg.Data.{n_pass, max_nf}
use so_assignment2_air_bridg.Semaphore
use so_assignment2_air_bridg.Semaphore.{SemOp, failed}
use so_assignment2_air_bridg.Semaphore.Ideal.{ideal, ideal-IsSemOp}
use so_assignment2_air_bridg.Main.{MainPlace, main_step, start}
use so_assignment2_air_bridg.Pilot.{PilotPlace}
use so_assignment2_air_bridg.Hostess.{HostessPlace}
use so_assignment2_air_bridg.Passenger.{PassengerPlace, passenger_step}
use so_assignment2_air_bridg.System.{System, Step, main_moves, passenger_moves, Reach, begin, later}
use so_assignment2_air_bridg.Safety.{processes_inside, nobody_fails, semaphores_bounded}
use so_assignment2_air_bridg.Faults.{MayFail, ideal-MayFail}
use so_assignment2_air_bridg.Faults.Exclusion.{exclusion_survives}
use so_assignment2_air_bridg.Locked.{SameData, mover_inside, writes_locked}
use so_assignment2_air_bridg.States.Transitions.{
  PilotNext, HostessNext, PassengerNext, transitions_legal,
}
use so_assignment2_air_bridg.Counters.{Near, counters_never_wrap}
use so_assignment2_air_bridg.FlightLists.{flight_lists, flights_partition, upto}
use so_assignment2_air_bridg.Invariant.{pilot_inside, hostess_inside, passenger_inside}
use so_assignment2_air_bridg.LastFlight.{last_flight, waits_to_land, aboard_in_air}
use so_assignment2_air_bridg.Checked.{occurrences}
use so_assignment2_air_bridg.LogOrder.{phase_of, plane_phase, log_in_order}
use so_assignment2_air_bridg.Tests.{
  blank, blank-IsFresh, inside, joined, inside_joins, finale, finale-AllDone, air, air_in_air,
}

-- Every call fails.
abbrev pub broken : SemOp
broken v ops = failed

-- Only the start gate and the mutex work; every other call fails.
abbrev flaky : SemOp
flaky v [] = failed
flaky v (b ∷ bs) = if leb 2 b.sem_num then failed else ideal v (b ∷ bs)

flaky-MayFail : MayFail flaky
flaky-MayFail = record {
  down_took = λ v w i e. ground (arith, ideal-MayFail.down_took v w i);
  up_added = λ v w i e. ground (arith, ideal-MayFail.up_added v w i);
  gate_passed = λ v w e. ideal-MayFail.gate_passed v w e;
}

-- `main` opens the gate, and a passenger takes the mutex.
flaky_run : (s : System) × Reach flaky blank s
unfolding main_step passenger_step ideal start
flaky_run = (
  _,
  later
      (later (later (later begin (main_moves refl)) (main_moves refl))
        (passenger_moves 0 (omega arith) refl))
      (passenger_moves 0 (omega arith) refl),
)

flaky_inside : processes_inside (flaky_run.0) ≡ 1
unfolding flaky_run pilot_inside hostess_inside passenger_inside total
flaky_inside = refl

exclusion_survives_example : processes_inside (flaky_run.0) ≤ 1
exclusion_survives_example =
    exclusion_survives flaky blank (flaky_run.0) flaky-MayFail (flaky_run.1)

joined_step : Step ideal inside.last joined
joined_step = passenger_moves 0 (omega arith) inside_joins

writes_locked_example :
    SameData inside.shared joined.shared
    ⊎ (((mover_inside joined_step ≡ 1)
          × (inside.shared.sems Semaphore.mutex ≡ 0)
          × (processes_inside inside.last ≡ 1))
        ⊎ ((inside.main ≡ MainPlace.result) × (joined.shared.f_st ≡ inside.shared.f_st)))
writes_locked_example =
    writes_locked ideal blank inside.last joined ideal-MayFail inside.reach joined_step

transitions_legal_example :
    PilotNext inside.shared.f_st.st.pilot_stat joined.shared.f_st.st.pilot_stat
    × HostessNext inside.shared.f_st.st.hostess_stat joined.shared.f_st.st.hostess_stat
    × PassengerNext
        (get_elem? inside.shared.f_st.st.passenger_stat 0)
        (get_elem? joined.shared.f_st.st.passenger_stat 0)
transitions_legal_example =
    transitions_legal ideal blank inside.last joined refl inside.reach joined_step 0 (omega arith)

counters_never_wrap_example :
    let a = inside.shared.f_st in
    let b = joined.shared.f_st in
    Near a.n_pass_in_queue b.n_pass_in_queue
    × Near a.n_pass_in_flight b.n_pass_in_flight
    × Near a.total_pass_boarded b.total_pass_boarded
    × Near a.n_flight b.n_flight
    × (b.n_pass_in_queue ≤ n_pass)
    × (b.n_pass_in_flight ≤ n_pass)
    × (b.total_pass_boarded ≤ n_pass)
    × (b.n_flight ≤ n_pass)
counters_never_wrap_example =
    counters_never_wrap ideal blank inside.last joined ideal-IsSemOp blank-IsFresh inside.reach
      joined_step

flights_partition_example :
    let lists = flight_lists finale.shared.log in
    Perm (flatten lists) (upto n_pass)
    × (finale.shared.f_st.n_passengers_in_flight
        ≡ map length lists ++ replicate (max_nf - length (map length lists)) 0)
flights_partition_example =
    flights_partition ideal blank finale.last ideal-IsSemOp blank-IsFresh finale.reach
      finale-AllDone

nobody_fails_example :
    (finale.main ≢ MainPlace.failed)
    × (finale.pilot ≢ PilotPlace.failed)
    × (finale.hostess ≢ HostessPlace.failed)
    × (finale.passenger 20 ≢ PassengerPlace.failed)
nobody_fails_example =
    nobody_fails ideal blank finale.last 20 ideal-IsSemOp finale.reach (omega arith)

semaphores_bounded_example :
    let v = air.shared.sems in
    (v Semaphore.start_gate ≤ 1)
    × (v Semaphore.mutex ≤ 1)
    × (v Semaphore.passengers_in_queue ≤ n_pass)
    × (v Semaphore.passengers_wait_in_queue ≤ 1)
    × (v Semaphore.passengers_wait_in_flight ≤ air.shared.f_st.n_pass_in_flight)
    × (v Semaphore.ready_for_boarding + v Semaphore.ready_to_flight ≤ 1)
    × (v Semaphore.id_shown ≤ 1)
    × (v Semaphore.plane_empty ≤ 1)
semaphores_bounded_example = semaphores_bounded ideal blank air.last ideal-IsSemOp air.reach

aboard_in_air_example : occurrences 4 (last_flight air.shared.log) ≡ waits_to_land (air.passenger 4)
aboard_in_air_example =
    aboard_in_air ideal blank air.last ideal-IsSemOp air.reach air_in_air 4 (omega arith)

log_in_order_example : phase_of air.shared.log ≡ some (plane_phase air.last)
log_in_order_example = log_in_order ideal blank air.last ideal-IsSemOp air.reach
