-- ===== src/Tests.antt =====
-- Runs of the simulation, and the theorems at states that they reach.
mod Endings
pub mod Faults
mod Midway
mod Saving
mod Starts
mod Texts
use so_assignment2_air_bridg.Base.{
  ℕ, zero, suc, ◌+◌, ◌-◌, some, update, ◌≡◌, ◌≤◌, refl, List, [], ◌∷◌, ◌++◌, replicate, false, true,
  total, total_full, arith, length, decr, ◌<◌,
}
use so_assignment2_air_bridg.Data.{FullStat, n_pass, max_nf}
use so_assignment2_air_bridg.Semaphore.Ideal.{ideal, ideal-IsSemOp}
use so_assignment2_air_bridg.Main.{MainPlace}
use so_assignment2_air_bridg.Hostess.{HostessPlace}
use so_assignment2_air_bridg.Passenger.{PassengerPlace, passenger_step, join_queue}
use so_assignment2_air_bridg.Pilot.{PilotPlace}
use so_assignment2_air_bridg.System.{System, passenger_moves, begin, initial}
use so_assignment2_air_bridg.Invariant.{reached, reached-le}
use so_assignment2_air_bridg.Progress.{AllDone}
use so_assignment2_air_bridg.Safety.{in_air}
use so_assignment2_air_bridg.Flights.{IsFresh, AllFlights, flights_bounded, flights_carry_all}
use so_assignment2_air_bridg.Result.{Complete, result-Complete}
use so_assignment2_air_bridg.Refinement.{lift, LiftStep, refines_lift}
use so_assignment2_air_bridg.LastEntry.{KeepsUp, log-KeepsUp}
use so_assignment2_air_bridg.Faults.{ideal-MayFail}
use so_assignment2_air_bridg.Semaphore
use so_assignment2_air_bridg.States.{StatesAgree, states_agree}
use so_assignment2_air_bridg.Schedule.{Who, Run, run}

-- New shared memory holds zeros.
abbrev blank : FullStat
blank = record {
  st = record { pilot_stat = 0; hostess_stat = 0; passenger_stat = replicate n_pass 0 };
  n_passengers_in_flight = replicate 10 0;
  n_flight = 0;
  n_pass_in_queue = 0;
  n_pass_in_flight = 0;
  total_pass_boarded = 0;
  finished = false;
  passenger_checked = 0;
}

abbrev born : Run blank
born = record { last = initial blank; reach = begin }

-- Each passenger below `n` makes `m` turns, one passenger after the other.
abbrev crowd : ℕ → ℕ → List Who
crowd m zero = []
crowd m (suc n) = crowd m n ++ replicate m (Who.passenger n)

abbrev rounds : ℕ → List Who → List Who
rounds zero ws = []
rounds (suc n) ws = ws ++ rounds n ws

abbrev whole : List Who
whole =
    replicate 2 Who.main
    ++ (rounds 60 (replicate 12 Who.pilot ++ (replicate 12 Who.hostess ++ crowd 6 n_pass))
        ++ replicate 30 Who.main)

whole_ends : (run born whole).main ≡ MainPlace.exited
unfolding run
whole_ends = refl

-- Five passengers board a flight, and the pilot is about to take off.
abbrev takeoff : List Who
takeoff =
    replicate 2 Who.main
    ++ (crowd 5 5
        ++ (replicate 12 Who.pilot
            ++ (rounds 6 (replicate 12 Who.hostess ++ crowd 6 5)
                ++ (replicate 12 Who.hostess ++ Who.pilot ∷ []))))

abbrev pub air : Run blank
air = run born takeoff

air_places : (air.pilot ≡ PilotPlace.flight_enter true) × (air.shared.f_st.n_pass_in_flight ≡ 5)
unfolding run
air_places = (refl, refl)

-- One passenger is in the critical section.
abbrev inside : Run blank
inside = run born (replicate 2 Who.main ++ replicate 2 (Who.passenger 0))

air_in_air : in_air air.pilot ≡ true
air_in_air = rw (air_places.0)

-- The whole simulation.
abbrev finale : Run blank
finale = run born whole

reached_exited : (a : PassengerPlace) → reached 15 a ≡ 1 → a ≡ PassengerPlace.exited
reached_exited a e = ground arith

finale_exits : total (reached 15) n_pass finale.passenger ≡ n_pass
unfolding run
finale_exits = refl

finale_places : (finale.pilot ≡ PilotPlace.exited) × (finale.hostess ≡ HostessPlace.exited)
unfolding run
finale_places = (refl, refl)

finale-AllDone : AllDone finale.last
finale-AllDone = record {
  children = record {
    pilot_done = finale_places.0;
    hostess_done = finale_places.1;
    passengers_done = λ j lt.
        reached_exited (finale.passenger j)
          (total_full (reached 15) (reached-le 15) n_pass finale.passenger finale_exits j lt);
  };
  main_done = whole_ends;
}

result-Complete_example : Complete finale.shared
result-Complete_example =
    result-Complete ideal blank finale.last ideal-IsSemOp finale.reach finale-AllDone

-- The memory that the runs start with is new.
blank-IsFresh : IsFresh blank
blank-IsFresh = record { no_flight = refl; no_records = refl }

-- The hostess is about to record a flight.
abbrev recording : Run blank
recording = run born (
    replicate 2 Who.main
    ++ (crowd 5 5
        ++ (replicate 12 Who.pilot
            ++ (rounds 6 (replicate 12 Who.hostess ++ crowd 6 5) ++ replicate 5 Who.hostess))))

recording_place : recording.hostess ≡ HostessPlace.ready_body
unfolding run
recording_place = refl

flights_bounded_example :
    let g = recording.shared.f_st in
    (g.n_flight ≤ 5)
    × (length g.n_passengers_in_flight ≡ max_nf)
    × (recording.hostess ≡ HostessPlace.ready_body
        → decr g.n_flight < length g.n_passengers_in_flight)
flights_bounded_example =
    flights_bounded ideal blank recording.last ideal-IsSemOp blank-IsFresh recording.reach

flights_carry_all_example : (fl : List ℕ) × AllFlights fl finale.shared.f_st
flights_carry_all_example =
    flights_carry_all ideal blank finale.last ideal-IsSemOp blank-IsFresh finale.reach
      finale-AllDone

-- The three flights of that run.
finale_flights :
    finale.shared.f_st.n_passengers_in_flight ≡ 10 ∷ 10 ∷ 1 ∷ 0 ∷ 0 ∷ 0 ∷ 0 ∷ 0 ∷ 0 ∷ 0 ∷ []
unfolding run
finale_flights = refl

states_agree_example : StatesAgree finale.last
states_agree_example = states_agree ideal blank finale.last refl finale.reach

inside_place : inside.passenger 0 ≡ PassengerPlace.queue_body
unfolding run
inside_place = refl

-- That passenger joins the queue.
abbrev joined : System
joined = record inside.last {
  shared = join_queue 0 inside.shared;
  passenger = update inside.passenger 0 PassengerPlace.queue_leave;
}

inside_joins :
    passenger_step ideal 0 (inside.passenger 0) inside.shared
    ≡ some (join_queue 0 inside.shared, PassengerPlace.queue_leave)
unfolding passenger_step
inside_joins = rw inside_place refl

refines_lift_example : LiftStep (lift inside.last) (lift joined)
refines_lift_example =
    refines_lift ideal blank inside.last joined ideal-IsSemOp inside.reach
      (passenger_moves 0 (omega arith) inside_joins)

air_free : air.shared.sems Semaphore.mutex ≡ 1
unfolding run
air_free = refl

log-KeepsUp_example : KeepsUp blank air.shared
log-KeepsUp_example = log-KeepsUp ideal blank air.last ideal-MayFail air.reach air_free
