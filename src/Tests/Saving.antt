-- ===== src/Tests/Saving.antt =====
-- A passenger that cannot save its state, and a hostess that cannot connect.
use so_assignment2_air_bridg.Base.{
  ◌≡◌, ◌≢◌, ◌⊎◌, false, refl, arith, [], ◌∷◌, ◌++◌, update, append-nil,
}
use so_assignment2_air_bridg.Semaphore
use so_assignment2_air_bridg.Semaphore.Ideal.{ideal}
use so_assignment2_air_bridg.Logging.{Entry, save_state}
use so_assignment2_air_bridg.Shared.{Shared}
use so_assignment2_air_bridg.Passenger.{PassengerPlace, join_queue, passenger_step}
use so_assignment2_air_bridg.System.{System, initial, hostess_moves, passenger_moves}
use so_assignment2_air_bridg.Safety.{processes_inside}
use so_assignment2_air_bridg.Faults.{ideal-MayFail}
use so_assignment2_air_bridg.Faults.Saving.{
  FaultyStep, FaultySteps, passenger_dies, regular, here, further, Reach-FaultySteps,
}
use so_assignment2_air_bridg.Faults.Saving.Endless.{hostess_needed}
use so_assignment2_air_bridg.Main.{MainPlace, start}
use so_assignment2_air_bridg.Pilot.{PilotPlace}
use so_assignment2_air_bridg.Hostess.{HostessPlace, hostess_step}
use so_assignment2_air_bridg.Faults.Saving.Lost.{lock_lost}
use so_assignment2_air_bridg.Tests.Faults.{broken}
use so_assignment2_air_bridg.Tests.{blank, inside, joined, inside_joins}

-- The file cannot be opened: nothing is written.
abbrev unsaved_join : Shared
unsaved_join = record joined.shared { log = inside.shared.log }

abbrev locked_up : System
locked_up = record inside.last {
  shared = unsaved_join;
  passenger = update inside.last.passenger 0 PassengerPlace.failed;
}

join_dies : FaultyStep ideal inside.last locked_up
unfolding join_queue save_state
join_dies = passenger_dies 0 (omega arith) inside_joins (record {
  written = [];
  lost = Entry.state joined.shared.f_st ∷ [];
  entries = refl;
  grows = omega arith;
  stopped = rw (append-nil inside.shared.log) refl;
})

lock_lost_example :
    (locked_up.shared.sems Semaphore.mutex ≡ 0)
    × (processes_inside locked_up ≡ 0)
    × (locked_up.shared.f_st ≡ unsaved_join.f_st)
    × ((locked_up.shared.log ≡ unsaved_join.log)
        ⊎ (locked_up.shared.log
            ≡ unsaved_join.log ++ (Entry.air_lift_result unsaved_join.f_st ∷ [])))
unfolding join_dies
lock_lost_example =
    lock_lost ideal blank inside.last locked_up locked_up join_dies ideal-MayFail
      (Reach-FaultySteps inside.reach) refl here

-- The hostess cannot connect, and then a passenger cannot.
abbrev no_hostess : System
no_hostess = record (initial blank) { hostess = HostessPlace.failed }

abbrev no_passenger : System
no_passenger = record no_hostess { passenger = update no_hostess.passenger 3 PassengerPlace.failed }

hostess_gone : FaultySteps broken (initial blank) no_hostess
unfolding hostess_step
hostess_gone = further here (regular (hostess_moves refl))

passenger_gone : FaultySteps broken no_hostess no_passenger
unfolding passenger_step
passenger_gone = further here (regular (passenger_moves 3 (omega arith) refl))

unfinished_start : no_hostess.shared.f_st.finished ≡ false
unfolding start
unfinished_start = refl

hostess_needed_example :
    (no_passenger.shared.f_st.finished ≡ false)
    × (no_passenger.pilot ≢ PilotPlace.exited)
    × ((no_passenger.pilot ≡ PilotPlace.failed)
        ⊎ ((no_passenger.main ≢ MainPlace.result) × (no_passenger.main ≢ MainPlace.exited)))
hostess_needed_example =
    hostess_needed broken blank no_hostess no_passenger hostess_gone refl unfinished_start
      (ground arith) passenger_gone
