-- ===== src/Tests/Midway.antt =====
-- The theorems at states before the end: a passenger in the critical section, and a plane about to take off.
use so_assignment2_air_bridg.Base.{
  arith, ℕ, ◌+◌, ◌-◌, ◌==◌, some, update, ◌≡◌, ◌≤◌, refl, ◌⊎◌, [], ◌∷◌, false, true,
}
use so_assignment2_air_bridg.Data.{n_pass, min_fc, max_fc}
use so_assignment2_air_bridg.Semaphore.Ideal.{ideal, ideal-IsSemOp, ideal-down}
use so_assignment2_air_bridg.Pilot.{PilotPlace, pilot_step}
use so_assignment2_air_bridg.Shared.{Shared}
use so_assignment2_air_bridg.System.{System, Step, main_moves, pilot_moves, initial}
use so_assignment2_air_bridg.Invariant.{counts}
use so_assignment2_air_bridg.Progress.{AllDone, no_deadlock}
use so_assignment2_air_bridg.Termination.{
  Steps, none_made, one_more, max_steps, run_finite, always_completes,
}
use so_assignment2_air_bridg.Safety.{
  processes_inside, in_air, mutual_exclusion, flight_rules, counters_exact,
}
use so_assignment2_air_bridg.LastFlight.{waits_to_land}
use so_assignment2_air_bridg.Sealed.{SamePlane, flight_sealed}
use so_assignment2_air_bridg.Schedule.{Who, run}
use so_assignment2_air_bridg.Tests.{blank, born, air, air_places, air_in_air, inside}

mutual_exclusion_example : processes_inside inside.last ≤ 1
mutual_exclusion_example = mutual_exclusion ideal blank inside.last ideal-IsSemOp inside.reach

no_deadlock_example : ((t : System) × Step ideal inside.last t) ⊎ AllDone inside.last
no_deadlock_example = no_deadlock ideal blank inside.last ideal-IsSemOp inside.reach

always_completes_example : (m : ℕ) × (t : System) × Steps ideal air.last m t × AllDone t
always_completes_example = always_completes ideal blank air.last ideal-IsSemOp air.reach

-- The first step of all: `main` raises the mutex.
first_step : Steps ideal (initial blank) 1 (run born (Who.main ∷ [])).last
unfolding run
first_step = one_more none_made (main_moves refl)

run_finite_example : 1 ≤ max_steps
run_finite_example =
    run_finite ideal blank 1 (run born (Who.main ∷ [])).last ideal-IsSemOp first_step

flight_rules_example :
    let a = air.shared.f_st.n_pass_in_flight in
    (a ≤ max_fc)
    × (in_air air.pilot ≡ true
        → (1 ≤ a) × ((min_fc ≤ a) ⊎ (air.shared.f_st.total_pass_boarded ≡ n_pass)))
flight_rules_example = flight_rules ideal blank air.last ideal-IsSemOp air.reach

counters_exact_example :
    let g = air.shared.f_st in
    (g.n_pass_in_queue + g.total_pass_boarded ≡ (counts air.passenger).joined)
    × (g.n_pass_in_flight + (counts air.passenger).left ≡ g.total_pass_boarded)
    × (g.total_pass_boarded ≤ n_pass)
counters_exact_example = counters_exact ideal blank air.last ideal-IsSemOp air.reach

air_mutex : (air.shared.sems 1 == 0) ≡ false
unfolding run
air_mutex = refl

-- The pilot takes the mutex.
abbrev taken : Shared
taken = record air.shared { sems = update air.shared.sems 1 (air.shared.sems 1 - 1) }

pilot_enters : pilot_step ideal air.pilot air.shared ≡ some (taken, PilotPlace.flight_body true)
unfolding pilot_step
pilot_enters = rw (air_places.0) (rw (ideal-down, air_mutex))

abbrev entered : System
entered = record air.last { shared = taken; pilot = PilotPlace.flight_body true }

flight_sealed_example :
    SamePlane air.shared taken
    × (waits_to_land (entered.passenger 4) ≡ waits_to_land (air.passenger 4))
flight_sealed_example =
    flight_sealed ideal blank air.last entered 4 ideal-IsSemOp air.reach air_in_air
      (pilot_moves pilot_enters) (omega arith)
