-- ===== src/Progress.antt =====
-- Progress: no reachable state of the simulation is a deadlock.
mod Ready
mod Deadlock
use so_assignment2_air_bridg.Base.{
  ℕ, ◌+◌, ◌≡◌, ◌<◌, true, refl, arith, ltb, Bool-cases, ◌⊎◌, inl, inr, find, total, total_ones,
}
use so_assignment2_air_bridg.Data.{FullStat, n_pass}
use so_assignment2_air_bridg.Semaphore.{SemOp, IsSemOp}
use so_assignment2_air_bridg.Semaphore.Ideal.{ideal}
use so_assignment2_air_bridg.Shared.{Shared}
use so_assignment2_air_bridg.Pilot.{PilotPlace}
use so_assignment2_air_bridg.Hostess.{HostessPlace}
use so_assignment2_air_bridg.Passenger.{PassengerPlace}
use so_assignment2_air_bridg.Main.{MainPlace, main_step, wait_loop}
use so_assignment2_air_bridg.System.{System, Step, Reach, exits, passenger_ended}
use so_assignment2_air_bridg.System
use so_assignment2_air_bridg.Invariant.{
  SystemInv, Inv-IsLow, Step-of_ideal, Reach-Inv, mutex_raised, gate_opened, MainRuns, IsLow,
}
use Ready.{
  Moves, pilot_ready, hostess_ready, passenger_ready, pilot-Moves, hostess-Moves, passenger-Moves,
  up-Moves,
}
use Deadlock.{all_left}

-- The children have left through the end of their `main`.
pub record ChildrenDone (s : System) : Type 0 where
  pub pilot_done : s.pilot ≡ PilotPlace.exited
  pub hostess_done : s.hostess ≡ HostessPlace.exited
  pub passengers_done : (j : ℕ) → j < n_pass → s.passenger j ≡ PassengerPlace.exited

-- All processes have.
pub record AllDone (s : System) : Type 0 where
  pub children : ChildrenDone s
  pub main_done : s.main ≡ MainPlace.exited

ChildrenDone-exits : (s : System) → ChildrenDone s → exits s ≡ n_pass + 2
unfolding exits
ChildrenDone-exits s d =
    let all : total passenger_ended n_pass s.passenger ≡ n_pass =
      total_ones passenger_ended n_pass s.passenger (λ j lt. rw (d.passengers_done j lt)) in
    rw (d.pilot_done, d.hostess_done) (omega arith)

-- `main` can move before it has opened the gate, and when all children have left.
main_opens :
    (m : MainPlace) (e : ℕ) (s : Shared)
    → IsLow s.sems
    → MainRuns m
    → Moves (main_step ideal e m s) ⊎ ((mutex_raised m ≡ 1) × (gate_opened m ≡ 1))
unfolding main_step mutex_raised gate_opened MainRuns
main_opens MainPlace.enable e s low r = inl (up-Moves _ _ _ 1 (omega arith))
main_opens MainPlace.signal e s low r = inl (up-Moves _ _ _ 0 (omega arith))
main_opens MainPlace.failed e s low r = absurd r
main_opens _ e s low r = inr (refl, refl)

main_ends :
    (m : MainPlace) (s : Shared)
    → IsLow s.sems
    → MainRuns m
    → Moves (main_step ideal (n_pass + 2) m s) ⊎ (m ≡ MainPlace.exited)
unfolding main_step MainRuns
main_ends MainPlace.enable s low r = inl (up-Moves _ _ _ 1 (omega arith))
main_ends MainPlace.signal s low r = inl (up-Moves _ _ _ 0 (omega arith))
main_ends (MainPlace.waiting k) s low r =
    let e : ltb k (n_pass + 2) ≡ true = ground arith in inl (s, wait_loop (k + 1), rw e)
main_ends MainPlace.result s low r = inl (_, _, refl)
main_ends MainPlace.exited s low r = inr refl
main_ends MainPlace.failed s low r = absurd r

-- When the children have left, `main` goes on to its end.
main_last :
    (s : System)
    → SystemInv s
    → (s.pilot ≡ PilotPlace.exited)
      × (s.hostess ≡ HostessPlace.exited)
      × ((j : ℕ) → j < n_pass → s.passenger j ≡ PassengerPlace.exited)
    → ((t : System) × Step ideal s t) ⊎ AllDone s
main_last s i (p, h, f) =
    let d : ChildrenDone s = record { pilot_done = p; hostess_done = h; passengers_done = f } in
    elim (main_ends s.main s.shared (Inv-IsLow i) i.main_runs) [
      | inl (t, q, e) ↦ inl (_, System.main_moves {t = t} {p = q} (rw (ChildrenDone-exits s d) e))
      | inr e ↦ inr (record { children = d; main_done = e })
    ]

-- Somebody can move, or all have left.
ideal_progress : (s : System) → SystemInv s → ((t : System) × Step ideal s t) ⊎ AllDone s
ideal_progress s i = elim (main_opens s.main (exits s) s.shared (Inv-IsLow i) i.main_runs) [
  | inl (t, p, e) ↦ inl (_, System.main_moves e)
  | inr (raised, opened) ↦ elim (find (passenger_ready s.shared.sems) n_pass s.passenger) [
    | inl (j, lt, r) ↦
        let (t, p, e) = passenger-Moves s.shared (Inv-IsLow i) j (s.passenger j) r in
        inl (_, System.passenger_moves j lt e)
    | inr stuck ↦ elim (Bool-cases (pilot_ready s.shared.sems s.pilot)) [
      | inl r ↦
          let (t, p, e) = pilot-Moves s.shared (Inv-IsLow i) s.pilot r in
          inl (_, System.pilot_moves e)
      | inr pilot_stuck ↦ elim (Bool-cases (hostess_ready s.shared.sems s.hostess)) [
        | inl r ↦
            let (t, p, e) = hostess-Moves s.shared (Inv-IsLow i) s.hostess s.n_checked r in
            inl (_, System.hostess_moves e)
        | inr hostess_stuck ↦
            main_last s i (
              all_left s.passenger i (omega (arith, i.gate)) raised pilot_stuck hostess_stuck stuck)
      ]
    ]
  ]
]

-- In every reachable state some process can make a step, unless `main` and all its children have
-- come to the end of their programs: the simulation never deadlocks, whatever the scheduler does,
-- if `semop` behaves as documented.
pub no_deadlock :
    (k : SemOp) (f : FullStat) (s : System)
    → IsSemOp k
    → Reach k f s
    → ((t : System) × Step k s t) ⊎ AllDone s
no_deadlock k f s law r = elim (ideal_progress s (Reach-Inv law r)) [
  | inl (t, st) ↦ inl (t, Step-of_ideal law st (Reach-Inv law r))
  | inr d ↦ inr d
]
