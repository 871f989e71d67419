-- ===== src/Invariant/Mains.antt =====
-- A step of `main` keeps the invariant, and the invariant holds at the start.
use so_assignment2_air_bridg.Base.{
  ℕ, ◌+◌, ◌≡◌, refl, arith, ltb, Bool-cases, inl, inr, total, leb, false,
}
use so_assignment2_air_bridg.Data.{FullStat, n_pass}
use so_assignment2_air_bridg.Semaphore.Ideal.{ideal}
use so_assignment2_air_bridg.Shared.{Shared}
use so_assignment2_air_bridg.Pilot.{PilotPlace}
use so_assignment2_air_bridg.Hostess.{HostessPlace}
use so_assignment2_air_bridg.Passenger.{PassengerPlace}
use so_assignment2_air_bridg.Main.{MainPlace, main_step, start}
use so_assignment2_air_bridg.System.{initial}
use so_assignment2_air_bridg.Invariant.Places.{
  Counts, counts, is_pending, is_broken, passenger_inside, pilot_inside, pilot_awaiting, let_out,
  emptied, PilotPlane, PilotFlag, hostess_inside, hostess_accepted, hostess_called, hostess_seen,
  hostess_counted, hostess_boarding, HostessPlane, HostessCount, HostessFlag, mutex_raised,
  gate_opened, MainRuns,
}
use so_assignment2_air_bridg.Invariant.Defs.{Inv, SystemInv}
use so_assignment2_air_bridg.Invariant.Turns.{After, up_turn}

module _ (p : PilotPlace) (h : HostessPlace) (n : ℕ) (c : Counts) (s : Shared) (exits : ℕ) where
  pub main-Inv :
      (m : MainPlace) → Inv m p h n c s → After (λ t q. Inv q p h n c t) (main_step ideal exits m s)
  unfolding main_step mutex_raised gate_opened MainRuns
  main-Inv MainPlace.enable i = up_turn _ _ _ _ 1 (omega arith) (ground arith)
  main-Inv MainPlace.signal i = up_turn _ _ _ _ 0 (omega arith) (ground arith)
  main-Inv (MainPlace.waiting k) i = elim (Bool-cases (ltb k exits)) [
    | inl e ↦ elim (Bool-cases (ltb (k + 1) (n_pass + 2))) [
      | inl f ↦ rw (e, f) (ground arith)
      | inr f ↦ rw (e, f) (ground arith)
    ]
    | inr e ↦ let left : leb (n_pass + 2) k ≡ false = ground (arith, i.main_runs) in rw (e, left) tt
  ]
  main-Inv MainPlace.result i = ground arith
  main-Inv MainPlace.exited i = tt
  main-Inv MainPlace.failed i = tt

abbrev none_moved : Counts
none_moved = record {
  joined = 0;
  posted = 0;
  called = 0;
  shown = 0;
  freed = 0;
  left = 0;
  pending = 0;
  inside = 0;
  broken = 0;
}

-- Before the first step nobody has done anything.
counts-connect : counts (λ _. PassengerPlace.connect) ≡ none_moved
unfolding total is_pending is_broken passenger_inside
counts-connect = refl

pub initial-Inv : (f : FullStat) → SystemInv (initial f)
unfolding start pilot_inside pilot_awaiting let_out emptied PilotPlane PilotFlag hostess_inside
    hostess_accepted hostess_called hostess_seen hostess_counted hostess_boarding HostessPlane
    HostessCount HostessFlag mutex_raised gate_opened MainRuns
initial-Inv f = rw counts-connect (ground arith)
