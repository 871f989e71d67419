-- ===== src/Faults/Saving/Effects.antt =====
-- The steps that save: they are made inside a critical section, or by `main` for the result, and change no
-- semaphore.
use so_assignment2_air_bridg.Base.{ℕ, ◌≡◌, ◌⊎◌, arith, [], ◌∷◌, ◌++◌}
use so_assignment2_air_bridg.Semaphore.{SemOp}
use so_assignment2_air_bridg.Logging.{Entry, save_air_lift_result}
use so_assignment2_air_bridg.Shared.{Shared}
use so_assignment2_air_bridg.Main.{MainPlace, main_step, write_result}
use so_assignment2_air_bridg.Pilot.{PilotPlace, pilot_step}
use so_assignment2_air_bridg.Hostess.{HostessPlace, hostess_step}
use so_assignment2_air_bridg.Passenger.{PassengerPlace, passenger_step}
use so_assignment2_air_bridg.Invariant.{After, pilot_inside, hostess_inside, passenger_inside}
use so_assignment2_air_bridg.Locked.{SameData}

-- Nothing is saved, or it is saved inside (`inside` is 1) and the semaphores stay as they are.
pub data Saves (inside : ℕ) (s t : Shared) : Type 0 where
  silent : SameData s t → Saves inside s t
  saving : inside ≡ 1 → t.sems ≡ s.sems → Saves inside s t

module _ (k : SemOp) (s : Shared) where
  pub pilot-Saves : (p : PilotPlace) → After (λ t _. Saves (pilot_inside p) s t) (pilot_step k p s)
  unfolding pilot_step pilot_inside
  pilot-Saves p = ground arith

  pub hostess-Saves :
      (h : HostessPlace) (n : ℕ)
      → After (λ t _. Saves (hostess_inside h) s t) (hostess_step k h n s)
  unfolding hostess_step hostess_inside
  hostess-Saves h n = ground arith

  pub passenger-Saves :
      (id : ℕ) (a : PassengerPlace)
      → After (λ t _. Saves (passenger_inside a) s t) (passenger_step k id a s)
  unfolding passenger_step passenger_inside
  passenger-Saves id a = ground arith

  -- `main` saves the result.
  pub main-Saves :
      (e : ℕ) (m : MainPlace)
      → After
          (λ t q.
            SameData s t
            ⊎ ((q ≡ MainPlace.exited)
                × (t ≡ record s { log = s.log ++ (Entry.air_lift_result s.f_st ∷ []) })))
          (main_step k e m s)
  unfolding main_step write_result save_air_lift_result
  main-Saves e m = ground arith
