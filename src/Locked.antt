-- ===== src/Locked.antt =====
-- Who changes the record and the log (`sh->fSt` and the saving functions): the processes of
-- src/semSharedMemPilot.c, src/semSharedMemHostess.c and src/semSharedMemPassenger.c, and `main` of
-- src/probSemSharedMemAirLift.c, and what the mutex is then.
use so_assignment2_air_bridg.Base.{ℕ, ◌≤◌, total-own, ◌≡◌, ◌⊎◌, inl, inr, arith}
use so_assignment2_air_bridg.Data.{FullStat, n_pass}
use so_assignment2_air_bridg.Semaphore
use so_assignment2_air_bridg.Semaphore.{SemOp}
use so_assignment2_air_bridg.Shared.{Shared}
use so_assignment2_air_bridg.Main.{MainPlace, main_step, write_result}
use so_assignment2_air_bridg.Pilot.{PilotPlace, pilot_step}
use so_assignment2_air_bridg.Hostess.{HostessPlace, hostess_step}
use so_assignment2_air_bridg.Passenger.{PassengerPlace, passenger_step}
use so_assignment2_air_bridg.System.{
  System, Step, main_moves, pilot_moves, hostess_moves, passenger_moves, Reach,
}
use so_assignment2_air_bridg.Invariant.{
  After, After-some, pilot_inside, hostess_inside, passenger_inside, mutex_raised-le,
}
use so_assignment2_air_bridg.Safety.{processes_inside}
use so_assignment2_air_bridg.Faults.{MayFail}
use so_assignment2_air_bridg.Faults.Exclusion.{Held, Reach-Held}

-- 1 if the place of the process that makes the step is one of those that the code has behind a `semDown`
-- of the mutex and before the next `semUp`. (It says nothing of the mutex itself.)
abbrev pub mover_inside : {k : SemOp} {s t : System} → Step k s t → ℕ
mover_inside (main_moves e) = 0
mover_inside {s} (pilot_moves e) = pilot_inside s.pilot
mover_inside {s} (hostess_moves e) = hostess_inside s.hostess
mover_inside {s} (passenger_moves i lt e) = passenger_inside (s.passenger i)

-- Neither the record nor the log changes.
pub record SameData (s t : Shared) : Type 0 where
  pub record_kept : t.f_st ≡ s.f_st
  pub log_kept : t.log ≡ s.log

module _ (k : SemOp) (s : Shared) where
  main_writes :
      (e : ℕ) (m : MainPlace)
      → After
          (λ t _. SameData s t ⊎ ((m ≡ MainPlace.result) × (t.f_st ≡ s.f_st)))
          (main_step k e m s)
  unfolding main_step write_result
  main_writes e m = ground arith

  pilot_writes :
      (p : PilotPlace) → After (λ t _. SameData s t ⊎ (pilot_inside p ≡ 1)) (pilot_step k p s)
  unfolding pilot_step pilot_inside
  pilot_writes p = ground arith

  hostess_writes :
      (h : HostessPlace) (n : ℕ)
      → After (λ t _. SameData s t ⊎ (hostess_inside h ≡ 1)) (hostess_step k h n s)
  unfolding hostess_step hostess_inside
  hostess_writes h n = ground arith

  passenger_writes :
      (id : ℕ) (a : PassengerPlace)
      → After (λ t _. SameData s t ⊎ (passenger_inside a ≡ 1)) (passenger_step k id a s)
  unfolding passenger_step passenger_inside
  passenger_writes id a = ground arith

or_inside : {A B C : Type 0} → A ⊎ B → A ⊎ (B ⊎ C)
or_inside (inl same) = inl same
or_inside (inr inside) = inr (inl inside)

writer_inside :
    {k : SemOp} {s t : System} (st : Step k s t)
    → SameData s.shared t.shared
      ⊎ ((mover_inside st ≡ 1) ⊎ ((s.main ≡ MainPlace.result) × (t.shared.f_st ≡ s.shared.f_st)))
writer_inside {k} {s} (main_moves e) = elim (After-some _ _ (main_writes k s.shared _ s.main) e) [
  | inl same ↦ inl same
  | inr result ↦ inr (inr result)
]
writer_inside {k} {s} (pilot_moves e) =
    or_inside (After-some _ _ (pilot_writes k s.shared s.pilot) e)
writer_inside {k} {s} (hostess_moves e) =
    or_inside (After-some _ _ (hostess_writes k s.shared s.hostess s.n_checked) e)
writer_inside {k} {s} (passenger_moves i lt e) =
    or_inside (After-some _ _ (passenger_writes k s.shared i (s.passenger i)) e)

mover_inside-processes_inside :
    {k : SemOp} {s t : System} (st : Step k s t) → mover_inside st ≤ processes_inside s
unfolding pilot_inside hostess_inside passenger_inside
mover_inside-processes_inside (main_moves e) = omega arith
mover_inside-processes_inside (pilot_moves e) = omega arith
mover_inside-processes_inside (hostess_moves e) = omega arith
mover_inside-processes_inside {s} (passenger_moves i lt e) =
    omega (arith, total-own passenger_inside n_pass s.passenger i lt)

-- The process has the mutex, and no other is inside.
holds_it :
    (s : System) (m : ℕ)
    → Held s
    → m ≤ processes_inside s
    → m ≡ 1
    → (s.shared.sems Semaphore.mutex ≡ 0) × (processes_inside s ≡ 1)
unfolding Held
holds_it s m held le one = (
  omega (arith, held, le, one, mutex_raised-le s.main),
  omega (arith, held, le, one, mutex_raised-le s.main),
)

-- If a call of `semop` that succeeds has the documented effect, then a step from a reachable state leaves
-- the record and the log as they are, unless the process that makes it is inside a critical section
-- and holds the mutex, which is down and which no other process holds; or it is the step of `main`
-- that writes the result, which leaves the record as it is. Calls of `semop` may fail at any time.
pub writes_locked :
    (k : SemOp) (f : FullStat) (s t : System)
    → MayFail k
    → Reach k f s
    → (st : Step k s t)
    → SameData s.shared t.shared
      ⊎ (((mover_inside st ≡ 1) × (s.shared.sems Semaphore.mutex ≡ 0) × (processes_inside s ≡ 1))
          ⊎ ((s.main ≡ MainPlace.result) × (t.shared.f_st ≡ s.shared.f_st)))
writes_locked k f s t law r st = elim (writer_inside st) [
  | inl same ↦ inl same
  | inr (inr result) ↦ inr (inr result)
  | inr (inl inside) ↦
      let (down, alone) =
        holds_it s (mover_inside st) (Reach-Held law r) (mover_inside-processes_inside st) inside in
      inr (inl (inside, down, alone))
]
