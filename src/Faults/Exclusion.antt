-- ===== src/Faults/Exclusion.antt =====
-- The mutex under failures. Each call that takes it or gives it back is tested in the source, so that a
-- process for which one fails ends.
use so_assignment2_air_bridg.Base.{ℕ, ◌+◌, ◌≡◌, ◌≤◌, refl, arith, total, total-update, ◌==◌, false}
use so_assignment2_air_bridg.Data.{FullStat, n_pass}
use so_assignment2_air_bridg.Semaphore.{SemOp, Values, done, down_buf, up_buf, gate_bufs}
use so_assignment2_air_bridg.Shared.{Shared}
use so_assignment2_air_bridg.Main.{MainPlace, main_step, start}
use so_assignment2_air_bridg.Pilot.{PilotPlace, pilot_step}
use so_assignment2_air_bridg.Hostess.{HostessPlace, hostess_step}
use so_assignment2_air_bridg.Passenger.{PassengerPlace, passenger_step}
use so_assignment2_air_bridg.System.{
  System, Step, main_moves, pilot_moves, hostess_moves, passenger_moves, Reach, begin, later,
}
use so_assignment2_air_bridg.Invariant.{
  After, After-some, pilot_inside, hostess_inside, passenger_inside, mutex_raised, mutex_raised-le,
}
use so_assignment2_air_bridg.Safety.{processes_inside}
use so_assignment2_air_bridg.Faults.{MayFail}

-- What a call that succeeds leaves of the mutex.
module _ (k : SemOp) (law : MayFail k) (v : Values) where
  down_mutex : (w : Values) → k v (down_buf 1) ≡ done w → w 1 + 1 ≡ v 1
  down_mutex w e = ground (arith, law.down_took v w 1 e)

  up_mutex : (w : Values) → k v (up_buf 1) ≡ done w → w 1 ≡ v 1 + 1
  up_mutex w e = ground (arith, law.up_added v w 1 e)

  down_other : (i : ℕ) → (i == 1) ≡ false → (w : Values) → k v (down_buf i) ≡ done w → w 1 ≡ v 1
  down_other i ne w e = ground (arith, law.down_took v w i e)

  pub up_other : (i : ℕ) → (i == 1) ≡ false → (w : Values) → k v (up_buf i) ≡ done w → w 1 ≡ v 1
  up_other i ne w e = ground (arith, law.up_added v w i e)

  gate_mutex : (w : Values) → k v gate_bufs ≡ done w → w 1 ≡ v 1
  gate_mutex w e = ground (arith, law.gate_passed v w e)

module _ (k : SemOp) (law : MayFail k) (s : Shared) where
  pub pilot_holds :
      (p : PilotPlace)
      → After (λ t q. t.sems 1 + pilot_inside q ≤ s.sems 1 + pilot_inside p) (pilot_step k p s)
  unfolding pilot_step pilot_inside
  pilot_holds PilotPlace.connect = grind (arith, gate_mutex k law s.sems)
  pilot_holds PilotPlace.signal_post = grind (arith, up_other k law s.sems 5 refl)
  pilot_holds PilotPlace.wait_down = grind (arith, down_other k law s.sems 6 refl)
  pilot_holds (PilotPlace.drop_loop j) = grind (arith, up_other k law s.sems 4 refl)
  pilot_holds PilotPlace.drop_down = grind (arith, down_other k law s.sems 8 refl)
  pilot_holds p = grind (arith, down_mutex k law s.sems, up_mutex k law s.sems)

  pub hostess_holds :
      (h : HostessPlace) (n : ℕ)
      → After
          (λ t q. t.sems 1 + hostess_inside (q.0) ≤ s.sems 1 + hostess_inside h)
          (hostess_step k h n s)
  unfolding hostess_step hostess_inside
  hostess_holds h n = grind (
    arith,
    down_mutex k law s.sems,
    up_mutex k law s.sems,
    gate_mutex k law s.sems,
    down_other k law s.sems 5 refl,
    down_other k law s.sems 2 refl,
    down_other k law s.sems 7 refl,
    up_other k law s.sems 3 refl,
    up_other k law s.sems 6 refl,
  )

  pub passenger_holds :
      (id : ℕ) (a : PassengerPlace)
      → After
          (λ t q. t.sems 1 + passenger_inside q ≤ s.sems 1 + passenger_inside a)
          (passenger_step k id a s)
  unfolding passenger_step passenger_inside
  passenger_holds id a = grind (
    arith,
    down_mutex k law s.sems,
    up_mutex k law s.sems,
    gate_mutex k law s.sems,
    down_other k law s.sems 3 refl,
    down_other k law s.sems 4 refl,
    up_other k law s.sems 2 refl,
    up_other k law s.sems 7 refl,
    up_other k law s.sems 8 refl,
  )

  pub main_holds :
      (e : ℕ) (m : MainPlace) (x : ℕ)
      → s.sems 1 + x ≤ mutex_raised m
      → After (λ t q. t.sems 1 + x ≤ mutex_raised q) (main_step k e m s)
  unfolding main_step mutex_raised
  main_holds e m x h = grind (arith, up_mutex k law s.sems, up_other k law s.sems 0 refl)

-- The mutex and the processes inside account for one, once `main` has raised it.
unfoldable pub Held : System → Type 0
Held s = s.shared.sems 1 + processes_inside s ≤ mutex_raised s.main

pub Step-Held : {k : SemOp} {s t : System} → MayFail k → Step k s t → Held s → Held t
unfolding Held
Step-Held {k} {s} law (main_moves e) h =
    After-some _ _ (main_holds k law s.shared _ s.main (processes_inside s) h) e
Step-Held {k} {s} law (pilot_moves e) h =
    omega (arith, h, After-some _ _ (pilot_holds k law s.shared s.pilot) e)
Step-Held {k} {s} law (hostess_moves e) h =
    omega (arith, h, After-some _ _ (hostess_holds k law s.shared s.hostess s.n_checked) e)
Step-Held {k} {s} law (passenger_moves {p} i lt e) h = omega (
  arith,
  h,
  After-some _ _ (passenger_holds k law s.shared i (s.passenger i)) e,
  total-update passenger_inside s.passenger p n_pass i lt,
)

pub Reach-Held : {k : SemOp} {f : FullStat} {s : System} → MayFail k → Reach k f s → Held s
unfolding Held start pilot_inside hostess_inside passenger_inside mutex_raised total
Reach-Held law begin = omega arith
Reach-Held law (later r st) = Step-Held law st (Reach-Held law r)

-- Mutual exclusion survives failures: at most one process is between a `semDown` and the next `semUp` of
-- the mutex in every reachable state, also when calls of `semop` fail, as long as a call that succeeds
-- has the documented effect.
pub exclusion_survives :
    (k : SemOp) (f : FullStat) (s : System) → MayFail k → Reach k f s → processes_inside s ≤ 1
unfolding Held
exclusion_survives k f s law r = omega (arith, Reach-Held law r, mutex_raised-le s.main)
