-- ===== src/LastEntry.antt =====
-- The log keeps up with the shared record (src/logging.c): the last state saved is the present one.
use so_assignment2_air_bridg.Base.{
  ℕ, ◌≡◌, ◌⊎◌, refl, inr, arith, Bool, true, false, [], ◌∷◌, ◌++◌, Option, some, none,
}
use so_assignment2_air_bridg.Data.{FullStat}
use so_assignment2_air_bridg.Semaphore
use so_assignment2_air_bridg.Semaphore.{SemOp}
use so_assignment2_air_bridg.Logging.{
  Entry, Log, save_state, save_start_boarding, save_passenger_checked, save_flight_departed,
  save_flight_arrived, save_flight_returning, save_air_lift_result, create_log,
}
use so_assignment2_air_bridg.Shared.{Shared}
use so_assignment2_air_bridg.Pilot.{PilotPlace, pilot_step}
use so_assignment2_air_bridg.Hostess.{HostessPlace, hostess_step}
use so_assignment2_air_bridg.Passenger.{PassengerPlace, passenger_step}
use so_assignment2_air_bridg.Main.{MainPlace, main_step, initialise, start}
use so_assignment2_air_bridg.System.{
  System, Step, main_moves, pilot_moves, hostess_moves, passenger_moves, Reach, begin, later, exits,
}
use so_assignment2_air_bridg.Invariant.{After, After-some, pilot_inside, mutex_raised-le}
use so_assignment2_air_bridg.Faults.{MayFail}
use so_assignment2_air_bridg.Faults.Exclusion.{Held, Reach-Held}

-- The state in the last entry that is a full state.
unfoldable pub last_state : Log → Option FullStat
last_state [] = none
last_state (Entry.state f ∷ es) = elim (last_state es) [ some g ↦ some g | none ↦ some f ]
last_state (_ ∷ es) = last_state es

last_state-save_state : (f : FullStat) (l : Log) → last_state (save_state f l) ≡ some f
unfolding last_state save_state
last_state-save_state f [] = refl
last_state-save_state f (Entry.state g ∷ es) = rw (last_state-save_state f es) refl
last_state-save_state f (e ∷ es) = last_state-save_state f es

is_state : Entry → Bool
is_state (Entry.state _) = true
is_state _ = false

last_state-append :
    (l : Log) (e : Entry) → is_state e ≡ false → last_state (l ++ (e ∷ [])) ≡ last_state l
unfolding last_state is_state
last_state-append [] e h = ground arith
last_state-append (Entry.state g ∷ es) e h = rw (last_state-append es e h) refl
last_state-append (_ ∷ es) e h = last_state-append es e h

-- The other saving functions leave the last state as it was.
module _ (f : FullStat) (l : Log) where
  last_state-save_start_boarding : last_state (save_start_boarding f l) ≡ last_state l
  unfolding save_start_boarding is_state
  last_state-save_start_boarding = last_state-append l (Entry.start_boarding f) refl

  last_state-save_passenger_checked : last_state (save_passenger_checked f l) ≡ last_state l
  unfolding save_passenger_checked is_state
  last_state-save_passenger_checked = last_state-append l (Entry.passenger_checked f) refl

  last_state-save_flight_departed : last_state (save_flight_departed f l) ≡ last_state l
  unfolding save_flight_departed is_state
  last_state-save_flight_departed = last_state-append l (Entry.flight_departed f) refl

  last_state-save_flight_arrived : last_state (save_flight_arrived f l) ≡ last_state l
  unfolding save_flight_arrived is_state
  last_state-save_flight_arrived = last_state-append l (Entry.flight_arrived f) refl

  last_state-save_flight_returning : last_state (save_flight_returning f l) ≡ last_state l
  unfolding save_flight_returning is_state
  last_state-save_flight_returning = last_state-append l (Entry.flight_returning f) refl

  last_state-save_air_lift_result : last_state (save_air_lift_result f l) ≡ last_state l
  unfolding save_air_lift_result is_state
  last_state-save_air_lift_result = last_state-append l (Entry.air_lift_result f) refl

-- While the pilot opens the doors, the record differs from the last state saved.
unfoldable pub unsaved : PilotPlace → Bool
unsaved (PilotPlace.drop_loop _) = true
unsaved PilotPlace.drop_save = true
unsaved _ = false

-- The last state saved is the present one; before the first one is saved, the record is as `main` has
-- initialised it.
unfoldable pub KeepsUp : FullStat → Shared → Type 0
KeepsUp f s =
    (last_state s.log ≡ some s.f_st) ⊎ ((last_state s.log ≡ none) × (s.f_st ≡ initialise f))

module _ (f : FullStat) (k : SemOp) (s : Shared) where
  main_logs : (e : ℕ) (m : MainPlace) → KeepsUp f s → After (λ t _. KeepsUp f t) (main_step k e m s)
  unfolding main_step KeepsUp
  main_logs e m h = grind (arith, last_state-save_air_lift_result)

  pilot_logs :
      (p : PilotPlace)
      → (unsaved p ≡ false → KeepsUp f s)
      → After (λ t q. unsaved q ≡ false → KeepsUp f t) (pilot_step k p s)
  unfolding pilot_step unsaved KeepsUp
  pilot_logs p h = grind (
    arith, last_state-save_state, last_state-save_start_boarding, last_state-save_flight_arrived,
    last_state-save_flight_returning,
  )

  hostess_logs :
      (h : HostessPlace) (n : ℕ) → KeepsUp f s → After (λ t _. KeepsUp f t) (hostess_step k h n s)
  unfolding hostess_step KeepsUp
  hostess_logs h n e = grind (
    arith, last_state-save_state, last_state-save_passenger_checked,
    last_state-save_flight_departed,
  )

  passenger_logs :
      (id : ℕ) (a : PassengerPlace)
      → KeepsUp f s
      → After (λ t _. KeepsUp f t) (passenger_step k id a s)
  unfolding passenger_step KeepsUp
  passenger_logs id a e = grind (arith, last_state-save_state)

Step-KeepsUp :
    (f : FullStat) {k : SemOp} {s t : System}
    → Step k s t
    → (unsaved s.pilot ≡ false → KeepsUp f s.shared)
    → unsaved t.pilot ≡ false
    → KeepsUp f t.shared
Step-KeepsUp f {k} {s} (main_moves e) h q =
    After-some _ _ (main_logs f k s.shared (exits s) s.main (h q)) e
Step-KeepsUp f {k} {s} (pilot_moves e) h q = After-some _ _ (pilot_logs f k s.shared s.pilot h) e q
Step-KeepsUp f {k} {s} (hostess_moves e) h q =
    After-some _ _ (hostess_logs f k s.shared s.hostess s.n_checked (h q)) e
Step-KeepsUp f {k} {s} (passenger_moves i lt e) h q =
    After-some _ _ (passenger_logs f k s.shared i (s.passenger i) (h q)) e

Reach-KeepsUp :
    {k : SemOp} {f : FullStat} {s : System}
    → Reach k f s
    → unsaved s.pilot ≡ false
    → KeepsUp f s.shared
unfolding KeepsUp last_state start create_log
Reach-KeepsUp begin q = inr (refl, refl)
Reach-KeepsUp {f} (later r st) q = Step-KeepsUp f st (Reach-KeepsUp r) q

outside-unsaved : (p : PilotPlace) → pilot_inside p ≡ 0 → unsaved p ≡ false
unfolding unsaved pilot_inside
outside-unsaved p h = ground arith

-- Nobody is inside a critical section while the mutex is up.
free-unsaved : (s : System) → Held s → s.shared.sems Semaphore.mutex ≡ 1 → unsaved s.pilot ≡ false
unfolding Held
free-unsaved s held free =
    outside-unsaved s.pilot (omega (arith, held, free, mutex_raised-le s.main))

-- If a call of `semop` that succeeds has the documented effect, then in every reachable state in which
-- the mutex is up, the last state saved in the log is the present one, or no state is saved yet
-- and the record is as `main` has initialised it. So the log is up to date for every process that takes the
-- mutex. Calls of `semop` may fail at any time.
pub log-KeepsUp :
    (k : SemOp) (f : FullStat) (s : System)
    → MayFail k
    → Reach k f s
    → s.shared.sems Semaphore.mutex ≡ 1
    → KeepsUp f s.shared
log-KeepsUp k f s law r free = Reach-KeepsUp r (free-unsaved s (Reach-Held law r) free)
