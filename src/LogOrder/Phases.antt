-- ===== src/LogOrder/Phases.antt =====
-- The order of the entries in the log, and what a step of each process adds to it.
use so_assignment2_air_bridg.Base.{
  ℕ, ◌+◌, ◌≡◌, ◌≢◌, ◌⊎◌, refl, [], ◌∷◌, ◌++◌, arith, Bool, ◌&&◌, ◌||◌, Option, none, some, ltb, leb,
  ◌==◌, if◌then◌else◌,
}
use so_assignment2_air_bridg.Data.{FullStat, n_pass, min_fc, max_fc}
use so_assignment2_air_bridg.Semaphore.{SemOp}
use so_assignment2_air_bridg.Logging.{
  Entry, Log, create_log, save_state, save_start_boarding, save_passenger_checked,
  save_flight_departed, save_flight_arrived, save_flight_returning, save_air_lift_result,
}
use so_assignment2_air_bridg.Shared.{Shared}
use so_assignment2_air_bridg.Pilot.{PilotPlace, pilot_step}
use so_assignment2_air_bridg.Hostess.{HostessPlace, hostess_step}
use so_assignment2_air_bridg.Passenger.{PassengerPlace, passenger_step}
use so_assignment2_air_bridg.Main.{MainPlace, main_step}
use so_assignment2_air_bridg.Invariant.{After}

-- Where the plane is, as the log says; while it is boarded, with the number of passengers checked.
pub data Phase : Type 0 where
  on_ground : Phase
  boarding : ℕ → Phase
  flying_out unloading : Phase

-- `n` passengers are enough, if `total` have boarded in all.
unfoldable pub enough : ℕ → ℕ → Bool
enough n total = ltb 0 n && (leb min_fc n || total == n_pass)

-- The entry that may come next, and the phase behind it.
unfoldable pub next : Phase → Entry → Option Phase
next ph Entry.created = some ph
next ph (Entry.state f) = some ph
next on_ground (Entry.start_boarding f) = some (boarding 0)
next (boarding n) (Entry.passenger_checked f) =
    if ltb n max_fc then some (boarding (n + 1)) else none
next (boarding n) (Entry.flight_departed f) =
    if enough n f.total_pass_boarded then some flying_out else none
next flying_out (Entry.flight_arrived f) = some unloading
next unloading (Entry.flight_returning f) = some on_ground
next on_ground (Entry.air_lift_result f) = some on_ground
next _ _ = none

unfoldable pub next_phase : Option Phase → Entry → Option Phase
next_phase none e = none
next_phase (some ph) e = next ph e

unfoldable pub follow : Option Phase → Log → Option Phase
follow ph [] = ph
follow ph (e ∷ es) = follow (next_phase ph e) es

-- The phase behind a whole log, if its entries are in order.
pub phase_of : Log → Option Phase
phase_of l = follow (some on_ground) l

follow-append :
    (ph : Option Phase) (l : Log) (e : Entry)
    → follow ph (l ++ (e ∷ [])) ≡ next_phase (follow ph l) e
unfolding follow
follow-append ph [] e = refl
follow-append ph (x ∷ l) e = follow-append (next_phase ph x) l e

next_phase-state : (ph : Option Phase) (f : FullStat) → next_phase ph (Entry.state f) ≡ ph
unfolding next_phase next
next_phase-state none f = refl
next_phase-state (some ph) f = refl

pub phase_of-create_log : phase_of create_log ≡ some on_ground
unfolding phase_of create_log follow next_phase next
phase_of-create_log = refl

module _ (f : FullStat) (l : Log) where
  pub phase_of-save_state : phase_of (save_state f l) ≡ phase_of l
  unfolding phase_of save_state
  phase_of-save_state =
      rw (follow-append (some on_ground) l (Entry.state f)) (next_phase-state (phase_of l) f)

  pub phase_of-save_start_boarding :
      phase_of (save_start_boarding f l) ≡ next_phase (phase_of l) (Entry.start_boarding f)
  unfolding phase_of save_start_boarding
  phase_of-save_start_boarding = follow-append (some on_ground) l (Entry.start_boarding f)

  pub phase_of-save_passenger_checked :
      phase_of (save_passenger_checked f l) ≡ next_phase (phase_of l) (Entry.passenger_checked f)
  unfolding phase_of save_passenger_checked
  phase_of-save_passenger_checked = follow-append (some on_ground) l (Entry.passenger_checked f)

  pub phase_of-save_flight_departed :
      phase_of (save_flight_departed f l) ≡ next_phase (phase_of l) (Entry.flight_departed f)
  unfolding phase_of save_flight_departed
  phase_of-save_flight_departed = follow-append (some on_ground) l (Entry.flight_departed f)

  pub phase_of-save_flight_arrived :
      phase_of (save_flight_arrived f l) ≡ next_phase (phase_of l) (Entry.flight_arrived f)
  unfolding phase_of save_flight_arrived
  phase_of-save_flight_arrived = follow-append (some on_ground) l (Entry.flight_arrived f)

  pub phase_of-save_flight_returning :
      phase_of (save_flight_returning f l) ≡ next_phase (phase_of l) (Entry.flight_returning f)
  unfolding phase_of save_flight_returning
  phase_of-save_flight_returning = follow-append (some on_ground) l (Entry.flight_returning f)

  pub phase_of-save_air_lift_result :
      phase_of (save_air_lift_result f l) ≡ next_phase (phase_of l) (Entry.air_lift_result f)
  unfolding phase_of save_air_lift_result
  phase_of-save_air_lift_result = follow-append (some on_ground) l (Entry.air_lift_result f)

-- The pilot is with the plane at home, from the start of boarding to the destination, or there.
pub data Stage : Type 0 where
  home away back : Stage

unfoldable pub stage : PilotPlace → Stage
stage PilotPlace.signal_leave = away
stage PilotPlace.signal_post = away
stage PilotPlace.wait_enter = away
stage PilotPlace.wait_body = away
stage PilotPlace.wait_leave = away
stage PilotPlace.wait_down = away
stage (PilotPlace.flight_enter go) = if go then away else home
stage (PilotPlace.flight_body go) = if go then away else home
stage (PilotPlace.flight_leave go) = if go then away else home
stage PilotPlace.drop_enter = away
stage PilotPlace.drop_stat = away
stage (PilotPlace.drop_loop _) = away
stage PilotPlace.drop_save = away
stage PilotPlace.drop_leave = back
stage PilotPlace.drop_down = back
stage PilotPlace.return_enter = back
stage PilotPlace.return_save = back
stage _ = home

-- The steps that leave the phase as it is.
module _ (k : SemOp) (s : Shared) where
  pub main_phase :
      (e : ℕ) (m : MainPlace)
      → m ≢ MainPlace.result
      → After (λ t _. phase_of t.log ≡ phase_of s.log) (main_step k e m s)
  unfolding main_step
  main_phase e MainPlace.result ne = absurd (ne refl)
  main_phase e m ne = ground arith

  pub pilot_phase :
      (p : PilotPlace)
      → p ≢ PilotPlace.signal_body
      → p ≢ PilotPlace.drop_save
      → p ≢ PilotPlace.return_save
      → After
          (λ t q.
            (phase_of t.log ≡ phase_of s.log) × ((q ≡ PilotPlace.failed) ⊎ (stage q ≡ stage p)))
          (pilot_step k p s)
  unfolding pilot_step stage
  pilot_phase PilotPlace.signal_body a b c = absurd (a refl)
  pilot_phase PilotPlace.drop_save a b c = absurd (b refl)
  pilot_phase PilotPlace.return_save a b c = absurd (c refl)
  pilot_phase p a b c = grind (arith, phase_of-save_state)

  pub hostess_phase :
      (h : HostessPlace) (n : ℕ)
      → h ≢ HostessPlace.board_body
      → h ≢ HostessPlace.ready_body
      → After (λ t _. phase_of t.log ≡ phase_of s.log) (hostess_step k h n s)
  unfolding hostess_step
  hostess_phase HostessPlace.board_body n a b = absurd (a refl)
  hostess_phase HostessPlace.ready_body n a b = absurd (b refl)
  hostess_phase h n a b = grind (arith, phase_of-save_state)

  pub passenger_phase :
      (id : ℕ) (a : PassengerPlace)
      → After (λ t _. phase_of t.log ≡ phase_of s.log) (passenger_step k id a s)
  unfolding passenger_step
  passenger_phase id a = grind (arith, phase_of-save_state)
