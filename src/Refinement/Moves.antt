-- ===== src/Refinement/Moves.antt =====
-- What a step of each process does to the counters of the queue and of the plane, whatever the
-- semaphores do.
use so_assignment2_air_bridg.Base.{ℕ, ◌≡◌, ◌⊎◌, arith, true, false, incr, decr}
use so_assignment2_air_bridg.Semaphore.{SemOp}
use so_assignment2_air_bridg.Shared.{Shared}
use so_assignment2_air_bridg.Pilot.{PilotPlace, pilot_step}
use so_assignment2_air_bridg.Hostess.{HostessPlace, hostess_step}
use so_assignment2_air_bridg.Passenger.{PassengerPlace, passenger_step}
use so_assignment2_air_bridg.Main.{MainPlace, main_step}
use so_assignment2_air_bridg.Invariant.{After}
use so_assignment2_air_bridg.Safety.{in_air}

-- The counters of the queue and of the plane are the same.
pub record SameCounters (s t : Shared) : Type 0 where
  pub queue : t.f_st.n_pass_in_queue ≡ s.f_st.n_pass_in_queue
  pub aboard : t.f_st.n_pass_in_flight ≡ s.f_st.n_pass_in_flight
  pub boarded : t.f_st.total_pass_boarded ≡ s.f_st.total_pass_boarded

pub main_view :
    (k : SemOp) (e : ℕ) (m : MainPlace) (s : Shared)
    → After (λ t _. SameCounters s t) (main_step k e m s)
unfolding main_step
main_view k e m s = ground arith

-- Take-off and landing, or neither.
pub data Flown (p q : PilotPlace) : Type 0 where
  neither : in_air q ≡ in_air p → Flown p q
  took_off : p ≡ PilotPlace.wait_down → q ≡ PilotPlace.flight_enter true → Flown p q
  landed : in_air p ≡ true → in_air q ≡ false → Flown p q

pub pilot_view :
    (k : SemOp) (p : PilotPlace) (s : Shared)
    → After (λ t q. SameCounters s t × Flown p q) (pilot_step k p s)
unfolding pilot_step
pilot_view k p s = ground arith

pub record Boards (s t : Shared) : Type 0 where
  pub queue : t.f_st.n_pass_in_queue ≡ decr s.f_st.n_pass_in_queue
  pub aboard : t.f_st.n_pass_in_flight ≡ incr s.f_st.n_pass_in_flight
  pub boarded : t.f_st.total_pass_boarded ≡ incr s.f_st.total_pass_boarded

pub hostess_view :
    (k : SemOp) (h : HostessPlace) (n : ℕ) (s : Shared)
    → After
        (λ t _. SameCounters s t ⊎ ((h ≡ HostessPlace.board_body) × Boards s t))
        (hostess_step k h n s)
unfolding hostess_step
hostess_view k h n s = ground arith

pub record Joins (s t : Shared) : Type 0 where
  pub queue : t.f_st.n_pass_in_queue ≡ incr s.f_st.n_pass_in_queue
  pub aboard : t.f_st.n_pass_in_flight ≡ s.f_st.n_pass_in_flight
  pub boarded : t.f_st.total_pass_boarded ≡ s.f_st.total_pass_boarded

pub record Leaves (s t : Shared) : Type 0 where
  pub queue : t.f_st.n_pass_in_queue ≡ s.f_st.n_pass_in_queue
  pub aboard : t.f_st.n_pass_in_flight ≡ decr s.f_st.n_pass_in_flight
  pub boarded : t.f_st.total_pass_boarded ≡ s.f_st.total_pass_boarded

pub passenger_view :
    (k : SemOp) (id : ℕ) (a : PassengerPlace) (s : Shared)
    → After
        (λ t _.
          SameCounters s t
          ⊎ ((a ≡ PassengerPlace.queue_body) × Joins s t)
          ⊎ ((a ≡ PassengerPlace.arrive_body) × Leaves s t))
        (passenger_step k id a s)
unfolding passenger_step
passenger_view k id a s = ground arith
