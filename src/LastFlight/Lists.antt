-- ===== src/LastFlight/Lists.antt =====
-- The passengers checked since the last entry of `saveStartBoarding` (src/logging.c), and what a step of
-- each process does to them.
use so_assignment2_air_bridg.Base.{
  ◌≢◌, ℕ, ◌≡◌, ◌⊎◌, refl, List, [], ◌∷◌, ◌++◌, arith, Bool, true, false, incr,
}
use so_assignment2_air_bridg.Data.{FullStat}
use so_assignment2_air_bridg.Semaphore.{SemOp}
use so_assignment2_air_bridg.Logging.{
  Entry, Log, save_state, save_start_boarding, save_passenger_checked, save_flight_departed,
  save_flight_arrived, save_flight_returning, save_air_lift_result,
}
use so_assignment2_air_bridg.Shared.{Shared}
use so_assignment2_air_bridg.Pilot.{PilotPlace, pilot_step}
use so_assignment2_air_bridg.Hostess.{HostessPlace, hostess_step}
use so_assignment2_air_bridg.Passenger.{PassengerPlace, passenger_step}
use so_assignment2_air_bridg.Main.{MainPlace, main_step}
use so_assignment2_air_bridg.Invariant.{After, reached}

unfoldable next_list : List ℕ → Entry → List ℕ
next_list xs (Entry.start_boarding f) = []
next_list xs (Entry.passenger_checked f) = xs ++ (f.passenger_checked ∷ [])
next_list xs _ = xs

unfoldable list_from : List ℕ → Log → List ℕ
list_from xs [] = xs
list_from xs (e ∷ es) = list_from (next_list xs e) es

-- The passengers checked for the last flight, in their order.
pub last_flight : Log → List ℕ
last_flight l = list_from [] l

list_from-append :
    (xs : List ℕ) (l : Log) (e : Entry)
    → list_from xs (l ++ (e ∷ [])) ≡ next_list (list_from xs l) e
unfolding list_from
list_from-append xs [] e = refl
list_from-append xs (x ∷ l) e = list_from-append (next_list xs x) l e

module _ (f : FullStat) (l : Log) where
  last_flight-save_state : last_flight (save_state f l) ≡ last_flight l
  unfolding last_flight save_state next_list
  last_flight-save_state = list_from-append [] l (Entry.state f)

  last_flight-save_start_boarding : last_flight (save_start_boarding f l) ≡ []
  unfolding last_flight save_start_boarding next_list
  last_flight-save_start_boarding = list_from-append [] l (Entry.start_boarding f)

  last_flight-save_passenger_checked :
      last_flight (save_passenger_checked f l) ≡ last_flight l ++ (f.passenger_checked ∷ [])
  unfolding last_flight save_passenger_checked next_list
  last_flight-save_passenger_checked = list_from-append [] l (Entry.passenger_checked f)

  last_flight-save_flight_departed : last_flight (save_flight_departed f l) ≡ last_flight l
  unfolding last_flight save_flight_departed next_list
  last_flight-save_flight_departed = list_from-append [] l (Entry.flight_departed f)

  last_flight-save_flight_arrived : last_flight (save_flight_arrived f l) ≡ last_flight l
  unfolding last_flight save_flight_arrived next_list
  last_flight-save_flight_arrived = list_from-append [] l (Entry.flight_arrived f)

  last_flight-save_flight_returning : last_flight (save_flight_returning f l) ≡ last_flight l
  unfolding last_flight save_flight_returning next_list
  last_flight-save_flight_returning = list_from-append [] l (Entry.flight_returning f)

  last_flight-save_air_lift_result : last_flight (save_air_lift_result f l) ≡ last_flight l
  unfolding last_flight save_air_lift_result next_list
  last_flight-save_air_lift_result = list_from-append [] l (Entry.air_lift_result f)

-- The pilot has opened a flight and has not yet opened the doors at the destination.
unfoldable pub on_flight : PilotPlace → Bool
on_flight PilotPlace.signal_leave = true
on_flight PilotPlace.signal_post = true
on_flight PilotPlace.wait_enter = true
on_flight PilotPlace.wait_body = true
on_flight PilotPlace.wait_leave = true
on_flight PilotPlace.wait_down = true
on_flight (PilotPlace.flight_enter go) = go
on_flight (PilotPlace.flight_body go) = go
on_flight (PilotPlace.flight_leave go) = go
on_flight PilotPlace.drop_enter = true
on_flight PilotPlace.drop_stat = true
on_flight _ = false

abbrev pub SameFlight : Shared → Shared → Type 0
SameFlight s t = last_flight t.log ≡ last_flight s.log

-- A step of the pilot by which he is on a flight: he was on it, or he opens it.
pub data PilotFlies (p : PilotPlace) (s t : Shared) : Type 0 where
  same_flight : on_flight p ≡ true → SameFlight s t → PilotFlies p s t
  new_flight : p ≡ PilotPlace.signal_body → last_flight t.log ≡ [] → PilotFlies p s t

module _ (k : SemOp) (s : Shared) where
  pub main_list : (e : ℕ) (m : MainPlace) → After (λ t _. SameFlight s t) (main_step k e m s)
  unfolding main_step
  main_list e m = grind (arith, last_flight-save_air_lift_result)

  pub pilot_list :
      (p : PilotPlace) → After (λ t q. on_flight q ≡ true → PilotFlies p s t) (pilot_step k p s)
  unfolding pilot_step on_flight
  pilot_list p = grind (
    arith, last_flight-save_state, last_flight-save_start_boarding, last_flight-save_flight_arrived,
    last_flight-save_flight_returning,
  )

  -- A step of the pilot that does not open a flight
  pub pilot_keeps :
      (p : PilotPlace)
      → p ≢ PilotPlace.signal_body
      → After (λ t _. SameFlight s t) (pilot_step k p s)
  unfolding pilot_step
  pilot_keeps p h = grind (
    arith, last_flight-save_state, last_flight-save_start_boarding, last_flight-save_flight_arrived,
    last_flight-save_flight_returning,
  )

  pub hostess_list :
      (h : HostessPlace) (n : ℕ)
      → After
          (λ t _.
            (SameFlight s t × (t.f_st.total_pass_boarded ≡ s.f_st.total_pass_boarded))
            ⊎ ((last_flight t.log ≡ last_flight s.log ++ (s.f_st.passenger_checked ∷ []))
                × (t.f_st.total_pass_boarded ≡ incr s.f_st.total_pass_boarded)))
          (hostess_step k h n s)
  unfolding hostess_step
  hostess_list h n = grind (
    arith, last_flight-save_state, last_flight-save_passenger_checked,
    last_flight-save_flight_departed,
  )

  pub passenger_list :
      (id : ℕ) (a : PassengerPlace) → After (λ t _. SameFlight s t) (passenger_step k id a s)
  unfolding passenger_step
  passenger_list id a = grind (arith, last_flight-save_state)

-- Whether a passenger has left the plane.
pub passenger_stays :
    (k : SemOp) (id : ℕ) (a : PassengerPlace) (s : Shared)
    → After
        (λ _ b.
          (reached 13 b ≡ reached 13 a)
          ⊎ ((a ≡ PassengerPlace.arrive_body) ⊎ (b ≡ PassengerPlace.failed)))
        (passenger_step k id a s)
unfolding passenger_step
passenger_stays k id a s = ground arith
