-- ===== src/Flights/Boardings.antt =====
-- The passengers checked for each flight, as the log shows them: the entries of `savePassengerChecked`
-- behind each entry of `saveStartBoarding` (src/logging.c).
use so_assignment2_air_bridg.Base.{ℕ, ◌+◌, ◌≡◌, ◌≢◌, refl, ap, List, [], ◌∷◌, ◌++◌, arith}
use so_assignment2_air_bridg.Data.{FullStat}
use so_assignment2_air_bridg.Semaphore.{SemOp}
use so_assignment2_air_bridg.Logging.{
  Entry, Log, save_state, save_start_boarding, save_passenger_checked, save_flight_departed,
  save_flight_arrived, save_flight_returning, save_air_lift_result,
}
use so_assignment2_air_bridg.Shared.{Shared}
use so_assignment2_air_bridg.Pilot.{PilotPlace, pilot_step}
use so_assignment2_air_bridg.Hostess.{HostessPlace, hostess_step}
use so_assignment2_air_bridg.Passenger.{PassengerPlace, passenger_step}
use so_assignment2_air_bridg.Main.{MainPlace, main_step}
use so_assignment2_air_bridg.Invariant.{After}

-- One more in the last flight.
unfoldable pub bump : List ℕ → List ℕ
bump [] = []
bump (x ∷ []) = (x + 1) ∷ []
bump (x ∷ y ∷ xs) = x ∷ bump (y ∷ xs)

pub bump-append : (xs : List ℕ) (v : ℕ) → bump (xs ++ (v ∷ [])) ≡ xs ++ ((v + 1) ∷ [])
unfolding bump
bump-append [] v = refl
bump-append (x ∷ []) v = refl
bump-append (x ∷ y ∷ xs) v = ap (λ l. x ∷ l) (bump-append (y ∷ xs) v)

unfoldable pub add_entry : List ℕ → Entry → List ℕ
add_entry gs (Entry.start_boarding f) = gs ++ (0 ∷ [])
add_entry gs (Entry.passenger_checked f) = bump gs
add_entry gs _ = gs

unfoldable pub add_entries : List ℕ → Log → List ℕ
add_entries gs [] = gs
add_entries gs (e ∷ es) = add_entries (add_entry gs e) es

-- For each boarding that is logged, the passengers checked in it.
unfoldable pub boardings : Log → List ℕ
boardings l = add_entries [] l

add_entries-append :
    (gs : List ℕ) (l : Log) (e : Entry)
    → add_entries gs (l ++ (e ∷ [])) ≡ add_entry (add_entries gs l) e
unfolding add_entries
add_entries-append gs [] e = refl
add_entries-append gs (x ∷ l) e = add_entries-append (add_entry gs x) l e

module _ (f : FullStat) (l : Log) where
  pub boardings-save_state : boardings (save_state f l) ≡ boardings l
  unfolding boardings save_state add_entry
  boardings-save_state = add_entries-append [] l (Entry.state f)

  pub boardings-save_start_boarding : boardings (save_start_boarding f l) ≡ boardings l ++ (0 ∷ [])
  unfolding boardings save_start_boarding add_entry
  boardings-save_start_boarding = add_entries-append [] l (Entry.start_boarding f)

  pub boardings-save_passenger_checked : boardings (save_passenger_checked f l) ≡ bump (boardings l)
  unfolding boardings save_passenger_checked add_entry
  boardings-save_passenger_checked = add_entries-append [] l (Entry.passenger_checked f)

  pub boardings-save_flight_departed : boardings (save_flight_departed f l) ≡ boardings l
  unfolding boardings save_flight_departed add_entry
  boardings-save_flight_departed = add_entries-append [] l (Entry.flight_departed f)

  boardings-save_flight_arrived : boardings (save_flight_arrived f l) ≡ boardings l
  unfolding boardings save_flight_arrived add_entry
  boardings-save_flight_arrived = add_entries-append [] l (Entry.flight_arrived f)

  boardings-save_flight_returning : boardings (save_flight_returning f l) ≡ boardings l
  unfolding boardings save_flight_returning add_entry
  boardings-save_flight_returning = add_entries-append [] l (Entry.flight_returning f)

  boardings-save_air_lift_result : boardings (save_air_lift_result f l) ≡ boardings l
  unfolding boardings save_air_lift_result add_entry
  boardings-save_air_lift_result = add_entries-append [] l (Entry.air_lift_result f)

-- The steps that change no boarding.
module _ (k : SemOp) (s : Shared) where
  pub main_boardings :
      (e : ℕ) (m : MainPlace) → After (λ t _. boardings t.log ≡ boardings s.log) (main_step k e m s)
  unfolding main_step
  main_boardings e m = grind (arith, boardings-save_air_lift_result)

  pub pilot_boardings :
      (p : PilotPlace)
      → p ≢ PilotPlace.signal_body
      → After (λ t _. boardings t.log ≡ boardings s.log) (pilot_step k p s)
  unfolding pilot_step
  pilot_boardings PilotPlace.signal_body ne = absurd (ne refl)
  pilot_boardings p ne =
      grind (
        arith, boardings-save_state, boardings-save_flight_arrived, boardings-save_flight_returning,
      )

  pub hostess_boardings :
      (h : HostessPlace) (n : ℕ)
      → h ≢ HostessPlace.board_body
      → h ≢ HostessPlace.ready_body
      → After (λ t _. boardings t.log ≡ boardings s.log) (hostess_step k h n s)
  unfolding hostess_step
  hostess_boardings HostessPlace.board_body n nb nr = absurd (nb refl)
  hostess_boardings HostessPlace.ready_body n nb nr = absurd (nr refl)
  hostess_boardings h n nb nr = grind (arith, boardings-save_state)

  pub passenger_boardings :
      (id : ℕ) (a : PassengerPlace)
      → After (λ t _. boardings t.log ≡ boardings s.log) (passenger_step k id a s)
  unfolding passenger_step
  passenger_boardings id a = grind (arith, boardings-save_state)
