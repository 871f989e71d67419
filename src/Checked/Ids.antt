-- ===== src/Checked/Ids.antt =====
-- The passengers whose check is logged (`savePassengerChecked`), and what a step of each process adds.
use so_assignment2_air_bridg.Base.{
  ℕ, ◌+◌, ◌≡◌, ◌⊎◌, refl, ap, List, [], ◌∷◌, ◌++◌, Bool, true, false, arith, incr, ◌==◌,
  if◌then◌else◌,
}
use so_assignment2_air_bridg.Data.{FullStat}
use so_assignment2_air_bridg.Semaphore.{SemOp}
use so_assignment2_air_bridg.Logging.{
  Entry, Log, save_state, save_start_boarding, save_passenger_checked, save_flight_departed,
  save_flight_arrived, save_flight_returning, save_air_lift_result,
}
use so_assignment2_air_bridg.Shared.{Shared}
use so_assignment2_air_bridg.Pilot.{PilotPlace, pilot_step}
use so_assignment2_air_bridg.Hostess.{HostessPlace, hostess_step}
use so_assignment2_air_bridg.Passenger.{PassengerPlace, passenger_step}
use so_assignment2_air_bridg.Main.{MainPlace, main_step}
use so_assignment2_air_bridg.Invariant.{After, reached}

unfoldable pub checked_ids : Log → List ℕ
checked_ids [] = []
checked_ids (Entry.passenger_checked f ∷ es) = f.passenger_checked ∷ checked_ids es
checked_ids (_ ∷ es) = checked_ids es

-- How often a number stands in a list.
unfoldable pub occurrences : ℕ → List ℕ → ℕ
occurrences j [] = 0
occurrences j (x ∷ xs) = (if x == j then 1 else 0) + occurrences j xs

pub occurrences-append :
    (j : ℕ) (xs : List ℕ) (v : ℕ)
    → occurrences j (xs ++ (v ∷ [])) ≡ occurrences j xs + (if v == j then 1 else 0)
unfolding occurrences
occurrences-append j [] v = omega arith
occurrences-append j (x ∷ xs) v = omega (arith, occurrences-append j xs v)

is_check : Entry → Bool
is_check (Entry.passenger_checked _) = true
is_check _ = false

checked_ids-append :
    (l : Log) (e : Entry) → is_check e ≡ false → checked_ids (l ++ (e ∷ [])) ≡ checked_ids l
unfolding checked_ids is_check
checked_ids-append [] e h = ground arith
checked_ids-append (Entry.passenger_checked f ∷ es) e h =
    ap (λ l. f.passenger_checked ∷ l) (checked_ids-append es e h)
checked_ids-append (_ ∷ es) e h = checked_ids-append es e h

checked_ids-save_passenger_checked :
    (f : FullStat) (l : Log)
    → checked_ids (save_passenger_checked f l) ≡ checked_ids l ++ (f.passenger_checked ∷ [])
unfolding checked_ids save_passenger_checked
checked_ids-save_passenger_checked f [] = refl
checked_ids-save_passenger_checked f (Entry.passenger_checked g ∷ es) =
    ap (λ l. g.passenger_checked ∷ l) (checked_ids-save_passenger_checked f es)
checked_ids-save_passenger_checked f (_ ∷ es) = checked_ids-save_passenger_checked f es

module _ (f : FullStat) (l : Log) where
  checked_ids-save_state : checked_ids (save_state f l) ≡ checked_ids l
  unfolding save_state is_check
  checked_ids-save_state = checked_ids-append l (Entry.state f) refl

  checked_ids-save_start_boarding : checked_ids (save_start_boarding f l) ≡ checked_ids l
  unfolding save_start_boarding is_check
  checked_ids-save_start_boarding = checked_ids-append l (Entry.start_boarding f) refl

  checked_ids-save_flight_departed : checked_ids (save_flight_departed f l) ≡ checked_ids l
  unfolding save_flight_departed is_check
  checked_ids-save_flight_departed = checked_ids-append l (Entry.flight_departed f) refl

  checked_ids-save_flight_arrived : checked_ids (save_flight_arrived f l) ≡ checked_ids l
  unfolding save_flight_arrived is_check
  checked_ids-save_flight_arrived = checked_ids-append l (Entry.flight_arrived f) refl

  checked_ids-save_flight_returning : checked_ids (save_flight_returning f l) ≡ checked_ids l
  unfolding save_flight_returning is_check
  checked_ids-save_flight_returning = checked_ids-append l (Entry.flight_returning f) refl

  checked_ids-save_air_lift_result : checked_ids (save_air_lift_result f l) ≡ checked_ids l
  unfolding save_air_lift_result is_check
  checked_ids-save_air_lift_result = checked_ids-append l (Entry.air_lift_result f) refl

-- The passengers logged, their number and the passenger at the hostess are the same.
pub record SameIds (s t : Shared) : Type 0 where
  pub ids : checked_ids t.log ≡ checked_ids s.log
  pub boarded : t.f_st.total_pass_boarded ≡ s.f_st.total_pass_boarded
  pub current : t.f_st.passenger_checked ≡ s.f_st.passenger_checked

pub main_ids :
    (k : SemOp) (e : ℕ) (m : MainPlace) (s : Shared)
    → After (λ t _. SameIds s t) (main_step k e m s)
unfolding main_step
main_ids k e m s = grind (arith, checked_ids-save_air_lift_result)

pub pilot_ids :
    (k : SemOp) (p : PilotPlace) (s : Shared) → After (λ t _. SameIds s t) (pilot_step k p s)
unfolding pilot_step
pilot_ids k p s = grind (
  arith, checked_ids-save_state, checked_ids-save_start_boarding, checked_ids-save_flight_arrived,
  checked_ids-save_flight_returning,
)

-- The hostess logs the passenger before her.
pub record Ticks (s t : Shared) : Type 0 where
  pub ids : checked_ids t.log ≡ checked_ids s.log ++ (s.f_st.passenger_checked ∷ [])
  pub boarded : t.f_st.total_pass_boarded ≡ incr s.f_st.total_pass_boarded
  pub current : t.f_st.passenger_checked ≡ s.f_st.passenger_checked

pub hostess_ids :
    (k : SemOp) (h : HostessPlace) (n : ℕ) (s : Shared)
    → After
        (λ t _. SameIds s t ⊎ ((h ≡ HostessPlace.board_body) × Ticks s t))
        (hostess_step k h n s)
unfolding hostess_step
hostess_ids k h n s = grind (
  arith, checked_ids-save_state, checked_ids-save_passenger_checked,
  checked_ids-save_flight_departed,
)

-- A passenger shows the passport.
pub record Shows (id : ℕ) (s t : Shared) : Type 0 where
  pub ids : checked_ids t.log ≡ checked_ids s.log
  pub boarded : t.f_st.total_pass_boarded ≡ s.f_st.total_pass_boarded
  pub current : t.f_st.passenger_checked ≡ id

pub data Presents (id : ℕ) (a b : PassengerPlace) (s t : Shared) : Type 0 where
  elsewhere : SameIds s t → reached 8 b ≡ reached 8 a → Presents id a b s t
  shows :
      a ≡ PassengerPlace.show_body
      → b ≡ PassengerPlace.show_leave
      → Shows id s t
      → Presents id a b s t
  fails : b ≡ PassengerPlace.failed → Presents id a b s t

pub passenger_ids :
    (k : SemOp) (id : ℕ) (a : PassengerPlace) (s : Shared)
    → After (λ t b. Presents id a b s t) (passenger_step k id a s)
unfolding passenger_step
passenger_ids k id a s = grind (arith, checked_ids-save_state)
