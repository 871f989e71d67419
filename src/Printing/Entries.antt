-- ===== src/Printing/Entries.antt =====
-- What the saving functions need of the record, and that a step of a process respects it.
use so_assignment2_air_bridg.Base.{
  ℕ, zero, suc, ◌≡◌, ◌≤◌, ◌<◌, List, [], ◌∷◌, ◌++◌, get_elem?_inside, length, arith, decr, ◌^◌,
  IsSome, IsSome-cases,
}
use so_assignment2_air_bridg.Data.{FullStat, max_nf}
use so_assignment2_air_bridg.Semaphore.{SemOp}
use so_assignment2_air_bridg.Shared.{Shared}
use so_assignment2_air_bridg.Logging.{
  Entry, Log, save_state, save_start_boarding, save_passenger_checked, save_flight_departed,
  save_flight_arrived, save_flight_returning, save_air_lift_result,
}
use so_assignment2_air_bridg.Logging.Lines.{flight_lines, entry_text, log_text}
use so_assignment2_air_bridg.Invariant.{After}
use so_assignment2_air_bridg.Main.{MainPlace, main_step}
use so_assignment2_air_bridg.Pilot.{PilotPlace, pilot_step}
use so_assignment2_air_bridg.Hostess.{HostessPlace, hostess_step}
use so_assignment2_air_bridg.Passenger.{PassengerPlace, passenger_step}
use so_assignment2_air_bridg.Logging.RoundTrip.{IsShort, state_line_lem}

-- What the entry needs of the arrays that its function reads.
unfoldable pub IsPrintable : Entry → Type 0
IsPrintable (Entry.state f) = IsShort f
IsPrintable (Entry.flight_departed f) =
    (1 ≤ f.n_flight) × (f.n_flight ≤ length f.n_passengers_in_flight) × (f.n_flight < 2 ^ 32)
IsPrintable (Entry.air_lift_result f) = f.n_flight ≤ length f.n_passengers_in_flight
IsPrintable _ = Unit

unfoldable pub AllPrintable : Log → Type 0
AllPrintable [] = Unit
AllPrintable (e ∷ es) = IsPrintable e × AllPrintable es

append-AllPrintable :
    (l : Log) (e : Entry) → AllPrintable l → IsPrintable e → AllPrintable (l ++ (e ∷ []))
unfolding AllPrintable
append-AllPrintable [] e h p = (p, tt)
append-AllPrintable (x ∷ l) e h p = (h.0, append-AllPrintable l e (h.1) p)

flight_lines-IsSome : (f : ℕ) (l : List ℕ) → f ≤ length l → IsSome (flight_lines f l)
unfolding flight_lines
flight_lines-IsSome zero l h = tt
flight_lines-IsSome (suc f) l h =
    let (before, e) = IsSome-cases (flight_lines f l) (flight_lines-IsSome f l (omega arith)) in
    let (v, at) = get_elem?_inside l f (omega arith) in rw (e, at) tt

entry_text-IsSome : (e : Entry) → IsPrintable e → IsSome (entry_text e)
unfolding entry_text IsPrintable
entry_text-IsSome (Entry.state f) h = let (line, e, r) = state_line_lem f h in rw e tt
entry_text-IsSome (Entry.flight_departed f) h =
    let (v, at) = get_elem?_inside f.n_passengers_in_flight (decr f.n_flight) (omega arith) in
    rw at tt
entry_text-IsSome (Entry.air_lift_result f) h =
    let (lines, e) =
      IsSome-cases (flight_lines f.n_flight f.n_passengers_in_flight)
        (flight_lines-IsSome f.n_flight f.n_passengers_in_flight h) in
    rw e tt
entry_text-IsSome _ h = tt

pub log_text-IsSome : (l : Log) → AllPrintable l → IsSome (log_text l)
unfolding log_text AllPrintable
log_text-IsSome [] h = tt
log_text-IsSome (e ∷ es) h =
    let (line, p) = IsSome-cases (entry_text e) (entry_text-IsSome e (h.0)) in
    let (rest, q) = IsSome-cases (log_text es) (log_text-IsSome es (h.1)) in rw (p, q) tt

-- What the saving functions need of the record that they are given.
pub record Fits (f : FullStat) : Type 0 where
  pub short : IsShort f
  pub few : f.n_flight ≤ 5
  pub size : length f.n_passengers_in_flight ≡ max_nf

save_state-AllPrintable :
    (f : FullStat) (l : Log) → IsShort f → AllPrintable l → AllPrintable (save_state f l)
unfolding save_state IsPrintable
save_state-AllPrintable f l p h = append-AllPrintable l (Entry.state f) h p

save_flight_departed-AllPrintable :
    (f : FullStat) (l : Log)
    → 1 ≤ f.n_flight
    → Fits f
    → AllPrintable l
    → AllPrintable (save_flight_departed f l)
unfolding save_flight_departed IsPrintable
save_flight_departed-AllPrintable f l p fit h =
    append-AllPrintable l (Entry.flight_departed f) h
      (p, omega (arith, fit.few, fit.size), omega (arith, fit.few))

save_air_lift_result-AllPrintable :
    (f : FullStat) (l : Log) → Fits f → AllPrintable l → AllPrintable (save_air_lift_result f l)
unfolding save_air_lift_result IsPrintable
save_air_lift_result-AllPrintable f l fit h =
    append-AllPrintable l (Entry.air_lift_result f) h (omega (arith, fit.few, fit.size))

-- The others print only fields.
module _ (f : FullStat) (l : Log) (h : AllPrintable l) where
  save_start_boarding-AllPrintable : AllPrintable (save_start_boarding f l)
  unfolding save_start_boarding IsPrintable
  save_start_boarding-AllPrintable = append-AllPrintable l (Entry.start_boarding f) h tt

  save_passenger_checked-AllPrintable : AllPrintable (save_passenger_checked f l)
  unfolding save_passenger_checked IsPrintable
  save_passenger_checked-AllPrintable = append-AllPrintable l (Entry.passenger_checked f) h tt

  save_flight_arrived-AllPrintable : AllPrintable (save_flight_arrived f l)
  unfolding save_flight_arrived IsPrintable
  save_flight_arrived-AllPrintable = append-AllPrintable l (Entry.flight_arrived f) h tt

  save_flight_returning-AllPrintable : AllPrintable (save_flight_returning f l)
  unfolding save_flight_returning IsPrintable
  save_flight_returning-AllPrintable = append-AllPrintable l (Entry.flight_returning f) h tt

pub main_prints :
    (k : SemOp) (e : ℕ) (m : MainPlace) (s : Shared)
    → AllPrintable s.log
    → After (λ t _. Fits t.f_st → AllPrintable t.log) (main_step k e m s)
unfolding main_step
main_prints k e m s h = grind (arith, save_air_lift_result-AllPrintable)

pub pilot_prints :
    (k : SemOp) (p : PilotPlace) (s : Shared)
    → AllPrintable s.log
    → After (λ t _. IsShort t.f_st → AllPrintable t.log) (pilot_step k p s)
unfolding pilot_step
pilot_prints k p s h = grind (
  arith, save_state-AllPrintable, save_start_boarding-AllPrintable,
  save_flight_arrived-AllPrintable, save_flight_returning-AllPrintable,
)

pub passenger_prints :
    (k : SemOp) (id : ℕ) (a : PassengerPlace) (s : Shared)
    → AllPrintable s.log
    → After (λ t _. IsShort t.f_st → AllPrintable t.log) (passenger_step k id a s)
unfolding passenger_step
passenger_prints k id a s h = grind (arith, save_state-AllPrintable)

pub hostess_prints :
    (k : SemOp) (p : HostessPlace) (n : ℕ) (s : Shared)
    → (p ≡ HostessPlace.ready_body → 1 ≤ s.f_st.n_flight)
    → AllPrintable s.log
    → After (λ t _. Fits t.f_st → AllPrintable t.log) (hostess_step k p n s)
unfolding hostess_step
hostess_prints k p n s some_flight h = grind (
  arith, save_state-AllPrintable, save_passenger_checked-AllPrintable,
  save_flight_departed-AllPrintable,
)
