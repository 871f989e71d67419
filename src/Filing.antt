-- ===== src/Filing.antt =====
-- The log of src/logging.c as the simulation writes it into the file that is named, or to the standard
-- output.
use so_assignment2_air_bridg.Base.{ℕ, ◌≡◌, refl, [], ◌∷◌, ◌++◌, true, some, length, arith}
use so_assignment2_air_bridg.Data.{FullStat, n_pass}
use so_assignment2_air_bridg.Semaphore.{SemOp, IsSemOp}
use so_assignment2_air_bridg.Shared.{Shared}
use so_assignment2_air_bridg.Format.{Bytes}
use so_assignment2_air_bridg.Logging.{
  Entry, Log, create_log, save_state, save_start_boarding, save_passenger_checked,
  save_flight_departed, save_flight_arrived, save_flight_returning, save_air_lift_result,
}
use so_assignment2_air_bridg.Logging.Lines.{log_text}
use so_assignment2_air_bridg.Logging.Files.{
  Disk, saved, save_log, IsLog, append-IsLog, save_log_named, save_log_out, AllAppended,
}
use so_assignment2_air_bridg.Main.{MainPlace, main_step, start}
use so_assignment2_air_bridg.Pilot.{PilotPlace, pilot_step}
use so_assignment2_air_bridg.Hostess.{HostessPlace, hostess_step}
use so_assignment2_air_bridg.Passenger.{PassengerPlace, passenger_step}
use so_assignment2_air_bridg.System.{
  System, Step, main_moves, pilot_moves, hostess_moves, passenger_moves, Reach, begin, later, exits,
}
use so_assignment2_air_bridg.Invariant.{After, After-some}
use so_assignment2_air_bridg.Flights.{IsFresh}
use so_assignment2_air_bridg.Printing.{log_printable}

module _ (f : FullStat) (l : Log) (h : IsLog l) where
  save_state-IsLog : IsLog (save_state f l)
  unfolding save_state
  save_state-IsLog = append-IsLog l (Entry.state f) refl h

  save_start_boarding-IsLog : IsLog (save_start_boarding f l)
  unfolding save_start_boarding
  save_start_boarding-IsLog = append-IsLog l (Entry.start_boarding f) refl h

  save_passenger_checked-IsLog : IsLog (save_passenger_checked f l)
  unfolding save_passenger_checked
  save_passenger_checked-IsLog = append-IsLog l (Entry.passenger_checked f) refl h

  save_flight_departed-IsLog : IsLog (save_flight_departed f l)
  unfolding save_flight_departed
  save_flight_departed-IsLog = append-IsLog l (Entry.flight_departed f) refl h

  save_flight_arrived-IsLog : IsLog (save_flight_arrived f l)
  unfolding save_flight_arrived
  save_flight_arrived-IsLog = append-IsLog l (Entry.flight_arrived f) refl h

  save_flight_returning-IsLog : IsLog (save_flight_returning f l)
  unfolding save_flight_returning
  save_flight_returning-IsLog = append-IsLog l (Entry.flight_returning f) refl h

  save_air_lift_result-IsLog : IsLog (save_air_lift_result f l)
  unfolding save_air_lift_result
  save_air_lift_result-IsLog = append-IsLog l (Entry.air_lift_result f) refl h

main_files :
    (k : SemOp) (e : ℕ) (m : MainPlace) (s : Shared)
    → IsLog s.log
    → After (λ t _. IsLog t.log) (main_step k e m s)
unfolding main_step
main_files k e m s h = grind (arith, save_air_lift_result-IsLog)

pilot_files :
    (k : SemOp) (p : PilotPlace) (s : Shared)
    → IsLog s.log
    → After (λ t _. IsLog t.log) (pilot_step k p s)
unfolding pilot_step
pilot_files k p s h = grind (
  arith, save_state-IsLog, save_start_boarding-IsLog, save_flight_arrived-IsLog,
  save_flight_returning-IsLog,
)

passenger_files :
    (k : SemOp) (id : ℕ) (a : PassengerPlace) (s : Shared)
    → IsLog s.log
    → After (λ t _. IsLog t.log) (passenger_step k id a s)
unfolding passenger_step
passenger_files k id a s h = grind (arith, save_state-IsLog)

hostess_files :
    (k : SemOp) (p : HostessPlace) (n : ℕ) (s : Shared)
    → IsLog s.log
    → After (λ t _. IsLog t.log) (hostess_step k p n s)
unfolding hostess_step
hostess_files k p n s h =
    grind (arith, save_state-IsLog, save_passenger_checked-IsLog, save_flight_departed-IsLog)

module _ {k : SemOp} where
  Step-IsLog : {s t : System} → Step k s t → IsLog s.shared.log → IsLog t.shared.log
  Step-IsLog {s} (main_moves e) h = After-some _ _ (main_files k (exits s) s.main s.shared h) e
  Step-IsLog {s} (pilot_moves e) h = After-some _ _ (pilot_files k s.pilot s.shared h) e
  Step-IsLog {s} (hostess_moves e) h =
      After-some _ _ (hostess_files k s.hostess s.n_checked s.shared h) e
  Step-IsLog {s} (passenger_moves i lt e) h =
      After-some _ _ (passenger_files k i (s.passenger i) s.shared h) e

  Reach-IsLog : {f : FullStat} {s : System} → Reach k f s → IsLog s.shared.log
  unfolding start create_log IsLog AllAppended
  Reach-IsLog begin = (refl, tt)
  Reach-IsLog (later r st) = Step-IsLog st (Reach-IsLog r)

-- If the shared memory is new and `semop` behaves as documented, the log of every reachable state has a
-- text; if the saving functions can open and close the file, a file with a name holds exactly this
-- text in the end, whatever it held before, and nothing goes to the standard output; without a name the
-- text goes to the standard output, and no file is touched.
pub log_written :
    (k : SemOp) (f : FullStat) (s : System)
    → IsSemOp k
    → IsFresh f
    → length f.st.passenger_stat ≡ n_pass
    → Reach k f s
    → (c : ℕ) (name : Bytes) (d : Disk)
    → (text : Bytes) × (log_text s.shared.log ≡ some text)
      × (save_log true true (c ∷ name) s.shared.log d
          ≡ some (saved (record { out = d.out; content = some text })))
      × (save_log true true [] s.shared.log d
          ≡ some (saved (record { out = d.out ++ text; content = d.content })))
log_written k f s law fresh size r c name d =
    let (text, e) = log_printable k f s law fresh size r in
    (
      text,
      e,
      save_log_named c name s.shared.log d text (Reach-IsLog r) e,
      save_log_out true true s.shared.log d text e,
    )
