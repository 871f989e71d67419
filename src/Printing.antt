-- ===== src/Printing.antt =====
-- The log of every run can be printed, and its lines of states are what their reader expects.
mod Short
mod Entries
use so_assignment2_air_bridg.Base.{
  ℕ, suc, zero, ◌≡◌, [], ◌∷◌, some, get_elem?, length, arith, IsSome-cases,
}
use so_assignment2_air_bridg.Data.{FullStat, n_pass}
use so_assignment2_air_bridg.Semaphore.{SemOp, IsSemOp}
use so_assignment2_air_bridg.Logging.{Entry, Log, create_log}
use so_assignment2_air_bridg.Format.{Bytes}
use so_assignment2_air_bridg.Logging.Lines.{state_line, log_text}
use so_assignment2_air_bridg.Logging.RoundTrip.{IsLineOf, state_line_lem}
use so_assignment2_air_bridg.Main.{start}
use so_assignment2_air_bridg.System.{
  System, Step, main_moves, pilot_moves, hostess_moves, passenger_moves, Reach, begin, later, exits,
}
use so_assignment2_air_bridg.Invariant.{Reach-Inv, After-some}
use so_assignment2_air_bridg.States.{states_agree}
use so_assignment2_air_bridg.Flights.{IsFresh, flights_bounded}
use Short.{StatesAgree-IsShort}
use Entries.{
  IsPrintable, AllPrintable, Fits, log_text-IsSome, main_prints, pilot_prints, hostess_prints,
  passenger_prints,
}

module _ {k : SemOp} {f : FullStat} (law : IsSemOp k) (fresh : IsFresh f)
    (size : length f.st.passenger_stat ≡ n_pass) where
  Reach-Fits : {s : System} → Reach k f s → Fits s.shared.f_st
  Reach-Fits {s} r =
      let b = flights_bounded k f s law fresh r in
      record {
        short = StatesAgree-IsShort s (Reach-Inv law r) (states_agree k f s size r);
        few = b.0;
        size = b.1;
      }

  -- A step that leads to a reachable state leaves a log that can be printed.
  Step-AllPrintable :
      {s t : System}
      → Reach k f s
      → Step k s t
      → Fits t.shared.f_st
      → AllPrintable s.shared.log
      → AllPrintable t.shared.log
  Step-AllPrintable {s} r (main_moves e) fit h =
      After-some _ _ (main_prints k (exits s) s.main s.shared h) e fit
  Step-AllPrintable {s} r (pilot_moves e) fit h =
      After-some _ _ (pilot_prints k s.pilot s.shared h) e fit.short
  Step-AllPrintable {s} r (hostess_moves e) fit h =
      let b = flights_bounded k f s law fresh r in
      After-some _ _
        (hostess_prints k s.hostess s.n_checked s.shared (λ at. omega (arith, b.0, b.1, b.2 at)) h)
        e fit
  Step-AllPrintable {s} r (passenger_moves i lt e) fit h =
      After-some _ _ (passenger_prints k i (s.passenger i) s.shared h) e fit.short

  Reach-AllPrintable : {s : System} → Reach k f s → AllPrintable s.shared.log
  unfolding start create_log AllPrintable IsPrintable
  Reach-AllPrintable begin = (tt, tt)
  Reach-AllPrintable (later r st) =
      Step-AllPrintable r st (Reach-Fits (later r st)) (Reach-AllPrintable r)

AllPrintable-line :
    (l : Log) (i : ℕ) (g : FullStat)
    → AllPrintable l
    → get_elem? l i ≡ some (Entry.state g)
    → (line : Bytes) × (state_line g ≡ some line) × IsLineOf g line
unfolding AllPrintable IsPrintable
AllPrintable-line [] i g h e = cc
AllPrintable-line (x ∷ l) zero g h e =
    state_line_lem g (let same : x ≡ Entry.state g = cc in rw same at (h.0))
AllPrintable-line (x ∷ l) (suc i) g h e = AllPrintable-line l i g (h.1) e

-- If the shared memory is new and `semop` behaves as documented, the log of every reachable state can
-- be printed.
pub log_printable :
    (k : SemOp) (f : FullStat) (s : System)
    → IsSemOp k
    → IsFresh f
    → length f.st.passenger_stat ≡ n_pass
    → Reach k f s
    → (text : Bytes) × (log_text s.shared.log ≡ some text)
log_printable k f s law fresh size r =
    IsSome-cases _ (log_text-IsSome s.shared.log (Reach-AllPrintable law fresh size r))

-- If the shared memory is new and `semop` behaves as documented, every state in the log of a reachable
-- state of the simulation is printed as a line that reads back as the numbers of that state and is as
-- long as the line of the column titles.
pub states_read_back :
    (k : SemOp) (f : FullStat) (s : System)
    → IsSemOp k
    → IsFresh f
    → length f.st.passenger_stat ≡ n_pass
    → Reach k f s
    → (i : ℕ) (g : FullStat) → get_elem? s.shared.log i ≡ some (Entry.state g)
    → (line : Bytes) × (state_line g ≡ some line) × IsLineOf g line
states_read_back k f s law fresh size r i g e =
    AllPrintable-line s.shared.log i g (Reach-AllPrintable law fresh size r) e
