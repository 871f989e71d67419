-- ===== src/Tests/Texts.antt =====
-- The text of the log, and the theorems on the log at states that the runs reach.
use so_assignment2_air_bridg.Base.{
  ◌≡◌, ◌≤◌, refl, some, get_elem?, length, arith, replicate, true, [], ◌++◌,
}
use so_assignment2_air_bridg.Data.{FullStat, n_pass}
use so_assignment2_air_bridg.Semaphore.Ideal.{ideal, ideal-IsSemOp}
use so_assignment2_air_bridg.Logging.{Entry, save_state, save_start_boarding, create_log}
use so_assignment2_air_bridg.Format.{Bytes, codes, zero_field, int_text, field}
use so_assignment2_air_bridg.Logging.Lines.{print_header, state_line, entry_text, log_text}
use so_assignment2_air_bridg.Logging.RoundTrip.{IsLineOf}
use so_assignment2_air_bridg.Invariant.{reached}
use so_assignment2_air_bridg.Schedule.{Who, Run, run}
use so_assignment2_air_bridg.Printing.{states_read_back}
use so_assignment2_air_bridg.Filing.{log_written}
use so_assignment2_air_bridg.Logging.Files.{Disk, saved, save_log}
use so_assignment2_air_bridg.Checked.{checked_ids, occurrences, checked_once, everybody_checked}
use so_assignment2_air_bridg.Tests.{born, blank, blank-IsFresh, air, finale, finale-AllDone}

header_test :
    print_header
    ≡ codes
        " PT HT  P00 P01 P02 P03 P04 P05 P06 P07 P08 P09 P10 P11 P12 P13 P14 P15 P16 P17 P18 P19 P20  InQ InF toB\n"
unfolding print_header zero_field
header_test = refl

state_test :
    state_line air.shared.f_st
    ≡ some (
        codes
          "  2  0    2   2   2   2   2   0   0   0   0   0   0   0   0   0   0   0   0   0   0   0   0    0   5   5\n")
unfolding state_line run field
state_test = refl

result_test :
    entry_text (Entry.air_lift_result finale.shared.f_st)
    ≡ some (
        codes
          "AirLift result\nAirLift used 3 Flights\nFlight 1 took 10 passengers\nFlight 2 took 10 passengers\nFlight 3 took  1 passengers\n")
unfolding entry_text run int_text field
result_test = refl

-- The pilot has opened the boarding of the first flight.
abbrev early : Run blank
early = run born (replicate 2 Who.main ++ replicate 12 Who.pilot)

abbrev boarding : FullStat
boarding = record blank {
  st = record { pilot_stat = 1; hostess_stat = 0; passenger_stat = replicate n_pass 0 };
  n_flight = 1;
}

early_saved : get_elem? early.shared.log 2 ≡ some (Entry.state boarding)
unfolding run save_state save_start_boarding create_log
early_saved = refl

states_read_back_example :
    (line : Bytes) × (state_line boarding ≡ some line) × IsLineOf boarding line
states_read_back_example =
    states_read_back ideal blank early.last ideal-IsSemOp blank-IsFresh refl early.reach 2 boarding
      early_saved

-- A file of an earlier run.
abbrev old_disk : Disk
old_disk = record { out = []; content = some (codes "old") }

log_written_example :
    (text : Bytes) × (log_text finale.shared.log ≡ some text)
    × (save_log true true (codes "flights") finale.shared.log old_disk
        ≡ some (saved (record { out = []; content = some text })))
    × (save_log true true [] finale.shared.log old_disk
        ≡ some (saved (record { out = text; content = some (codes "old") })))
log_written_example =
    log_written ideal blank finale.last ideal-IsSemOp blank-IsFresh refl finale.reach b'f'
      (codes "lights") old_disk

checked_once_example :
    (length (checked_ids air.shared.log) ≡ air.shared.f_st.total_pass_boarded)
    × (occurrences 3 (checked_ids air.shared.log) ≤ reached 8 (air.passenger 3))
checked_once_example = checked_once ideal blank air.last ideal-IsSemOp air.reach 3 (omega arith)

everybody_checked_example :
    (length (checked_ids finale.shared.log) ≡ n_pass)
    × (occurrences 20 (checked_ids finale.shared.log) ≡ 1)
everybody_checked_example =
    everybody_checked ideal blank finale.last ideal-IsSemOp finale.reach finale-AllDone 20
      (omega arith)
