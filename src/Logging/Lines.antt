-- ===== src/Logging/Lines.antt =====
-- src/logging.c: the text of the entries. A read outside of an array, which C leaves undefined, gives no
-- text here.
use so_assignment2_air_bridg.Base.{
  ℕ, zero, suc, ◌+◌, List, [], ◌∷◌, ◌++◌, Option, some, ◌>>=◌, get_elem?, decr,
}
use so_assignment2_air_bridg.Data.{FullStat, n_pass}
use so_assignment2_air_bridg.Format.{Bytes, codes, int_text, field, zero_field, text_field}
use so_assignment2_air_bridg.Logging.{Entry, Log}

-- The first `p` rounds of the loop of `printHeader`.
unfoldable pub header_columns : ℕ → Bytes
header_columns zero = []
header_columns (suc p) = header_columns p ++ (codes " " ++ (codes "P" ++ zero_field 2 p))

-- `printHeader`
unfoldable pub print_header : Bytes
unfolding header_columns
print_header =
    text_field 3 (codes "PT")
    ++ (text_field 3 (codes "HT")
        ++ (codes " "
            ++ (header_columns n_pass
                ++ (codes " "
                    ++ (text_field 4 (codes "InQ")
                        ++ (text_field 4 (codes "InF")
                            ++ (text_field 4 (codes "toB") ++ codes "\n")))))))

-- The first `p` rounds of the loop of `saveState`.
unfoldable pub passenger_columns : ℕ → List ℕ → Option Bytes
passenger_columns zero l = some []
passenger_columns (suc p) l = do
  before ← passenger_columns p l
  v ← get_elem? l p
  some (before ++ field 4 v)

-- What `saveState` writes.
unfoldable pub state_line : FullStat → Option Bytes
unfolding passenger_columns
state_line f = do
  columns ← passenger_columns n_pass f.st.passenger_stat
  some (
      field 3 f.st.pilot_stat
      ++ (field 3 f.st.hostess_stat
          ++ (codes " "
              ++ (columns
                  ++ (codes " "
                      ++ (field 4 f.n_pass_in_queue
                          ++ (field 4 f.n_pass_in_flight
                              ++ (field 4 f.total_pass_boarded ++ codes "\n"))))))))

-- `"Flight %d : "`, with which five functions begin.
abbrev pub flight_prefix : FullStat → Bytes
flight_prefix f = codes "Flight " ++ (int_text f.n_flight ++ codes " : ")

-- The first `f` rounds of the loop of `saveAirLiftResult`.
unfoldable pub flight_lines : ℕ → List ℕ → Option Bytes
flight_lines zero l = some []
flight_lines (suc f) l = do
  before ← flight_lines f l
  v ← get_elem? l f
  some (
      before
      ++ (codes "Flight "
          ++ (int_text (f + 1) ++ (codes " took " ++ (field 2 v ++ codes " passengers\n")))))

-- What the saving functions write.
unfoldable pub entry_text : Entry → Option Bytes
unfolding print_header state_line flight_lines
entry_text Entry.created = some (
    text_field 31 (codes " ")
    ++ (codes "Air Lift - Description of the internal state\n\n" ++ print_header))
entry_text (Entry.state f) = state_line f
entry_text (Entry.start_boarding f) =
    some (flight_prefix f ++ (codes "Boarding Started\n" ++ print_header))
entry_text (Entry.passenger_checked f) = some (
    flight_prefix f ++ (codes "Passenger " ++ (int_text f.passenger_checked ++ codes " checked\n")))
entry_text (Entry.flight_departed f) = do
  v ← get_elem? f.n_passengers_in_flight (decr f.n_flight)
  some (
      flight_prefix f
      ++ (codes "Departed with " ++ (int_text v ++ (codes " passengers\n" ++ print_header))))
entry_text (Entry.flight_arrived f) = some (flight_prefix f ++ (codes "Arrived \n" ++ print_header))
entry_text (Entry.flight_returning f) =
    some (flight_prefix f ++ (codes "Returning \n" ++ print_header))
entry_text (Entry.air_lift_result f) = do
  lines ← flight_lines f.n_flight f.n_passengers_in_flight
  some (
      codes "AirLift result\n"
      ++ (codes "AirLift used " ++ (int_text f.n_flight ++ (codes " Flights\n" ++ lines))))

-- The file, as the entries have been appended to it.
unfoldable pub log_text : Log → Option Bytes
log_text [] = some []
log_text (e ∷ es) = do line ← entry_text e; rest ← log_text es; some (line ++ rest)
