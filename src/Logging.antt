-- ===== src/Logging.antt =====
-- src/logging.c: the log. An entry is what one call of a saving function writes, with the state of
-- the problem that it was given; the log is the list of entries, oldest first.
pub mod Files
pub mod Lines
pub mod Reading
pub mod RoundTrip
use so_assignment2_air_bridg.Base.{List, [], ◌∷◌, ◌++◌}
use so_assignment2_air_bridg.Data.{FullStat}

pub data Entry : Type 0 where
  created : Entry
  state : FullStat → Entry
  start_boarding : FullStat → Entry
  passenger_checked : FullStat → Entry
  flight_departed : FullStat → Entry
  flight_arrived : FullStat → Entry
  flight_returning : FullStat → Entry
  air_lift_result : FullStat → Entry

abbrev pub Log : Type 0
Log = List Entry

-- `createLog` opens the file for writing, which empties it.
unfoldable pub create_log : Log
create_log = Entry.created ∷ []

-- The others open it for appending.
unfoldable pub save_state : FullStat → Log → Log
save_state f log = log ++ (Entry.state f ∷ [])

unfoldable pub save_start_boarding : FullStat → Log → Log
save_start_boarding f log = log ++ (Entry.start_boarding f ∷ [])

unfoldable pub save_passenger_checked : FullStat → Log → Log
save_passenger_checked f log = log ++ (Entry.passenger_checked f ∷ [])

unfoldable pub save_flight_departed : FullStat → Log → Log
save_flight_departed f log = log ++ (Entry.flight_departed f ∷ [])

unfoldable pub save_flight_arrived : FullStat → Log → Log
save_flight_arrived f log = log ++ (Entry.flight_arrived f ∷ [])

unfoldable pub save_flight_returning : FullStat → Log → Log
save_flight_returning f log = log ++ (Entry.flight_returning f ∷ [])

unfoldable pub save_air_lift_result : FullStat → Log → Log
save_air_lift_result f log = log ++ (Entry.air_lift_result f ∷ [])
