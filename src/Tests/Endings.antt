-- ===== src/Tests/Endings.antt =====
-- How a run ends.
use so_assignment2_air_bridg.Base.{◌+◌, ◌≡◌, [], ◌∷◌, ◌++◌, length, replicate, ◌-◌}
use so_assignment2_air_bridg.Data.{n_pass, max_nf}
use so_assignment2_air_bridg.Semaphore.Ideal.{ideal, ideal-IsSemOp}
use so_assignment2_air_bridg.Logging.{Entry, Log}
use so_assignment2_air_bridg.System.{exits}
use so_assignment2_air_bridg.Flights.{boardings, boardings_match_array}
use so_assignment2_air_bridg.ResultLast.{result_comes_last}
use so_assignment2_air_bridg.Tests.{blank, blank-IsFresh, finale, finale-AllDone}

result_comes_last_example :
    (exits finale.last ≡ n_pass + 2)
    × ((earlier : Log) × (finale.shared.log
          ≡ earlier ++ (Entry.air_lift_result finale.shared.f_st ∷ [])))
result_comes_last_example =
    result_comes_last ideal blank finale.last finale.reach finale-AllDone.main_done

-- Three flights, as in the log.
boardings_match_array_example :
    let shown = boardings finale.shared.log in
    (finale.shared.f_st.n_flight ≡ length shown)
    × (finale.shared.f_st.n_passengers_in_flight ≡ shown ++ replicate (max_nf - length shown) 0)
boardings_match_array_example =
    boardings_match_array ideal blank finale.last ideal-IsSemOp blank-IsFresh finale.reach
      finale-AllDone
