-- ===== src/Data.antt =====
-- src/probConst.h and src/probDataStruct.h: the simulation's parameters, the codes of the states
-- and the shared record of the problem. An `unsigned int` is a native number, and an array is a
-- list.
use so_assignment2_air_bridg.Base.{ℕ, Bool, List}

-- number of passengers
abbrev pub n_pass : ℕ
n_pass = 21

-- minimal and maximal flight capacity
abbrev pub min_fc : ℕ
min_fc = 5

abbrev pub max_fc : ℕ
max_fc = 10

-- maximal number of flights
abbrev pub max_nf : ℕ
max_nf = 10

-- The codes of the pilot's state.
abbrev pub flying_back : ℕ
flying_back = 0

abbrev pub ready_for_boarding : ℕ
ready_for_boarding = 1

abbrev pub waiting_for_boarding : ℕ
waiting_for_boarding = 2

abbrev pub flying : ℕ
flying = 3

abbrev pub droping_passengers : ℕ
droping_passengers = 4

-- The codes of the hostess's state.
abbrev pub wait_for_flight : ℕ
wait_for_flight = 0

abbrev pub wait_for_passenger : ℕ
wait_for_passenger = 1

abbrev pub check_passport : ℕ
check_passport = 2

abbrev pub ready_to_flight : ℕ
ready_to_flight = 3

-- The codes of a passenger's state.
abbrev pub going_to_airport : ℕ
going_to_airport = 0

abbrev pub in_queue : ℕ
in_queue = 1

abbrev pub in_flight : ℕ
in_flight = 2

abbrev pub at_destination : ℕ
at_destination = 3

-- `STAT`: the states of the intervening entities.
pub record Stat : Type 0 where
  pub pilot_stat : ℕ
  pub hostess_stat : ℕ
  pub passenger_stat : List ℕ

-- `FULL_STAT`. A passenger's id is never negative here, so `passengerChecked` is a number too.
pub record FullStat : Type 0 where
  pub st : Stat
  pub n_passengers_in_flight : List ℕ
  pub n_flight : ℕ
  pub n_pass_in_queue : ℕ
  pub n_pass_in_flight : ℕ
  pub total_pass_boarded : ℕ
  pub finished : Bool
  pub passenger_checked : ℕ
