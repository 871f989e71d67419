-- ===== src/States.antt =====
-- The state fields (`STAT` of src/probDataStruct.h) tell where the processes are, whatever the
-- semaphores do.
pub mod Places
pub mod Transitions
use so_assignment2_air_bridg.Base.{
  ℕ, zero, suc, ◌≡◌, ◌≢◌, ◌<◌, ◌≤◌, arith, refl, sym, ◌∙◌, List, some, get_elem?, length,
  length-set, get_elem?-set_self, get_elem?-set_ne, ℕ_discrete, Bool-cases, inl, inr, subst, ◌==◌,
}
use so_assignment2_air_bridg.Data
use so_assignment2_air_bridg.Data.{FullStat, n_pass}
use so_assignment2_air_bridg.Semaphore.{SemOp}
use so_assignment2_air_bridg.Shared.{Shared}
use so_assignment2_air_bridg.Invariant.{After, After-some}
use so_assignment2_air_bridg.Pilot.{PilotPlace, pilot_step}
use so_assignment2_air_bridg.Hostess.{HostessPlace, hostess_step}
use so_assignment2_air_bridg.Passenger.{PassengerPlace, passenger_step}
use so_assignment2_air_bridg.Main.{MainPlace, main_step, all_going, initialise, start}
use so_assignment2_air_bridg.System.{
  System, Step, main_moves, pilot_moves, hostess_moves, passenger_moves, Reach, begin, later,
  initial, exits,
}
use Places.{PilotState, HostessState, PassengerState}

-- What a step of one process leaves of the fields of the others.
pub record SameStates (s t : Shared) : Type 0 where
  pub pilot : t.f_st.st.pilot_stat ≡ s.f_st.st.pilot_stat
  pub hostess : t.f_st.st.hostess_stat ≡ s.f_st.st.hostess_stat

abbrev pub states_of : Shared → List ℕ
states_of s = s.f_st.st.passenger_stat

pub main_states :
    (k : SemOp) (e : ℕ) (m : MainPlace) (s : Shared)
    → After (λ t _. SameStates s t × (states_of t ≡ states_of s)) (main_step k e m s)
unfolding main_step
main_states k e m s = ground arith

pub pilot_states :
    (k : SemOp) (p : PilotPlace) (s : Shared)
    → PilotState p s.f_st.st.pilot_stat
    → After
        (λ t q.
          PilotState q t.f_st.st.pilot_stat
          × (t.f_st.st.hostess_stat ≡ s.f_st.st.hostess_stat)
          × (states_of t ≡ states_of s))
        (pilot_step k p s)
unfolding pilot_step PilotState
pilot_states k p s h = ground arith

pub hostess_states :
    (k : SemOp) (h : HostessPlace) (n : ℕ) (s : Shared)
    → HostessState h s.f_st.st.hostess_stat
    → After
        (λ t q.
          HostessState (q.0) t.f_st.st.hostess_stat
          × (t.f_st.st.pilot_stat ≡ s.f_st.st.pilot_stat)
          × (states_of t ≡ states_of s))
        (hostess_step k h n s)
unfolding hostess_step HostessState
hostess_states k h n s i = ground arith

-- A passenger's own field, and the rest.
pub passenger_states :
    (k : SemOp) (id : ℕ) (a : PassengerPlace) (s : Shared)
    → id < length (states_of s)
    → PassengerState a (get_elem? (states_of s) id)
    → After
        (λ t b.
          PassengerState b (get_elem? (states_of t) id)
          × SameStates s t
          × (length (states_of t) ≡ length (states_of s)))
        (passenger_step k id a s)
unfolding passenger_step PassengerState
passenger_states k id a s lt i = ground (
  arith,
  get_elem?-set_self (states_of s) id Data.in_queue lt,
  get_elem?-set_self (states_of s) id Data.in_flight lt,
  get_elem?-set_self (states_of s) id Data.at_destination lt,
  length-set (states_of s) id Data.in_queue,
  length-set (states_of s) id Data.in_flight,
  length-set (states_of s) id Data.at_destination,
)

pub other_states :
    (k : SemOp) (id j : ℕ) (a : PassengerPlace) (s : Shared)
    → id ≢ j
    → After (λ t _. get_elem? (states_of t) j ≡ get_elem? (states_of s) j) (passenger_step k id a s)
unfolding passenger_step
other_states k id j a s ne = ground (
  arith,
  get_elem?-set_ne (states_of s) Data.in_queue ne,
  get_elem?-set_ne (states_of s) Data.in_flight ne,
  get_elem?-set_ne (states_of s) Data.at_destination ne,
)

-- The state fields tell where the processes are.
pub record StatesAgree (s : System) : Type 0 where
  pub pilot : PilotState s.pilot s.shared.f_st.st.pilot_stat
  pub hostess : HostessState s.hostess s.shared.f_st.st.hostess_stat
  pub size : length s.shared.f_st.st.passenger_stat ≡ n_pass
  pub passengers :
      (j : ℕ)
      → j < n_pass
      → PassengerState (s.passenger j) (get_elem? s.shared.f_st.st.passenger_stat j)

length-all_going : (n : ℕ) (l : List ℕ) → length (all_going n l) ≡ length l
unfolding all_going
length-all_going zero l = refl
length-all_going (suc n) l =
    length-set (all_going n l) n Data.going_to_airport ∙ length-all_going n l

-- After the first `n` rounds of the loop, those passengers are going to the airport.
get_elem?-all_going :
    (n : ℕ) (l : List ℕ) (j : ℕ)
    → n ≤ length l
    → j < n
    → get_elem? (all_going n l) j ≡ some Data.going_to_airport
unfolding all_going
get_elem?-all_going zero l j h lt = absurd (omega arith)
get_elem?-all_going (suc n) l j h lt = elim (ℕ_discrete n j) [
  | yes e ↦ rw (sym e) (
      get_elem?-set_self (all_going n l) n Data.going_to_airport
        (omega (arith, length-all_going n l)))
  | no ne ↦
      get_elem?-set_ne (all_going n l) Data.going_to_airport ne
      ∙ get_elem?-all_going n l j (omega arith) (ground arith)
]

initial-StatesAgree : (f : FullStat) → length f.st.passenger_stat ≡ n_pass → StatesAgree (initial f)
unfolding start initialise PilotState HostessState PassengerState
initial-StatesAgree f e = record {
  pilot = refl;
  hostess = refl;
  size = length-all_going n_pass f.st.passenger_stat ∙ e;
  passengers = λ j lt. get_elem?-all_going n_pass f.st.passenger_stat j (omega (arith, e)) lt;
}

Step-StatesAgree : {k : SemOp} {s t : System} → Step k s t → StatesAgree s → StatesAgree t
Step-StatesAgree {k} {s} (main_moves e) a =
    let q = After-some _ _ (main_states k (exits s) s.main s.shared) e in
    record {
      pilot = rw (q.0.pilot) a.pilot;
      hostess = rw (q.0.hostess) a.hostess;
      size = rw (q.1) a.size;
      passengers = λ j lt. rw (q.1) (a.passengers j lt);
    }
Step-StatesAgree {k} {s} (pilot_moves e) a =
    let q = After-some _ _ (pilot_states k s.pilot s.shared a.pilot) e in
    record {
      pilot = q.0;
      hostess = rw (q.1) a.hostess;
      size = rw (q.2) a.size;
      passengers = λ j lt. rw (q.2) (a.passengers j lt);
    }
Step-StatesAgree {k} {s} (hostess_moves e) a =
    let q = After-some _ _ (hostess_states k s.hostess s.n_checked s.shared a.hostess) e in
    record {
      hostess = q.0;
      pilot = rw (q.1) a.pilot;
      size = rw (q.2) a.size;
      passengers = λ j lt. rw (q.2) (a.passengers j lt);
    }
Step-StatesAgree {k} {s} (passenger_moves {t} {p} i lt e) a =
    let q =
      After-some _ _
        (passenger_states k i (s.passenger i) s.shared (omega (arith, a.size)) (a.passengers i lt))
        e in
    record {
      pilot = rw (q.1.pilot) a.pilot;
      hostess = rw (q.1.hostess) a.hostess;
      size = q.2 ∙ a.size;
      passengers = λ j below. elim (Bool-cases (i == j)) [
        | inl own ↦
            let same : i ≡ j = ground arith in
            rw own (subst (λ x. PassengerState p (get_elem? (states_of t) x)) same (q.0))
        | inr other ↦
            let ne : i ≢ j = ground arith in
            let kept : get_elem? (states_of t) j ≡ get_elem? (states_of s.shared) j =
              After-some _ _ (other_states k i j (s.passenger i) s.shared ne) e in
            rw (other, kept) (a.passengers j below)
      ];
    }

-- The state fields of the pilot, the hostess and every passenger agree with their places in every
-- reachable state, whatever `semop` does, if the array of states has a place for every passenger.
pub states_agree :
    (k : SemOp) (f : FullStat) (s : System)
    → length f.st.passenger_stat ≡ n_pass
    → Reach k f s
    → StatesAgree s
states_agree k f s e begin = initial-StatesAgree f e
states_agree k f s e (later r st) = Step-StatesAgree st (states_agree k f _ e r)
