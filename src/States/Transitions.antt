-- ===== src/States/Transitions.antt =====
-- How the state fields change (`pilotStat`, `hostessStat` and `passengerStat` of src/probDataStruct.h),
-- whatever the semaphores do.
use so_assignment2_air_bridg.Base.{
  ℕ, ◌+◌, ◌%◌, ◌≡◌, ◌<◌, ◌⊎◌, arith, refl, Option, some, none, get_elem?, length,
  get_elem?-set_self, Bool-cases, inl, inr, subst, ◌==◌,
}
use so_assignment2_air_bridg.Data
use so_assignment2_air_bridg.Data.{FullStat, n_pass}
use so_assignment2_air_bridg.Semaphore.{SemOp}
use so_assignment2_air_bridg.Shared.{Shared, Turn}
use so_assignment2_air_bridg.Invariant.{After, After-some}
use so_assignment2_air_bridg.Pilot.{PilotPlace, pilot_step}
use so_assignment2_air_bridg.Hostess.{HostessPlace, hostess_step}
use so_assignment2_air_bridg.Passenger.{PassengerPlace, passenger_step}
use so_assignment2_air_bridg.System.{
  System, Step, main_moves, pilot_moves, hostess_moves, passenger_moves, Reach, exits,
}
use so_assignment2_air_bridg.States.Places.{PilotState, HostessState, PassengerState}
use so_assignment2_air_bridg.States.{
  states_agree, states_of, main_states, pilot_states, hostess_states, other_states,
  passenger_states,
}

-- The states follow each other in the order of the constants; the pilot's form a round.
abbrev pub PilotNext : ℕ → ℕ → Type 0
PilotNext a b = (b ≡ a) ⊎ (b ≡ (a + 1) % 5)

-- The hostess goes from a check to the next passenger or to the departure.
abbrev pub HostessNext : ℕ → ℕ → Type 0
HostessNext a b =
    (b ≡ a) ⊎ ((b ≡ (a + 1) % 4) ⊎ ((a ≡ Data.check_passport) × (b ≡ Data.wait_for_passenger)))

-- A passenger goes to the queue, aboard and to the destination.
abbrev pub PassengerNext : Option ℕ → Option ℕ → Type 0
PassengerNext a b =
    (b ≡ a)
    ⊎ (((a ≡ some Data.going_to_airport) × (b ≡ some Data.in_queue))
        ⊎ (((a ≡ some Data.in_queue) × (b ≡ some Data.in_flight))
            ⊎ ((a ≡ some Data.in_flight) × (b ≡ some Data.at_destination))))

After-map :
    {P : Type 0} {Q R : Shared → P → Type 0}
    → ((t : Shared) (q : P) → Q t q → R t q)
    → (r : Turn P) → After Q r
    → After R r
After-map h none a = a
After-map h (some (t, q)) a = h t q a

module _ (k : SemOp) (s : Shared) where
  pilot_follows :
      (p : PilotPlace)
      → PilotState p s.f_st.st.pilot_stat
      → After (λ t _. PilotNext s.f_st.st.pilot_stat t.f_st.st.pilot_stat) (pilot_step k p s)
  unfolding pilot_step PilotState
  pilot_follows p h = ground arith

  hostess_follows :
      (h : HostessPlace) (n : ℕ)
      → HostessState h s.f_st.st.hostess_stat
      → After
          (λ t _. HostessNext s.f_st.st.hostess_stat t.f_st.st.hostess_stat)
          (hostess_step k h n s)
  unfolding hostess_step HostessState
  hostess_follows h n i = ground arith

  passenger_follows :
      (id : ℕ) (a : PassengerPlace)
      → id < length (states_of s)
      → PassengerState a (get_elem? (states_of s) id)
      → After
          (λ t _. PassengerNext (get_elem? (states_of s) id) (get_elem? (states_of t) id))
          (passenger_step k id a s)
  unfolding passenger_step PassengerState
  passenger_follows id a lt i = ground (
    arith,
    get_elem?-set_self (states_of s) id Data.in_queue lt,
    get_elem?-set_self (states_of s) id Data.in_flight lt,
    get_elem?-set_self (states_of s) id Data.at_destination lt,
  )

  -- The field of every passenger, whoever moves.
  each_follows :
      (id j : ℕ) (a : PassengerPlace)
      → id < length (states_of s)
      → PassengerState a (get_elem? (states_of s) id)
      → After
          (λ t _. PassengerNext (get_elem? (states_of s) j) (get_elem? (states_of t) j))
          (passenger_step k id a s)
  each_follows id j a lt i = elim (Bool-cases (id == j)) [
    | inl own ↦
        let same : id ≡ j = ground arith in
        subst
          (λ x.
            After (λ t _. PassengerNext (get_elem? (states_of s) x) (get_elem? (states_of t) x))
              (passenger_step k id a s))
          same (passenger_follows id a lt i)
    | inr other ↦ After-map (λ t q e. inl e) _ (other_states k id j a s (ground arith))
  ]

-- In a step from a reachable state, whatever `semop` does, each state field keeps its value or goes on
-- to the next one of its process: the pilot's in a round, the hostess's in a round with the way back
-- from the check to the wait for a passenger, a passenger's only forwards to the destination.
pub transitions_legal :
    (k : SemOp) (f : FullStat) (s t : System)
    → length f.st.passenger_stat ≡ n_pass
    → Reach k f s
    → Step k s t
    → (j : ℕ) → j < n_pass
    → PilotNext s.shared.f_st.st.pilot_stat t.shared.f_st.st.pilot_stat
      × HostessNext s.shared.f_st.st.hostess_stat t.shared.f_st.st.hostess_stat
      × PassengerNext (get_elem? (states_of s.shared) j) (get_elem? (states_of t.shared) j)
transitions_legal k f s t size r (main_moves e) j lt =
    let (same, list) = After-some _ _ (main_states k (exits s) s.main s.shared) e in
    (inl same.pilot, inl same.hostess, inl (rw list refl))
transitions_legal k f s t size r (pilot_moves e) j lt =
    let a = states_agree k f s size r in
    let (_, hostess, list) = After-some _ _ (pilot_states k s.pilot s.shared a.pilot) e in
    (After-some _ _ (pilot_follows k s.shared s.pilot a.pilot) e, inl hostess, inl (rw list refl))
transitions_legal k f s t size r (hostess_moves e) j lt =
    let a = states_agree k f s size r in
    let (_, pilot, list) =
      After-some _ _ (hostess_states k s.hostess s.n_checked s.shared a.hostess) e in
    (
      inl pilot,
      After-some _ _ (hostess_follows k s.shared s.hostess s.n_checked a.hostess) e,
      inl (rw list refl),
    )
transitions_legal k f s t size r (passenger_moves i below e) j lt =
    let a = states_agree k f s size r in
    let inside : i < length (states_of s.shared) = omega (arith, a.size) in
    let (_, same, _) =
      After-some _ _ (passenger_states k i (s.passenger i) s.shared inside (a.passengers i below))
        e in
    (
      inl same.pilot,
      inl same.hostess,
      After-some _ _ (each_follows k s.shared i j (s.passenger i) inside (a.passengers i below)) e,
    )
