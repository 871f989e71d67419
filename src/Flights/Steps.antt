-- ===== src/Flights/Steps.antt =====
-- The records of the flights are in step with the counters in every reachable state.
use so_assignment2_air_bridg.Base.{
  ℕ, ◌+◌, ◌≡◌, ◌≤◌, refl, List, [], ◌∷◌, ◌++◌, arith, none, some, subst,
}
use so_assignment2_air_bridg.Data.{n_pass}
use so_assignment2_air_bridg.Semaphore.Ideal.{ideal}
use so_assignment2_air_bridg.Shared.{Shared, Turn}
use so_assignment2_air_bridg.Pilot.{PilotPlace, pilot_step}
use so_assignment2_air_bridg.Hostess.{HostessPlace, hostess_step}
use so_assignment2_air_bridg.Passenger.{PassengerPlace, passenger_step}
use so_assignment2_air_bridg.Main.{MainPlace}
use so_assignment2_air_bridg.System.{
  System, Step, main_moves, pilot_moves, hostess_moves, passenger_moves,
}
use so_assignment2_air_bridg.Invariant.{
  SystemInv, Inv, Counts, pilot_awaiting, hostess_boarding, hostess_accepted, hostess_counted,
  PilotPlane, PilotFlag, HostessPlane, Inv-IsLow, IsLow, After, After-some, board_passenger-Boarded,
}
use so_assignment2_air_bridg.Frame.{
  Kept, pilot_opened, hostess_filling, main_same, pilot_same, hostess_same, passenger_same,
}
use so_assignment2_air_bridg.Termination.{arriving-drop_down}
use so_assignment2_air_bridg.Flights.Boardings.{
  boardings, pilot_boardings, hostess_boardings, passenger_boardings, main_boardings,
}
use so_assignment2_air_bridg.Flights.Operations.{
  Ledger, Kept-Ledger, arrive-Ledger, signal_ready_for_boarding-Ledger, board_passenger-Ledger,
  signal_ready_to_flight-Ledger,
}

-- Some list of flights is recorded.
abbrev pub Recorded : ℕ → Shared → Type 0
Recorded o s = (fl : List ℕ) × Ledger fl o s

-- The same flights, counted by other means.
same_count : {s : Shared} {o q : ℕ} → o ≡ q → Recorded o s → Recorded q s
same_count {s} e l = subst (λ x. Recorded x s) e l

-- A step that leaves the flights alone.
Kept-Recorded :
    {P : Type 0} (count : P → ℕ) (o r : ℕ) {s : Shared} (w : Turn P)
    → Recorded (o + r) s
    → After (λ t q. Kept s t o (count q)) w
    → After (λ t _. boardings t.log ≡ boardings s.log) w
    → After (λ t q. Recorded (count q + r) t) w
Kept-Recorded count o r none l a b = tt
Kept-Recorded count o r (some (t, q)) l a b = (l.0, Kept-Ledger r a b (l.1))

pub filling-boarding : (h : HostessPlace) → hostess_filling h ≤ hostess_boarding h
unfolding hostess_filling hostess_boarding
filling-boarding h = ground arith

pub Inv-boarded :
    {m : MainPlace} {p : PilotPlace} {h : HostessPlace} {n : ℕ} {c : Counts} {s : Shared}
    → Inv m p h n c s
    → s.f_st.total_pass_boarded ≤ n_pass
Inv-boarded i = omega (arith, i.queued, i.ordered)

module _ {m : MainPlace} {n : ℕ} {c : Counts} {s : Shared} where
  pilot_records :
      {h : HostessPlace} (p : PilotPlace)
      → Inv m p h n c s
      → Recorded (pilot_opened p + hostess_filling h) s
      → After (λ t q. Recorded (pilot_opened q + hostess_filling h) t) (pilot_step ideal p s)
  unfolding pilot_step pilot_opened pilot_awaiting PilotPlane PilotFlag
  pilot_records {h} PilotPlace.signal_body i l =
      let quiet : hostess_filling h + s.sems 5 ≡ 0 = omega (arith, i.turn, filling-boarding h) in
      let l : Recorded (hostess_filling h) s = same_count (omega arith) l in
      same_count (omega arith) (
        l.0,
        signal_ready_for_boarding-Ledger s quiet i.pilot_plane i.pilot_flag (Inv-boarded i) (l.1),
      )
  pilot_records {h} p i l =
      Kept-Recorded pilot_opened (pilot_opened p) (hostess_filling h) (pilot_step ideal p s) l
        (pilot_same s (Inv-IsLow i) p (λ b. ground arith))
        (pilot_boardings ideal s p (λ b. ground arith))

  hostess_records :
      {p : PilotPlace} (h : HostessPlace)
      → Inv m p h n c s
      → Recorded (hostess_filling h + pilot_opened p) s
      → After
          (λ t q. Recorded (hostess_filling (q.0) + pilot_opened p) t)
          (hostess_step ideal h n s)
  unfolding hostess_step hostess_filling hostess_boarding hostess_accepted hostess_counted
      HostessPlane
  hostess_records {p} HostessPlace.board_body i l =
      let one : 1 + pilot_opened p + s.sems 5 ≡ 1 = omega (arith, l.1.single) in
      let aboard : s.f_st.n_pass_in_flight ≤ n_pass = omega arith in
      (
        l.0,
        board_passenger-Ledger s one
            (board_passenger-Boarded s (omega arith) (omega (arith, i.queued, i.ordered)) aboard
              (Inv-boarded i))
            (l.1),
      )
  hostess_records {p} HostessPlace.ready_body i l =
      let l : Recorded (pilot_opened p + 1) s = same_count (omega arith) l in
      same_count (omega arith) (
        l.0 ++ (s.f_st.n_pass_in_flight ∷ []),
        signal_ready_to_flight-Ledger s i.hostess_plane (Inv-boarded i) (l.1),
      )
  hostess_records {p} h i l =
      Kept-Recorded (λ q. hostess_filling (q.0)) (hostess_filling h) (pilot_opened p)
        (hostess_step ideal h n s) l
        (hostess_same s (Inv-IsLow i) h n (λ b. ground arith) (λ b. ground arith))
        (hostess_boardings ideal s h n (λ b. ground arith) (λ b. ground arith))

passenger_records :
    (r : ℕ) (s : Shared) (a : PassengerPlace) (id : ℕ)
    → IsLow s.sems
    → (a ≡ PassengerPlace.arrive_body → r + s.sems 5 ≡ 0)
    → Recorded (0 + r) s
    → After (λ t _. Recorded (0 + r) t) (passenger_step ideal id a s)
unfolding passenger_step
passenger_records r s PassengerPlace.arrive_body id low quiet l =
    (l.0, arrive-Ledger id s (omega (arith, quiet refl)) (l.1))
passenger_records r s a id low quiet l =
    Kept-Recorded (λ _. 0) 0 r (passenger_step ideal id a s) l
      (passenger_same s low a id (λ b. ground arith)) (passenger_boardings ideal s id a)

abbrev pub SystemRecorded : System → Type 0
SystemRecorded s = Recorded (pilot_opened s.pilot + hostess_filling s.hostess) s.shared

-- No flight is open while a passenger leaves the plane.
landed-quiet :
    {m : MainPlace} {p : PilotPlace} {h : HostessPlace} {n : ℕ} {c : Counts} {s : Shared}
    → Inv m p h n c s
    → p ≡ PilotPlace.drop_down
    → pilot_opened p + hostess_filling h + s.sems 5 ≡ 0
unfolding pilot_opened pilot_awaiting
landed-quiet {h} {s} i e =
    let turn : s.sems 5 + hostess_boarding h + s.sems 6 ≡ 0 = rw e at i.turn in
    rw e (omega (arith, filling-boarding h))

pub Step-Recorded :
    {s t : System} → Step ideal s t → SystemInv s → SystemRecorded s → SystemRecorded t
Step-Recorded {s} (main_moves e) i l =
    let r = pilot_opened s.pilot + hostess_filling s.hostess in
    same_count (omega arith) (
      After-some _ _
        (Kept-Recorded (λ _. 0) 0 r _ (same_count (omega arith) l)
          (main_same s.shared (Inv-IsLow i) s.main _) (main_boardings ideal s.shared _ s.main))
        e)
Step-Recorded {s} (pilot_moves e) i l = After-some _ _ (pilot_records s.pilot i l) e
Step-Recorded {s} (hostess_moves e) i l =
    same_count (omega arith)
      (After-some _ _ (hostess_records s.hostess i (same_count (omega arith) l)) e)
Step-Recorded {s} (passenger_moves j lt e) i l =
    let r = pilot_opened s.pilot + hostess_filling s.hostess in
    same_count (omega arith) (
      After-some _ _
        (passenger_records r s.shared (s.passenger j) j (Inv-IsLow i)
          (λ a. landed-quiet i (arriving-drop_down s j lt i a)) (same_count (omega arith) l))
        e)
