-- ===== src/LogOrder/Steps.antt =====
-- Each step keeps the entries of the log in order.
use so_assignment2_air_bridg.Base.{ℕ, ◌+◌, ◌≡◌, ◌≢◌, ◌≤◌, refl, arith, some, true, ◌<◌, ◌∙◌}
use so_assignment2_air_bridg.Data.{n_pass, max_fc}
use so_assignment2_air_bridg.Semaphore.Ideal.{ideal}
use so_assignment2_air_bridg.Shared.{Shared}
use so_assignment2_air_bridg.Pilot.{PilotPlace, pilot_step}
use so_assignment2_air_bridg.Hostess.{
  HostessPlace, hostess_step, board_passenger, signal_ready_to_flight, set_hostess_stat,
}
use so_assignment2_air_bridg.Passenger.{PassengerPlace, passenger_step}
use so_assignment2_air_bridg.Main.{MainPlace, main_step, write_result}
use so_assignment2_air_bridg.System.{
  System, Step, main_moves, pilot_moves, hostess_moves, passenger_moves, pilot_ended,
}
use so_assignment2_air_bridg.Invariant.{
  SystemInv, Inv, Counts, IsLow, Inv-IsLow, After, After-some, PilotPlane, HostessPlane, MayFly,
  pilot_awaiting, hostess_boarding, hostess_accepted, hostess_counted, Boarded,
  board_passenger-Boarded, pilot_awaiting-le,
}
use so_assignment2_air_bridg.Frame.{
  pilot_opened, hostess_filling, main_same, pilot_same, hostess_same, passenger_same,
}
use so_assignment2_air_bridg.Flights.{Inv-boarded, filling-boarding}
use so_assignment2_air_bridg.Termination.{arriving-drop_down}
use so_assignment2_air_bridg.LogOrder.Phases.{
  phase_of, Stage, on_ground, boarding, flying_out, unloading, home, away, back, stage, enough,
  next, next_phase, main_phase, pilot_phase, hostess_phase, passenger_phase, phase_of-save_state,
  phase_of-save_start_boarding, phase_of-save_passenger_checked, phase_of-save_flight_departed,
  phase_of-save_flight_arrived, phase_of-save_flight_returning, phase_of-save_air_lift_result,
}
use so_assignment2_air_bridg.LogOrder.Kept.{expected, InOrder, pilot-Kept, other-Kept, open_flights}

module _ {m : MainPlace} {n : ℕ} {c : Counts} {s : Shared} where
  pilot_InOrder :
      {h : HostessPlace} (p : PilotPlace)
      → Inv m p h n c s
      → InOrder (stage p) (pilot_opened p + hostess_filling h) s
      → After
          (λ t q.
            (q ≢ PilotPlace.failed) → InOrder (stage q) (pilot_opened q + hostess_filling h) t)
          (pilot_step ideal p s)
  unfolding pilot_step pilot_opened pilot_awaiting PilotPlane stage expected next next_phase
  pilot_InOrder {h} PilotPlace.signal_body i l =
      grind (arith, phase_of-save_start_boarding, phase_of-save_state, i.pilot_plane)
  pilot_InOrder {h} PilotPlace.drop_save i l =
      let shut : 0 + hostess_filling h + s.sems 5 ≡ 0 = omega (arith, i.turn, filling-boarding h) in
      let out : phase_of s.log ≡ some flying_out = rw shut at l in
      grind (arith, phase_of-save_flight_arrived, phase_of-save_state, out)
  pilot_InOrder {h} PilotPlace.return_save i l = grind (arith, phase_of-save_flight_returning)
  pilot_InOrder {h} p i l =
      pilot-Kept (stage p) (pilot_opened p) (hostess_filling h) s (pilot_step ideal p s) l
        (pilot_same s (Inv-IsLow i) p (λ b. ground arith))
        (pilot_phase ideal s p (λ b. ground arith) (λ b. ground arith) (λ b. ground arith))

awaiting-away : (p : PilotPlace) → pilot_awaiting p ≡ 1 → (stage p ≡ away) × (pilot_opened p ≡ 0)
unfolding pilot_awaiting stage pilot_opened
awaiting-away (PilotPlace.flight_enter _) e = absurd (omega arith)
awaiting-away (PilotPlace.flight_body _) e = absurd (omega arith)
awaiting-away (PilotPlace.flight_leave _) e = absurd (omega arith)
awaiting-away p e = ground arith

enough_lem : (n total : ℕ) → MayFly n total → enough n total ≡ true
unfolding MayFly enough
enough_lem n total h = ground arith

expected-open : (o a : ℕ) → 1 ≤ o → expected away o a ≡ boarding a
unfolding expected
expected-open o a h = ground arith

board_phase :
    (s : Shared)
    → phase_of s.log ≡ some (boarding s.f_st.n_pass_in_flight)
    → s.f_st.n_pass_in_flight < max_fc
    → Boarded s.f_st (board_passenger s).f_st
    → phase_of (board_passenger s).log ≡ some (boarding (board_passenger s).f_st.n_pass_in_flight)
unfolding board_passenger next next_phase
board_phase s now room b =
    grind (arith, phase_of-save_state, phase_of-save_passenger_checked, b.aboard)

departed_phase :
    (s : Shared)
    → phase_of s.log ≡ some (boarding s.f_st.n_pass_in_flight)
    → MayFly s.f_st.n_pass_in_flight s.f_st.total_pass_boarded
    → phase_of (signal_ready_to_flight s).log ≡ some flying_out
unfolding signal_ready_to_flight set_hostess_stat next next_phase
departed_phase s now may =
    let ready = enough_lem _ _ may in
    grind (arith, phase_of-save_state, phase_of-save_flight_departed, ready)

module _ {m : MainPlace} {n : ℕ} {c : Counts} {s : Shared} where
  hostess_InOrder :
      {p : PilotPlace} (h : HostessPlace)
      → Inv m p h n c s
      → InOrder (stage p) (hostess_filling h + pilot_opened p) s
      → After
          (λ t q. InOrder (stage p) (hostess_filling (q.0) + pilot_opened p) t)
          (hostess_step ideal h n s)
  unfolding hostess_step hostess_filling hostess_boarding hostess_accepted hostess_counted
      HostessPlane expected
  hostess_InOrder {p} HostessPlace.board_body i l =
      let (out, none_open) = awaiting-away p (omega (arith, i.turn, pilot_awaiting-le p)) in
      let aboard : s.f_st.n_pass_in_flight ≤ n_pass = omega (arith, i.hostess_plane) in
      let b =
        board_passenger-Boarded s (omega arith) (omega (arith, i.queued, i.ordered)) aboard
          (Inv-boarded i) in
      let open_now = expected-open (1 + pilot_opened p + s.sems 5) in
      let now : phase_of s.log ≡ some (boarding s.f_st.n_pass_in_flight) =
        rw (out, open_now s.f_st.n_pass_in_flight (omega arith)) at l in
      rw (out, open_now _ (omega arith)) (board_phase s now (i.hostess_plane.0) b)
  hostess_InOrder {p} HostessPlace.ready_body i l =
      let (out, none_open) = awaiting-away p (omega (arith, i.turn, pilot_awaiting-le p)) in
      let now : phase_of s.log ≡ some (boarding s.f_st.n_pass_in_flight) =
        rw (out, expected-open (1 + pilot_opened p + s.sems 5) _ (omega arith)) at l in
      let shut : 0 + pilot_opened p + s.sems 5 ≡ 0 =
        omega (arith, none_open, i.turn, pilot_awaiting-le p) in
      rw (out, shut) (departed_phase s now i.hostess_plane)
  hostess_InOrder {p} h i l =
      other-Kept (λ q. hostess_filling (q.0)) (stage p) (hostess_filling h) (pilot_opened p) s
        (hostess_step ideal h n s) l
        (hostess_same s (Inv-IsLow i) h n (λ b. ground arith) (λ b. ground arith))
        (hostess_phase ideal s h n (λ b. ground arith) (λ b. ground arith))

passenger_InOrder :
    (g : Stage) (r : ℕ) (s : Shared) (a : PassengerPlace) (id : ℕ)
    → IsLow s.sems
    → (a ≡ PassengerPlace.arrive_body → g ≡ back)
    → InOrder g (0 + r) s
    → After (λ t _. InOrder g (0 + r) t) (passenger_step ideal id a s)
unfolding passenger_step expected
passenger_InOrder g r s PassengerPlace.arrive_body id low quiet l =
    let here : phase_of s.log ≡ some unloading = rw (quiet refl) at l in
    rw (quiet refl) (passenger_phase ideal s id PassengerPlace.arrive_body ∙ here)
passenger_InOrder g r s a id low quiet l =
    other-Kept (λ _. 0) g 0 r s (passenger_step ideal id a s) l
      (passenger_same s low a id (λ b. ground arith)) (passenger_phase ideal s id a)

main_InOrder :
    (g : Stage) (r : ℕ) (s : Shared) (m : MainPlace) (e : ℕ)
    → IsLow s.sems
    → (m ≡ MainPlace.result → g ≡ home)
    → InOrder g (0 + r) s
    → After (λ t _. InOrder g (0 + r) t) (main_step ideal e m s)
unfolding main_step expected write_result next next_phase
main_InOrder g r s MainPlace.result e low over l =
    let here : phase_of s.log ≡ some on_ground = rw (over refl) at l in
    rw (over refl) (rw (phase_of-save_air_lift_result, here) refl)
main_InOrder g r s m e low over l =
    other-Kept (λ _. 0) g 0 r s (main_step ideal e m s) l (main_same s low m e)
      (main_phase ideal s e m (λ b. ground arith))

same_open : (g : Stage) (s : Shared) (o q : ℕ) → o ≡ q → InOrder g o s → InOrder g q s
same_open g s o q e l = rw e at l

pub ended-home : (p : PilotPlace) → pilot_ended p ≡ 1 → stage p ≡ home
unfolding stage
ended-home p e = ground arith

not_lost : (p : PilotPlace) (a b : ℕ) → PilotPlane p a b → p ≢ PilotPlace.failed
unfolding PilotPlane
not_lost p a b h e = rw e at h

landed-back : (p : PilotPlace) → p ≡ PilotPlace.drop_down → stage p ≡ back
unfolding stage
landed-back p e = rw e refl

pub Step-InOrder :
    {s t : System}
    → Step ideal s t
    → SystemInv s
    → SystemInv t
    → (s.main ≡ MainPlace.result → stage s.pilot ≡ home)
    → InOrder (stage s.pilot) (open_flights s) s.shared
    → InOrder (stage t.pilot) (open_flights t) t.shared
Step-InOrder {s} (main_moves {t} e) i i' over l =
    let g = stage s.pilot in
    same_open g t _ _ (omega arith) (
      After-some _ _
        (main_InOrder g (open_flights s) s.shared s.main _ (Inv-IsLow i) over
          (same_open g s.shared _ _ (omega arith) l))
        e)
Step-InOrder {s} (pilot_moves {p} e) i i' over l =
    After-some _ _ (pilot_InOrder s.pilot i l) e (not_lost p _ _ i'.pilot_plane)
Step-InOrder {s} (hostess_moves {t} e) i i' over l =
    let g = stage s.pilot in
    same_open g t _ _ (omega arith)
      (After-some _ _ (hostess_InOrder s.hostess i (same_open g s.shared _ _ (omega arith) l)) e)
Step-InOrder {s} (passenger_moves {t} j lt e) i i' over l =
    let g = stage s.pilot in
    same_open g t _ _ (omega arith) (
      After-some _ _
        (passenger_InOrder g (open_flights s) s.shared (s.passenger j) j (Inv-IsLow i)
          (λ b. landed-back s.pilot (arriving-drop_down s j lt i b))
          (same_open g s.shared _ _ (omega arith) l))
        e)
