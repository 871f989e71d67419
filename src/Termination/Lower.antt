-- ===== src/Termination/Lower.antt =====
-- Every step of a process lowers its own part of the measure, and raises no other.
use so_assignment2_air_bridg.Base.{
  ℕ, ◌+◌, ◌≡◌, ◌≤◌, ◌<◌, true, false, refl, arith, ltb, ◌==◌, Bool-cases, inl, inr, decr,
}
use so_assignment2_air_bridg.Data.{n_pass}
use so_assignment2_air_bridg.Semaphore.Ideal.{ideal}
use so_assignment2_air_bridg.Shared.{Shared}
use so_assignment2_air_bridg.Pilot.{PilotPlace, pilot_step}
use so_assignment2_air_bridg.Hostess.{HostessPlace, hostess_step, board_passenger}
use so_assignment2_air_bridg.Passenger.{PassengerPlace, passenger_step}
use so_assignment2_air_bridg.Main.{MainPlace, main_step}
use so_assignment2_air_bridg.Invariant.{
  Counts, Inv, IsLow, After, down_turn, up_turn, gate_turn, PilotPlane, MayFly-bounds,
  pilot_awaiting-le, pilot_awaiting, HostessCount, HostessPlane, hostess_boarding, hostess_accepted,
  hostess_seen, hostess_counted, MainRuns, Boarded, board_passenger-Boarded,
}
use so_assignment2_air_bridg.Termination.Measure.{
  passenger_left, hostess_place_left, hostess_left, pilot_left, main_left,
}

-- The pilot's part in a state of the problem.
abbrev pub pilot_part : PilotPlace → Shared → ℕ
pilot_part p s = pilot_left p s.f_st.n_pass_in_flight s.f_st.total_pass_boarded

module _ (m : MainPlace) (h : HostessPlace) (n : ℕ) (c : Counts) (s : Shared)
    (low : IsLow s.sems) where
  pub pilot_lower :
      (p : PilotPlace)
      → Inv m p h n c s
      → After (λ t q. pilot_part q t < pilot_part p s) (pilot_step ideal p s)
  unfolding pilot_step pilot_left PilotPlane
  pilot_lower PilotPlace.connect i = gate_turn _ _ _ _ (omega (arith, low)) (λ pos. ground arith)
  pilot_lower PilotPlace.test i = elim (Bool-cases s.f_st.finished) [
    | inl e ↦ rw e (ground arith)
    | inr e ↦ rw e (ground arith)
  ]
  pilot_lower (PilotPlace.flight_enter true) i = down_turn _ _ _ _ 1 (λ pos. ground arith)
  pilot_lower (PilotPlace.flight_enter false) i = down_turn _ _ _ _ 1 (λ pos. ground arith)
  pilot_lower (PilotPlace.flight_body true) i = ground arith
  pilot_lower (PilotPlace.flight_body false) i = ground arith
  pilot_lower (PilotPlace.flight_leave true) i =
      up_turn _ _ _ _ 1 (omega (arith, low)) (ground arith)
  pilot_lower (PilotPlace.flight_leave false) i =
      up_turn _ _ _ _ 1 (omega (arith, low)) (ground arith)
  pilot_lower PilotPlace.signal_enter i = down_turn _ _ _ _ 1 (λ pos. ground arith)
  pilot_lower PilotPlace.signal_body i = ground arith
  pilot_lower PilotPlace.signal_leave i = up_turn _ _ _ _ 1 (omega (arith, low)) (ground arith)
  pilot_lower PilotPlace.signal_post i = up_turn _ _ _ _ 5 (omega (arith, low)) (ground arith)
  pilot_lower PilotPlace.wait_enter i = down_turn _ _ _ _ 1 (λ pos. ground arith)
  pilot_lower PilotPlace.wait_body i = ground arith
  pilot_lower PilotPlace.wait_leave i = up_turn _ _ _ _ 1 (omega (arith, low)) (ground arith)
  pilot_lower PilotPlace.wait_down i = down_turn _ _ _ _ 6 λ pos.
      let one : s.sems 6 ≡ 1 = omega (arith, i.turn, pilot_awaiting-le PilotPlace.wait_down) in
      ground (arith, MayFly-bounds _ _ (i.plane_ready one))
  pilot_lower PilotPlace.drop_enter i = down_turn _ _ _ _ 1 (λ pos. ground arith)
  pilot_lower PilotPlace.drop_stat i = ground (arith, MayFly-bounds _ _ i.pilot_plane)
  pilot_lower (PilotPlace.drop_loop j) i = elim (Bool-cases (ltb j s.f_st.n_pass_in_flight)) [
    | inl e ↦ rw e (up_turn _ _ _ _ 4 (omega (arith, low)) (ground arith))
    | inr e ↦ rw e (ground arith)
  ]
  pilot_lower PilotPlace.drop_save i = ground arith
  pilot_lower PilotPlace.drop_leave i = up_turn _ _ _ _ 1 (omega (arith, low)) (ground arith)
  pilot_lower PilotPlace.drop_down i = down_turn _ _ _ _ 8 (λ pos. ground arith)
  pilot_lower PilotPlace.return_enter i = down_turn _ _ _ _ 1 (λ pos. ground arith)
  pilot_lower PilotPlace.return_save i = ground arith
  pilot_lower PilotPlace.return_leave i = up_turn _ _ _ _ 1 (omega (arith, low)) (ground arith)
  pilot_lower PilotPlace.exited i = tt
  pilot_lower PilotPlace.failed i = tt

-- While the pilot waits for the hostess, one more passenger aboard is one more who has boarded.
awaiting-pilot_left :
    (p : PilotPlace) (a b : ℕ)
    → pilot_awaiting p ≡ 1
    → pilot_left p (a + 1) (b + 1) ≡ pilot_left p a b
unfolding pilot_awaiting pilot_left
awaiting-pilot_left PilotPlace.wait_enter a b e = omega arith
awaiting-pilot_left PilotPlace.wait_body a b e = omega arith
awaiting-pilot_left PilotPlace.wait_leave a b e = omega arith
awaiting-pilot_left PilotPlace.wait_down a b e = omega arith
awaiting-pilot_left _ a b e = absurd (omega arith)

module _ (m : MainPlace) (p : PilotPlace) (n : ℕ) (c : Counts) (s : Shared)
    (low : IsLow s.sems) where
  pub hostess_lower :
      (h : HostessPlace)
      → Inv m p h n c s
      → After
          (λ t q. (hostess_left q.0 q.1 < hostess_left h n) × (pilot_part p t ≤ pilot_part p s))
          (hostess_step ideal h n s)
  unfolding hostess_step hostess_place_left HostessCount HostessPlane hostess_boarding
      hostess_accepted hostess_seen hostess_counted
  hostess_lower HostessPlace.connect i =
      gate_turn _ _ _ _ (omega (arith, low)) (λ pos. ground arith)
  hostess_lower HostessPlace.next_enter i = down_turn _ _ _ _ 1 (λ pos. ground arith)
  hostess_lower HostessPlace.next_body i = ground arith
  hostess_lower HostessPlace.next_leave i = up_turn _ _ _ _ 1 (omega (arith, low)) (ground arith)
  hostess_lower HostessPlace.next_down i = down_turn _ _ _ _ 5 (λ pos. ground arith)
  hostess_lower HostessPlace.wait_enter i = down_turn _ _ _ _ 1 (λ pos. ground arith)
  hostess_lower HostessPlace.wait_body i = ground arith
  hostess_lower HostessPlace.wait_leave i = up_turn _ _ _ _ 1 (omega (arith, low)) (ground arith)
  hostess_lower HostessPlace.wait_down i = down_turn _ _ _ _ 2 (λ pos. ground arith)
  hostess_lower HostessPlace.check_enter i = down_turn _ _ _ _ 1 (λ pos. ground arith)
  hostess_lower HostessPlace.check_body i = ground arith
  hostess_lower HostessPlace.check_leave i = up_turn _ _ _ _ 1 (omega (arith, low)) (ground arith)
  hostess_lower HostessPlace.check_call i = up_turn _ _ _ _ 3 (omega (arith, low)) (ground arith)
  hostess_lower HostessPlace.check_id i = down_turn _ _ _ _ 7 (λ pos. ground arith)
  hostess_lower HostessPlace.board_enter i = down_turn _ _ _ _ 1 (λ pos. ground arith)
  hostess_lower HostessPlace.board_body i =
      let a : pilot_awaiting p ≡ 1 = omega (arith, pilot_awaiting-le p) in
      let b : Boarded s.f_st (board_passenger s).f_st =
        board_passenger-Boarded s (omega arith) (omega arith) (omega arith) (omega arith) in
      (
        ground arith,
        ground (arith, awaiting-pilot_left p s.f_st.n_pass_in_flight s.f_st.total_pass_boarded a),
      )
  hostess_lower (HostessPlace.board_leave true) i =
      up_turn _ _ _ _ 1 (omega (arith, low)) (ground arith)
  hostess_lower (HostessPlace.board_leave false) i =
      up_turn _ _ _ _ 1 (omega (arith, low)) (ground arith)
  hostess_lower HostessPlace.ready_enter i = down_turn _ _ _ _ 1 (λ pos. ground arith)
  hostess_lower HostessPlace.ready_body i = ground arith
  hostess_lower HostessPlace.ready_leave i = up_turn _ _ _ _ 1 (omega (arith, low)) (ground arith)
  hostess_lower HostessPlace.ready_post i = elim (Bool-cases (ltb n n_pass)) [
    | inl e ↦ rw e (up_turn _ _ _ _ 6 (omega (arith, low)) (ground arith))
    | inr e ↦ rw e (up_turn _ _ _ _ 6 (omega (arith, low)) (ground arith))
  ]
  hostess_lower HostessPlace.exited i = tt
  hostess_lower HostessPlace.failed i = tt

module _ (p : PilotPlace) (s : Shared) (low : IsLow s.sems) where
  pub passenger_lower :
      (a : PassengerPlace) (id : ℕ)
      → (a ≡ PassengerPlace.arrive_body → p ≡ PilotPlace.drop_down)
      → After
          (λ t b. (passenger_left b < passenger_left a) × (pilot_part p t ≤ pilot_part p s))
          (passenger_step ideal id a s)
  unfolding passenger_step passenger_left pilot_left
  passenger_lower PassengerPlace.connect id i =
      gate_turn _ _ _ _ (omega (arith, low)) (λ pos. ground arith)
  passenger_lower PassengerPlace.queue_enter id i = down_turn _ _ _ _ 1 (λ pos. ground arith)
  passenger_lower PassengerPlace.queue_body id i = ground arith
  passenger_lower PassengerPlace.queue_leave id i =
      up_turn _ _ _ _ 1 (omega (arith, low)) (ground arith)
  passenger_lower PassengerPlace.queue_post id i =
      up_turn _ _ _ _ 2 (omega (arith, low)) (ground arith)
  passenger_lower PassengerPlace.queue_down id i = down_turn _ _ _ _ 3 (λ pos. ground arith)
  passenger_lower PassengerPlace.show_enter id i = down_turn _ _ _ _ 1 (λ pos. ground arith)
  passenger_lower PassengerPlace.show_body id i = ground arith
  passenger_lower PassengerPlace.show_leave id i =
      up_turn _ _ _ _ 1 (omega (arith, low)) (ground arith)
  passenger_lower PassengerPlace.show_post id i =
      up_turn _ _ _ _ 7 (omega (arith, low)) (ground arith)
  passenger_lower PassengerPlace.arrive_down id i = down_turn _ _ _ _ 4 (λ pos. ground arith)
  passenger_lower PassengerPlace.arrive_enter id i = down_turn _ _ _ _ 1 (λ pos. ground arith)
  passenger_lower PassengerPlace.arrive_body id i =
      rw (i refl) (elim (Bool-cases (decr s.f_st.n_pass_in_flight == 0)) [
        | inl e ↦ rw e (ground arith)
        | inr e ↦ rw e (ground arith)
      ])
  passenger_lower PassengerPlace.arrive_post id i =
      up_turn _ _ _ _ 8 (omega (arith, low)) (ground arith)
  passenger_lower PassengerPlace.arrive_leave id i =
      up_turn _ _ _ _ 1 (omega (arith, low)) (ground arith)
  passenger_lower PassengerPlace.exited id i = tt
  passenger_lower PassengerPlace.failed id i = tt

module _ (p : PilotPlace) (s : Shared) (low : IsLow s.sems) where
  pub main_lower :
      (m : MainPlace) (exits : ℕ)
      → MainRuns m
      → After
          (λ t q. (main_left q < main_left m) × (pilot_part p t ≤ pilot_part p s))
          (main_step ideal exits m s)
  unfolding main_step main_left MainRuns
  main_lower MainPlace.enable e r = up_turn _ _ _ _ 1 (omega (arith, low)) (ground arith)
  main_lower MainPlace.signal e r = up_turn _ _ _ _ 0 (omega (arith, low)) (ground arith)
  main_lower (MainPlace.waiting k) e r = ground arith
  main_lower MainPlace.result e r = ground arith
  main_lower MainPlace.exited e r = tt
  main_lower MainPlace.failed e r = tt
