-- ===== src/Frame.antt =====
-- What most steps leave alone: who is aboard, who has boarded, the records of the flights, and the
-- flight that is open for boarding.
use so_assignment2_air_bridg.Base.{
  ℕ, ◌+◌, ◌≡◌, ◌≢◌, true, false, arith, refl, ltb, Bool-cases, inl, inr,
}
use so_assignment2_air_bridg.Data.{n_pass}
use so_assignment2_air_bridg.Semaphore.Ideal.{ideal}
use so_assignment2_air_bridg.Shared.{Shared}
use so_assignment2_air_bridg.Pilot.{PilotPlace, pilot_step}
use so_assignment2_air_bridg.Hostess.{HostessPlace, hostess_step}
use so_assignment2_air_bridg.Passenger.{PassengerPlace, passenger_step}
use so_assignment2_air_bridg.Main.{MainPlace, main_step}
use so_assignment2_air_bridg.Invariant.{IsLow, After, down_turn, up_turn, gate_turn}

-- The pilot has opened a flight and not yet told the hostess.
unfoldable pub pilot_opened : PilotPlace → ℕ
pilot_opened PilotPlace.signal_leave = 1
pilot_opened PilotPlace.signal_post = 1
pilot_opened _ = 0

-- The hostess is filling a flight that she has not yet recorded.
unfoldable pub hostess_filling : HostessPlace → ℕ
hostess_filling HostessPlace.connect = 0
hostess_filling HostessPlace.next_enter = 0
hostess_filling HostessPlace.next_body = 0
hostess_filling HostessPlace.next_leave = 0
hostess_filling HostessPlace.next_down = 0
hostess_filling HostessPlace.ready_leave = 0
hostess_filling HostessPlace.ready_post = 0
hostess_filling HostessPlace.exited = 0
hostess_filling HostessPlace.failed = 0
hostess_filling _ = 1

-- A process's step from a place that counts `o` open flights to one that counts `q`.
pub record Kept (s t : Shared) (o q : ℕ) : Type 0 where
  pub aboard : t.f_st.n_pass_in_flight ≡ s.f_st.n_pass_in_flight
  pub boarded : t.f_st.total_pass_boarded ≡ s.f_st.total_pass_boarded
  pub recorded : t.f_st.n_passengers_in_flight ≡ s.f_st.n_passengers_in_flight
  pub number : t.f_st.n_flight ≡ s.f_st.n_flight
  pub flag : t.f_st.finished ≡ s.f_st.finished
  pub opened : q + t.sems 5 ≡ o + s.sems 5

module _ (s : Shared) (low : IsLow s.sems) where
  pub main_same : (m : MainPlace) (e : ℕ) → After (λ t _. Kept s t 0 0) (main_step ideal e m s)
  unfolding main_step
  main_same MainPlace.enable e = up_turn _ _ _ _ 1 (omega (arith, low)) (ground arith)
  main_same MainPlace.signal e = up_turn _ _ _ _ 0 (omega (arith, low)) (ground arith)
  main_same _ e = ground arith

  pub pilot_same :
      (p : PilotPlace)
      → p ≢ PilotPlace.signal_body
      → After (λ t q. Kept s t (pilot_opened p) (pilot_opened q)) (pilot_step ideal p s)
  unfolding pilot_step pilot_opened
  pilot_same PilotPlace.connect ne = gate_turn _ _ _ _ (omega (arith, low)) (λ pos. ground arith)
  pilot_same (PilotPlace.flight_enter _) ne = down_turn _ _ _ _ 1 (λ pos. ground arith)
  pilot_same (PilotPlace.flight_leave _) ne = up_turn _ _ _ _ 1 (omega (arith, low)) (ground arith)
  pilot_same PilotPlace.signal_enter ne = down_turn _ _ _ _ 1 (λ pos. ground arith)
  pilot_same PilotPlace.signal_body ne = absurd (ne refl)
  pilot_same PilotPlace.signal_leave ne = up_turn _ _ _ _ 1 (omega (arith, low)) (ground arith)
  pilot_same PilotPlace.signal_post ne = up_turn _ _ _ _ 5 (omega (arith, low)) (ground arith)
  pilot_same PilotPlace.wait_enter ne = down_turn _ _ _ _ 1 (λ pos. ground arith)
  pilot_same PilotPlace.wait_leave ne = up_turn _ _ _ _ 1 (omega (arith, low)) (ground arith)
  pilot_same PilotPlace.wait_down ne = down_turn _ _ _ _ 6 (λ pos. ground arith)
  pilot_same PilotPlace.drop_enter ne = down_turn _ _ _ _ 1 (λ pos. ground arith)
  pilot_same (PilotPlace.drop_loop j) ne = elim (Bool-cases (ltb j s.f_st.n_pass_in_flight)) [
    | inl e ↦ rw e (up_turn _ _ _ _ 4 (omega (arith, low)) (ground arith))
    | inr e ↦ rw e (ground arith)
  ]
  pilot_same PilotPlace.drop_leave ne = up_turn _ _ _ _ 1 (omega (arith, low)) (ground arith)
  pilot_same PilotPlace.drop_down ne = down_turn _ _ _ _ 8 (λ pos. ground arith)
  pilot_same PilotPlace.return_enter ne = down_turn _ _ _ _ 1 (λ pos. ground arith)
  pilot_same PilotPlace.return_leave ne = up_turn _ _ _ _ 1 (omega (arith, low)) (ground arith)
  pilot_same _ ne = ground arith

  pub hostess_same :
      (h : HostessPlace) (n : ℕ)
      → h ≢ HostessPlace.board_body
      → h ≢ HostessPlace.ready_body
      → After
          (λ t q. Kept s t (hostess_filling h) (hostess_filling (q.0)))
          (hostess_step ideal h n s)
  unfolding hostess_step hostess_filling
  hostess_same HostessPlace.connect n nb nr =
      gate_turn _ _ _ _ (omega (arith, low)) (λ pos. ground arith)
  hostess_same HostessPlace.next_enter n nb nr = down_turn _ _ _ _ 1 (λ pos. ground arith)
  hostess_same HostessPlace.next_leave n nb nr =
      up_turn _ _ _ _ 1 (omega (arith, low)) (ground arith)
  hostess_same HostessPlace.next_down n nb nr = down_turn _ _ _ _ 5 (λ pos. ground arith)
  hostess_same HostessPlace.wait_enter n nb nr = down_turn _ _ _ _ 1 (λ pos. ground arith)
  hostess_same HostessPlace.wait_leave n nb nr =
      up_turn _ _ _ _ 1 (omega (arith, low)) (ground arith)
  hostess_same HostessPlace.wait_down n nb nr = down_turn _ _ _ _ 2 (λ pos. ground arith)
  hostess_same HostessPlace.check_enter n nb nr = down_turn _ _ _ _ 1 (λ pos. ground arith)
  hostess_same HostessPlace.check_leave n nb nr =
      up_turn _ _ _ _ 1 (omega (arith, low)) (ground arith)
  hostess_same HostessPlace.check_call n nb nr =
      up_turn _ _ _ _ 3 (omega (arith, low)) (ground arith)
  hostess_same HostessPlace.check_id n nb nr = down_turn _ _ _ _ 7 (λ pos. ground arith)
  hostess_same HostessPlace.board_enter n nb nr = down_turn _ _ _ _ 1 (λ pos. ground arith)
  hostess_same HostessPlace.board_body n nb nr = absurd (nb refl)
  hostess_same (HostessPlace.board_leave true) n nb nr =
      up_turn _ _ _ _ 1 (omega (arith, low)) (ground arith)
  hostess_same (HostessPlace.board_leave false) n nb nr =
      up_turn _ _ _ _ 1 (omega (arith, low)) (ground arith)
  hostess_same HostessPlace.ready_enter n nb nr = down_turn _ _ _ _ 1 (λ pos. ground arith)
  hostess_same HostessPlace.ready_body n nb nr = absurd (nr refl)
  hostess_same HostessPlace.ready_leave n nb nr =
      up_turn _ _ _ _ 1 (omega (arith, low)) (ground arith)
  hostess_same HostessPlace.ready_post n nb nr = elim (Bool-cases (ltb n n_pass)) [
    | inl e ↦ rw e (up_turn _ _ _ _ 6 (omega (arith, low)) (ground arith))
    | inr e ↦ rw e (up_turn _ _ _ _ 6 (omega (arith, low)) (ground arith))
  ]
  hostess_same _ n nb nr = ground arith

  pub passenger_same :
      (a : PassengerPlace) (id : ℕ)
      → a ≢ PassengerPlace.arrive_body
      → After (λ t _. Kept s t 0 0) (passenger_step ideal id a s)
  unfolding passenger_step
  passenger_same PassengerPlace.connect id ne =
      gate_turn _ _ _ _ (omega (arith, low)) (λ pos. ground arith)
  passenger_same PassengerPlace.queue_enter id ne = down_turn _ _ _ _ 1 (λ pos. ground arith)
  passenger_same PassengerPlace.queue_leave id ne =
      up_turn _ _ _ _ 1 (omega (arith, low)) (ground arith)
  passenger_same PassengerPlace.queue_post id ne =
      up_turn _ _ _ _ 2 (omega (arith, low)) (ground arith)
  passenger_same PassengerPlace.queue_down id ne = down_turn _ _ _ _ 3 (λ pos. ground arith)
  passenger_same PassengerPlace.show_enter id ne = down_turn _ _ _ _ 1 (λ pos. ground arith)
  passenger_same PassengerPlace.show_leave id ne =
      up_turn _ _ _ _ 1 (omega (arith, low)) (ground arith)
  passenger_same PassengerPlace.show_post id ne =
      up_turn _ _ _ _ 7 (omega (arith, low)) (ground arith)
  passenger_same PassengerPlace.arrive_down id ne = down_turn _ _ _ _ 4 (λ pos. ground arith)
  passenger_same PassengerPlace.arrive_enter id ne = down_turn _ _ _ _ 1 (λ pos. ground arith)
  passenger_same PassengerPlace.arrive_body id ne = absurd (ne refl)
  passenger_same PassengerPlace.arrive_post id ne =
      up_turn _ _ _ _ 8 (omega (arith, low)) (ground arith)
  passenger_same PassengerPlace.arrive_leave id ne =
      up_turn _ _ _ _ 1 (omega (arith, low)) (ground arith)
  passenger_same _ id ne = ground arith
