-- ===== src/Progress/Ready.antt =====
-- When a process can move, and what it waits for when it cannot.
use so_assignment2_air_bridg.Base.{
  ℕ, ◌+◌, ◌≡◌, ◌≤◌, ◌<◌, Bool, true, false, some, arith, ltb, ◌==◌, refl, update, ◌-◌, Bool-cases,
  inl, inr,
}
use so_assignment2_air_bridg.Semaphore.{Values, down_buf, up_buf, gate_bufs, sem_vmx}
use so_assignment2_air_bridg.Semaphore.Ideal.{ideal, ideal-down, ideal-up, ideal-gate}
use so_assignment2_air_bridg.Shared.{Shared, Turn, checked}
use so_assignment2_air_bridg.Pilot.{PilotPlace, pilot_step}
use so_assignment2_air_bridg.Hostess.{HostessPlace, hostess_step}
use so_assignment2_air_bridg.Passenger.{PassengerPlace, passenger_step}
use so_assignment2_air_bridg.Invariant.{IsLow}

-- A semaphore is up.
abbrev pub is_up : ℕ → Bool
is_up v = ltb 0 v

abbrev pub pilot_ready : Values → PilotPlace → Bool
pilot_ready v PilotPlace.connect = is_up (v 0)
pilot_ready v (PilotPlace.flight_enter _) = is_up (v 1)
pilot_ready v PilotPlace.signal_enter = is_up (v 1)
pilot_ready v PilotPlace.wait_enter = is_up (v 1)
pilot_ready v PilotPlace.wait_down = is_up (v 6)
pilot_ready v PilotPlace.drop_enter = is_up (v 1)
pilot_ready v PilotPlace.drop_down = is_up (v 8)
pilot_ready v PilotPlace.return_enter = is_up (v 1)
pilot_ready v PilotPlace.exited = false
pilot_ready v PilotPlace.failed = false
pilot_ready v _ = true

abbrev pub hostess_ready : Values → HostessPlace → Bool
hostess_ready v HostessPlace.connect = is_up (v 0)
hostess_ready v HostessPlace.next_enter = is_up (v 1)
hostess_ready v HostessPlace.next_down = is_up (v 5)
hostess_ready v HostessPlace.wait_enter = is_up (v 1)
hostess_ready v HostessPlace.wait_down = is_up (v 2)
hostess_ready v HostessPlace.check_enter = is_up (v 1)
hostess_ready v HostessPlace.check_id = is_up (v 7)
hostess_ready v HostessPlace.board_enter = is_up (v 1)
hostess_ready v HostessPlace.ready_enter = is_up (v 1)
hostess_ready v HostessPlace.exited = false
hostess_ready v HostessPlace.failed = false
hostess_ready v _ = true

abbrev pub passenger_ready : Values → PassengerPlace → Bool
passenger_ready v PassengerPlace.connect = is_up (v 0)
passenger_ready v PassengerPlace.queue_enter = is_up (v 1)
passenger_ready v PassengerPlace.queue_down = is_up (v 3)
passenger_ready v PassengerPlace.show_enter = is_up (v 1)
passenger_ready v PassengerPlace.arrive_down = is_up (v 4)
passenger_ready v PassengerPlace.arrive_enter = is_up (v 1)
passenger_ready v PassengerPlace.exited = false
passenger_ready v PassengerPlace.failed = false
passenger_ready v _ = true

-- The process makes its step.
abbrev pub Moves : {P : Type 0} → Turn P → Type 0
Moves {P} r = (t : Shared) × (p : P) × (r ≡ some (t, p))

module _ {P : Type 0} (s : Shared) (fail next : P) where
  pub down-Moves :
      (i : ℕ) → is_up (s.sems i) ≡ true → Moves (checked (ideal s.sems (down_buf i)) s fail next)
  down-Moves i h =
      let e : (s.sems i == 0) ≡ false = ground arith in
      (record s { sems = update s.sems i (s.sems i - 1) }, next, rw (ideal-down, e))

  pub up-Moves :
      (i : ℕ) → s.sems i < sem_vmx → Moves (checked (ideal s.sems (up_buf i)) s fail next)
  up-Moves i h =
      let e : ltb (s.sems i) sem_vmx ≡ true = ground arith in
      (record s { sems = update s.sems i (s.sems i + 1) }, next, rw (ideal-up, e))

  pub gate-Moves :
      s.sems 0 ≤ sem_vmx
      → is_up (s.sems 0) ≡ true
      → Moves (checked (ideal s.sems gate_bufs) s fail next)
  gate-Moves le h =
      let e : (s.sems 0 == 0) ≡ false = ground arith in (s, next, rw (ideal-gate s.sems le, e))

module _ (s : Shared) (low : IsLow s.sems) where
  pub pilot-Moves : (p : PilotPlace) → pilot_ready s.sems p ≡ true → Moves (pilot_step ideal p s)
  unfolding pilot_step
  pilot-Moves PilotPlace.connect r = gate-Moves _ _ _ (omega arith) r
  pilot-Moves PilotPlace.test r = (_, _, refl)
  pilot-Moves (PilotPlace.flight_enter _) r = down-Moves _ _ _ 1 r
  pilot-Moves (PilotPlace.flight_body _) r = (_, _, refl)
  pilot-Moves (PilotPlace.flight_leave _) r = up-Moves _ _ _ 1 (omega arith)
  pilot-Moves PilotPlace.signal_enter r = down-Moves _ _ _ 1 r
  pilot-Moves PilotPlace.signal_body r = (_, _, refl)
  pilot-Moves PilotPlace.signal_leave r = up-Moves _ _ _ 1 (omega arith)
  pilot-Moves PilotPlace.signal_post r = up-Moves _ _ _ 5 (omega arith)
  pilot-Moves PilotPlace.wait_enter r = down-Moves _ _ _ 1 r
  pilot-Moves PilotPlace.wait_body r = (_, _, refl)
  pilot-Moves PilotPlace.wait_leave r = up-Moves _ _ _ 1 (omega arith)
  pilot-Moves PilotPlace.wait_down r = down-Moves _ _ _ 6 r
  pilot-Moves PilotPlace.drop_enter r = down-Moves _ _ _ 1 r
  pilot-Moves PilotPlace.drop_stat r = (_, _, refl)
  pilot-Moves (PilotPlace.drop_loop j) r = elim (Bool-cases (ltb j s.f_st.n_pass_in_flight)) [
    | inl e ↦ rw e (up-Moves _ _ _ 4 (omega arith))
    | inr e ↦ rw e (_, _, refl)
  ]
  pilot-Moves PilotPlace.drop_save r = (_, _, refl)
  pilot-Moves PilotPlace.drop_leave r = up-Moves _ _ _ 1 (omega arith)
  pilot-Moves PilotPlace.drop_down r = down-Moves _ _ _ 8 r
  pilot-Moves PilotPlace.return_enter r = down-Moves _ _ _ 1 r
  pilot-Moves PilotPlace.return_save r = (_, _, refl)
  pilot-Moves PilotPlace.return_leave r = up-Moves _ _ _ 1 (omega arith)
  pilot-Moves PilotPlace.exited r = cc
  pilot-Moves PilotPlace.failed r = cc

  pub hostess-Moves :
      (h : HostessPlace) (n : ℕ) → hostess_ready s.sems h ≡ true → Moves (hostess_step ideal h n s)
  unfolding hostess_step
  hostess-Moves HostessPlace.connect n r = gate-Moves _ _ _ (omega arith) r
  hostess-Moves HostessPlace.next_enter n r = down-Moves _ _ _ 1 r
  hostess-Moves HostessPlace.next_body n r = (_, _, refl)
  hostess-Moves HostessPlace.next_leave n r = up-Moves _ _ _ 1 (omega arith)
  hostess-Moves HostessPlace.next_down n r = down-Moves _ _ _ 5 r
  hostess-Moves HostessPlace.wait_enter n r = down-Moves _ _ _ 1 r
  hostess-Moves HostessPlace.wait_body n r = (_, _, refl)
  hostess-Moves HostessPlace.wait_leave n r = up-Moves _ _ _ 1 (omega arith)
  hostess-Moves HostessPlace.wait_down n r = down-Moves _ _ _ 2 r
  hostess-Moves HostessPlace.check_enter n r = down-Moves _ _ _ 1 r
  hostess-Moves HostessPlace.check_body n r = (_, _, refl)
  hostess-Moves HostessPlace.check_leave n r = up-Moves _ _ _ 1 (omega arith)
  hostess-Moves HostessPlace.check_call n r = up-Moves _ _ _ 3 (omega arith)
  hostess-Moves HostessPlace.check_id n r = down-Moves _ _ _ 7 r
  hostess-Moves HostessPlace.board_enter n r = down-Moves _ _ _ 1 r
  hostess-Moves HostessPlace.board_body n r = (_, _, refl)
  hostess-Moves (HostessPlace.board_leave _) n r = up-Moves _ _ _ 1 (omega arith)
  hostess-Moves HostessPlace.ready_enter n r = down-Moves _ _ _ 1 r
  hostess-Moves HostessPlace.ready_body n r = (_, _, refl)
  hostess-Moves HostessPlace.ready_leave n r = up-Moves _ _ _ 1 (omega arith)
  hostess-Moves HostessPlace.ready_post n r = up-Moves _ _ _ 6 (omega arith)
  hostess-Moves HostessPlace.exited n r = cc
  hostess-Moves HostessPlace.failed n r = cc

  pub passenger-Moves :
      (i : ℕ) (a : PassengerPlace)
      → passenger_ready s.sems a ≡ true
      → Moves (passenger_step ideal i a s)
  unfolding passenger_step
  passenger-Moves i PassengerPlace.connect r = gate-Moves _ _ _ (omega arith) r
  passenger-Moves i PassengerPlace.queue_enter r = down-Moves _ _ _ 1 r
  passenger-Moves i PassengerPlace.queue_body r = (_, _, refl)
  passenger-Moves i PassengerPlace.queue_leave r = up-Moves _ _ _ 1 (omega arith)
  passenger-Moves i PassengerPlace.queue_post r = up-Moves _ _ _ 2 (omega arith)
  passenger-Moves i PassengerPlace.queue_down r = down-Moves _ _ _ 3 r
  passenger-Moves i PassengerPlace.show_enter r = down-Moves _ _ _ 1 r
  passenger-Moves i PassengerPlace.show_body r = (_, _, refl)
  passenger-Moves i PassengerPlace.show_leave r = up-Moves _ _ _ 1 (omega arith)
  passenger-Moves i PassengerPlace.show_post r = up-Moves _ _ _ 7 (omega arith)
  passenger-Moves i PassengerPlace.arrive_down r = down-Moves _ _ _ 4 r
  passenger-Moves i PassengerPlace.arrive_enter r = down-Moves _ _ _ 1 r
  passenger-Moves i PassengerPlace.arrive_body r = (_, _, refl)
  passenger-Moves i PassengerPlace.arrive_post r = up-Moves _ _ _ 8 (omega arith)
  passenger-Moves i PassengerPlace.arrive_leave r = up-Moves _ _ _ 1 (omega arith)
  passenger-Moves i PassengerPlace.exited r = cc
  passenger-Moves i PassengerPlace.failed r = cc
