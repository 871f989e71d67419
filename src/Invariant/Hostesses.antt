-- ===== src/Invariant/Hostesses.antt =====
-- A step of the hostess keeps the invariant.
use so_assignment2_air_bridg.Base.{
  ℕ, ◌+◌, Bool, ◌==◌, ◌≡◌, ◌≤◌, ◌<◌, true, false, arith, ltb, Bool-cases, inl, inr,
}
use so_assignment2_air_bridg.Data.{FullStat, n_pass, max_fc}
use so_assignment2_air_bridg.Semaphore.Ideal.{ideal}
use so_assignment2_air_bridg.Logging.{Log}
use so_assignment2_air_bridg.Shared.{Shared}
use so_assignment2_air_bridg.Pilot.{PilotPlace}
use so_assignment2_air_bridg.Hostess.{HostessPlace, hostess_step, is_last, board_passenger}
use so_assignment2_air_bridg.Main.{MainPlace}
use so_assignment2_air_bridg.Invariant.Places.{
  Counts, hostess_inside, hostess_accepted, hostess_called, hostess_seen, hostess_counted,
  hostess_boarding, HostessPlane, HostessCount, HostessFlag, mutex_raised-le, gate_opened-le,
  MayFly, awaiting-PilotPlane, awaiting-PilotFlag, awaiting_lem, pilot_awaiting, pilot_awaiting-le,
}
use so_assignment2_air_bridg.Invariant.Defs.{Inv}
use so_assignment2_air_bridg.Invariant.Turns.{After, down_turn, up_turn, gate_turn}

-- The test for the last passenger of a flight.
is_last-MayFly :
    (f : FullStat)
    → 1 ≤ f.n_pass_in_flight
    → f.n_pass_in_flight ≤ max_fc
    → is_last f ≡ true
    → MayFly f.n_pass_in_flight f.total_pass_boarded
unfolding is_last MayFly
is_last-MayFly f pos cap e = ground arith

is_last-false :
    (f : FullStat)
    → f.n_pass_in_flight ≤ max_fc
    → f.total_pass_boarded ≤ n_pass
    → is_last f ≡ false
    → (f.n_pass_in_flight < max_fc) × (f.total_pass_boarded < n_pass)
unfolding is_last
is_last-false f cap all e = ground arith

-- A new record of the problem in which one more passenger has boarded.
pub record Boarded (f g : FullStat) : Type 0 where
  pub queue : g.n_pass_in_queue + 1 ≡ f.n_pass_in_queue
  pub aboard : g.n_pass_in_flight ≡ f.n_pass_in_flight + 1
  pub total : g.total_pass_boarded ≡ f.total_pass_boarded + 1
  pub flag : g.finished ≡ f.finished

pub board_passenger-Boarded :
    (s : Shared)
    → 1 ≤ s.f_st.n_pass_in_queue
    → s.f_st.n_pass_in_queue ≤ n_pass
    → s.f_st.n_pass_in_flight ≤ n_pass
    → s.f_st.total_pass_boarded ≤ n_pass
    → Boarded s.f_st (board_passenger s).f_st
unfolding board_passenger
board_passenger-Boarded s q a b c = ground arith

module _ (m : MainPlace) (p : PilotPlace) (c : Counts) (n : ℕ) (s : Shared) where
  board-Inv :
      (f : FullStat) (log : Log) (last : Bool)
      → Boarded s.f_st f
      → HostessPlane (HostessPlace.board_leave last) f.n_pass_in_flight f.total_pass_boarded
      → Inv m p HostessPlace.board_body n c s
      → Inv m p (HostessPlace.board_leave last) n c (record { f_st = f; sems = s.sems; log = log })
  unfolding hostess_inside hostess_accepted hostess_called hostess_seen hostess_counted
      hostess_boarding HostessCount HostessFlag
  board-Inv f log last b plane i =
      let a : pilot_awaiting p ≡ 1 = omega (arith, pilot_awaiting-le p) in
      ground (
        arith,
        awaiting-PilotPlane p f.n_pass_in_flight f.total_pass_boarded a,
        awaiting_lem p c.left f.total_pass_boarded f.n_pass_in_flight a,
        awaiting_lem p c.left s.f_st.total_pass_boarded s.f_st.n_pass_in_flight a,
      )

module _ (m : MainPlace) (p : PilotPlace) (c : Counts) (n : ℕ) (s : Shared) where
  pub hostess-Inv :
      (h : HostessPlace)
      → Inv m p h n c s
      → After (λ t q. Inv m p q.0 q.1 c t) (hostess_step ideal h n s)
  unfolding hostess_step hostess_inside hostess_accepted hostess_called hostess_seen hostess_counted
      hostess_boarding HostessPlane HostessCount HostessFlag
  hostess-Inv HostessPlace.connect i =
      gate_turn _ _ _ _ (omega (arith, gate_opened-le m)) (λ pos. ground arith)
  hostess-Inv HostessPlace.next_enter i = down_turn _ _ _ _ 1 (λ pos. ground arith)
  hostess-Inv HostessPlace.next_body i = ground arith
  hostess-Inv HostessPlace.next_leave i =
      up_turn _ _ _ _ 1 (omega (arith, mutex_raised-le m)) (ground arith)
  hostess-Inv HostessPlace.next_down i =
      down_turn _ _ _ _ 5 (λ pos. ground (arith, pilot_awaiting-le p))
  hostess-Inv HostessPlace.wait_enter i = down_turn _ _ _ _ 1 (λ pos. ground arith)
  hostess-Inv HostessPlace.wait_body i = ground arith
  hostess-Inv HostessPlace.wait_leave i =
      up_turn _ _ _ _ 1 (omega (arith, mutex_raised-le m)) (ground arith)
  hostess-Inv HostessPlace.wait_down i = down_turn _ _ _ _ 2 (λ pos. ground arith)
  hostess-Inv HostessPlace.check_enter i = down_turn _ _ _ _ 1 (λ pos. ground arith)
  hostess-Inv HostessPlace.check_body i = ground arith
  hostess-Inv HostessPlace.check_leave i =
      up_turn _ _ _ _ 1 (omega (arith, mutex_raised-le m)) (ground arith)
  hostess-Inv HostessPlace.check_call i =
      up_turn _ _ _ _ 3 (omega (arith, mutex_raised-le m)) (ground arith)
  hostess-Inv HostessPlace.check_id i = down_turn _ _ _ _ 7 (λ pos. ground arith)
  hostess-Inv HostessPlace.board_enter i = down_turn _ _ _ _ 1 (λ pos. ground arith)
  hostess-Inv HostessPlace.board_body i =
      let b : Boarded s.f_st (board_passenger s).f_st =
        board_passenger-Boarded s (omega arith) (omega arith) (omega arith) (omega arith) in
      elim (Bool-cases (is_last (board_passenger s).f_st)) [
        | inl e ↦ rw e (
            board-Inv _ _ _ _ _ (board_passenger s).f_st _ true b
              (is_last-MayFly (board_passenger s).f_st (omega arith) (omega arith) e) i)
        | inr e ↦ rw e (
            board-Inv _ _ _ _ _ (board_passenger s).f_st _ false b
              (is_last-false (board_passenger s).f_st (omega arith) (omega arith) e) i)
      ]
  hostess-Inv (HostessPlace.board_leave true) i =
      up_turn _ _ _ _ 1 (omega (arith, mutex_raised-le m)) (ground arith)
  hostess-Inv (HostessPlace.board_leave false) i =
      up_turn _ _ _ _ 1 (omega (arith, mutex_raised-le m)) (ground arith)
  hostess-Inv HostessPlace.ready_enter i = down_turn _ _ _ _ 1 (λ pos. ground arith)
  hostess-Inv HostessPlace.ready_body i =
      let a : pilot_awaiting p ≡ 1 = omega (arith, pilot_awaiting-le p) in
      ground (arith, awaiting-PilotFlag p (s.f_st.total_pass_boarded == n_pass) a)
  hostess-Inv HostessPlace.ready_leave i =
      up_turn _ _ _ _ 1 (omega (arith, mutex_raised-le m)) (ground arith)
  hostess-Inv HostessPlace.ready_post i = elim (Bool-cases (ltb n n_pass)) [
    | inl e ↦ rw e (up_turn _ _ _ _ 6 (omega (arith, pilot_awaiting-le p)) (ground arith))
    | inr e ↦ rw e (up_turn _ _ _ _ 6 (omega (arith, pilot_awaiting-le p)) (ground arith))
  ]
  hostess-Inv HostessPlace.exited i = tt
  hostess-Inv HostessPlace.failed i = tt
