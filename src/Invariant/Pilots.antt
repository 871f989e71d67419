-- ===== src/Invariant/Pilots.antt =====
-- A step of the pilot keeps the invariant.
use so_assignment2_air_bridg.Base.{ℕ, true, false, arith, ltb, Bool-cases, inl, inr}
use so_assignment2_air_bridg.Semaphore.Ideal.{ideal}
use so_assignment2_air_bridg.Shared.{Shared}
use so_assignment2_air_bridg.Pilot.{PilotPlace, pilot_step}
use so_assignment2_air_bridg.Hostess.{HostessPlace}
use so_assignment2_air_bridg.Main.{MainPlace}
use so_assignment2_air_bridg.Invariant.Places.{
  Counts, pilot_inside, pilot_awaiting, let_out, emptied, PilotPlane, PilotFlag, mutex_raised-le,
  gate_opened-le, MayFly-bounds,
}
use so_assignment2_air_bridg.Invariant.Defs.{Inv}
use so_assignment2_air_bridg.Invariant.Turns.{After, down_turn, up_turn, gate_turn}

module _ (m : MainPlace) (h : HostessPlace) (n : ℕ) (c : Counts) (s : Shared) where
  pub pilot-Inv :
      (p : PilotPlace) → Inv m p h n c s → After (λ t q. Inv m q h n c t) (pilot_step ideal p s)
  unfolding pilot_step pilot_inside pilot_awaiting let_out emptied PilotPlane PilotFlag
  pilot-Inv PilotPlace.connect i =
      gate_turn _ _ _ _ (omega (arith, gate_opened-le m)) (λ pos. ground arith)
  pilot-Inv PilotPlace.test i = elim (Bool-cases s.f_st.finished) [
    | inl e ↦ rw e (ground arith)
    | inr e ↦ rw e (ground arith)
  ]
  pilot-Inv (PilotPlace.flight_enter true) i = down_turn _ _ _ _ 1 (λ pos. ground arith)
  pilot-Inv (PilotPlace.flight_enter false) i = down_turn _ _ _ _ 1 (λ pos. ground arith)
  pilot-Inv (PilotPlace.flight_body true) i = ground arith
  pilot-Inv (PilotPlace.flight_body false) i = ground arith
  pilot-Inv (PilotPlace.flight_leave true) i =
      up_turn _ _ _ _ 1 (omega (arith, mutex_raised-le m)) (ground arith)
  pilot-Inv (PilotPlace.flight_leave false) i =
      up_turn _ _ _ _ 1 (omega (arith, mutex_raised-le m)) (ground arith)
  pilot-Inv PilotPlace.signal_enter i = down_turn _ _ _ _ 1 (λ pos. ground arith)
  pilot-Inv PilotPlace.signal_body i = ground arith
  pilot-Inv PilotPlace.signal_leave i =
      up_turn _ _ _ _ 1 (omega (arith, mutex_raised-le m)) (ground arith)
  pilot-Inv PilotPlace.signal_post i =
      up_turn _ _ _ _ 5 (omega (arith, mutex_raised-le m)) (ground arith)
  pilot-Inv PilotPlace.wait_enter i = down_turn _ _ _ _ 1 (λ pos. ground arith)
  pilot-Inv PilotPlace.wait_body i = ground arith
  pilot-Inv PilotPlace.wait_leave i =
      up_turn _ _ _ _ 1 (omega (arith, mutex_raised-le m)) (ground arith)
  pilot-Inv PilotPlace.wait_down i = down_turn _ _ _ _ 6 (λ pos. ground arith)
  pilot-Inv PilotPlace.drop_enter i = down_turn _ _ _ _ 1 (λ pos. ground arith)
  pilot-Inv PilotPlace.drop_stat i = ground arith
  pilot-Inv (PilotPlace.drop_loop j) i = elim (Bool-cases (ltb j s.f_st.n_pass_in_flight)) [
    | inl e ↦ rw e (up_turn _ _ _ _ 4 (ground arith) (ground arith))
    | inr e ↦ rw e (ground (arith, MayFly-bounds _ _ i.pilot_plane.0))
  ]
  pilot-Inv PilotPlace.drop_save i = ground arith
  pilot-Inv PilotPlace.drop_leave i =
      up_turn _ _ _ _ 1 (omega (arith, mutex_raised-le m)) (ground arith)
  pilot-Inv PilotPlace.drop_down i = down_turn _ _ _ _ 8 (λ pos. ground arith)
  pilot-Inv PilotPlace.return_enter i = down_turn _ _ _ _ 1 (λ pos. ground arith)
  pilot-Inv PilotPlace.return_save i = ground arith
  pilot-Inv PilotPlace.return_leave i =
      up_turn _ _ _ _ 1 (omega (arith, mutex_raised-le m)) (ground arith)
  pilot-Inv PilotPlace.exited i = ground arith
  pilot-Inv PilotPlace.failed i = ground arith
