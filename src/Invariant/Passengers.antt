-- ===== src/Invariant/Passengers.antt =====
-- A step of a passenger keeps the invariant.
use so_assignment2_air_bridg.Base.{ℕ, ◌+◌, ◌≡◌, ◌≤◌, ◌<◌, arith, ◌==◌, Bool-cases, inl, inr, decr}
use so_assignment2_air_bridg.Semaphore.Ideal.{ideal}
use so_assignment2_air_bridg.Shared.{Shared}
use so_assignment2_air_bridg.Pilot.{PilotPlace}
use so_assignment2_air_bridg.Hostess.{HostessPlace}
use so_assignment2_air_bridg.Passenger.{PassengerPlace, passenger_step, arrive, after_arrival}
use so_assignment2_air_bridg.Main.{MainPlace}
use so_assignment2_air_bridg.Invariant.Places.{
  Counts, IsOrdered, reached, is_pending, is_broken, passenger_inside, pilot_inside, pilot_awaiting,
  let_out, emptied, PilotPlane, mutex_raised-le, gate_opened-le, emptied-le, let_out-drop_down,
  idle-HostessPlane,
}
use so_assignment2_air_bridg.Invariant.Defs.{Inv}
use so_assignment2_air_bridg.Invariant.Turns.{After, down_turn, up_turn, gate_turn}

-- The counts after one passenger has gone from `a` to `b`.
pub record Moved (a b : PassengerPlace) (c d : Counts) : Type 0 where
  pub joined : reached 3 a + d.joined ≡ reached 3 b + c.joined
  pub posted : reached 5 a + d.posted ≡ reached 5 b + c.posted
  pub called : reached 6 a + d.called ≡ reached 6 b + c.called
  pub shown : reached 10 a + d.shown ≡ reached 10 b + c.shown
  pub freed : reached 11 a + d.freed ≡ reached 11 b + c.freed
  pub left : reached 13 a + d.left ≡ reached 13 b + c.left
  pub pending : is_pending a + d.pending ≡ is_pending b + c.pending
  pub inside : passenger_inside a + d.inside ≡ passenger_inside b + c.inside
  pub broken : is_broken a + d.broken ≡ is_broken b + c.broken
  pub ordered : IsOrdered d
  pub own_inside : passenger_inside a ≤ c.inside

-- The plane has landed and the pilot waits for its passengers to leave.
leave-Inv :
    (m : MainPlace) (h : HostessPlace) (n : ℕ) (c : Counts) (s : Shared) (id : ℕ) (d : Counts)
    → Inv m PilotPlace.drop_down h n c s
    → c.left < c.freed
    → Moved PassengerPlace.arrive_body (after_arrival (arrive id s).f_st) c d
    → Inv m PilotPlace.drop_down h n d (arrive id s)
unfolding arrive is_pending is_broken passenger_inside pilot_inside pilot_awaiting let_out emptied
    PilotPlane
leave-Inv m h n c s id d i lt v = elim (Bool-cases (decr s.f_st.n_pass_in_flight == 0)) [
  | inl e ↦
      let w : Moved PassengerPlace.arrive_body PassengerPlace.arrive_post c d = rw e at v in
      ground (
        arith,
        idle-HostessPlane h s.f_st.n_pass_in_flight s.f_st.total_pass_boarded
            (decr s.f_st.n_pass_in_flight) s.f_st.total_pass_boarded,
      )
  | inr e ↦
      let w : Moved PassengerPlace.arrive_body PassengerPlace.arrive_leave c d = rw e at v in
      ground (
        arith,
        idle-HostessPlane h s.f_st.n_pass_in_flight s.f_st.total_pass_boarded
            (decr s.f_st.n_pass_in_flight) s.f_st.total_pass_boarded,
      )
]

-- While a passenger who has been let out is in the critical section, the pilot waits for the plane
-- to be empty.
pub landing-drop_down :
    {m : MainPlace} {p : PilotPlace} {h : HostessPlace} {n : ℕ} {c : Counts} {s : Shared}
    → Inv m p h n c s
    → c.left < c.freed
    → 1 ≤ c.inside
    → p ≡ PilotPlace.drop_down
landing-drop_down {m} {p} {c} {s} i lt own =
    let out : pilot_inside p ≡ 0 = omega (arith, mutex_raised-le m) in
    let_out-drop_down p c.left s.f_st.total_pass_boarded out (omega arith)

module _ (m : MainPlace) (p : PilotPlace) (h : HostessPlace) (n : ℕ) (c : Counts) (s : Shared) where
  pub passenger-Inv :
      (a : PassengerPlace) (i : ℕ)
      → Inv m p h n c s
      → After (λ t b. (d : Counts) → Moved a b c d → Inv m p h n d t) (passenger_step ideal i a s)
  unfolding passenger_step is_pending is_broken passenger_inside
  passenger-Inv PassengerPlace.connect id i =
      gate_turn _ _ _ _ (omega (arith, gate_opened-le m)) (λ pos d v. ground arith)
  passenger-Inv PassengerPlace.queue_enter id i = down_turn _ _ _ _ 1 (λ pos d v. ground arith)
  passenger-Inv PassengerPlace.queue_body id i = λ d v. ground arith
  passenger-Inv PassengerPlace.queue_leave id i =
      up_turn _ _ _ _ 1 (omega (arith, mutex_raised-le m)) (λ d v. ground arith)
  passenger-Inv PassengerPlace.queue_post id i =
      up_turn _ _ _ _ 2 (omega (arith, mutex_raised-le m)) (λ d v. ground arith)
  passenger-Inv PassengerPlace.queue_down id i = down_turn _ _ _ _ 3 (λ pos d v. ground arith)
  passenger-Inv PassengerPlace.show_enter id i = down_turn _ _ _ _ 1 (λ pos d v. ground arith)
  passenger-Inv PassengerPlace.show_body id i = λ d v. ground arith
  passenger-Inv PassengerPlace.show_leave id i =
      up_turn _ _ _ _ 1 (omega (arith, mutex_raised-le m)) (λ d v. ground arith)
  passenger-Inv PassengerPlace.show_post id i =
      up_turn _ _ _ _ 7 (omega (arith, mutex_raised-le m)) (λ d v. ground arith)
  passenger-Inv PassengerPlace.arrive_down id i = down_turn _ _ _ _ 4 (λ pos d v. ground arith)
  passenger-Inv PassengerPlace.arrive_enter id i = down_turn _ _ _ _ 1 (λ pos d v. ground arith)
  passenger-Inv PassengerPlace.arrive_body id i = λ d v.
      let lt : c.left < c.freed = ground arith in
      let e : p ≡ PilotPlace.drop_down = landing-drop_down i lt v.own_inside in
      rw e (leave-Inv m h n c s id d (rw e at i) lt v)
  passenger-Inv PassengerPlace.arrive_post id i =
      up_turn _ _ _ _ 8 (omega (arith, emptied-le p s.f_st.n_pass_in_flight)) (λ d v. ground arith)
  passenger-Inv PassengerPlace.arrive_leave id i =
      up_turn _ _ _ _ 1 (omega (arith, mutex_raised-le m)) (λ d v. ground arith)
  passenger-Inv PassengerPlace.exited id i = tt
  passenger-Inv PassengerPlace.failed id i = tt
