-- ===== src/Refinement.antt =====
-- The air lift seen from outside, and that the simulation refines it.
mod Moves
use so_assignment2_air_bridg.Base.{
  ℕ, ◌+◌, ◌-◌, ◌≡◌, ◌≤◌, ◌<◌, inl, inr, arith, Bool, true, false, refl,
}
use so_assignment2_air_bridg.Data.{FullStat, n_pass, max_fc}
use so_assignment2_air_bridg.Semaphore.{SemOp, IsSemOp}
use so_assignment2_air_bridg.Semaphore.Ideal.{ideal}
use so_assignment2_air_bridg.Shared.{Shared}
use so_assignment2_air_bridg.Pilot.{PilotPlace}
use so_assignment2_air_bridg.Hostess.{HostessPlace}
use so_assignment2_air_bridg.Main.{MainPlace}
use so_assignment2_air_bridg.System.{
  System, Step, main_moves, pilot_moves, hostess_moves, passenger_moves, Reach, exits,
}
use so_assignment2_air_bridg.Invariant.{
  pilot_awaiting-le, SystemInv, Inv, Counts, MayFly, pilot_awaiting, hostess_boarding, HostessPlane,
  PilotPlane, After-some, Reach-Inv, Step-Inv, Step-ideal, pilot_awaiting-le,
}
use so_assignment2_air_bridg.Termination.{arriving-drop_down}
use so_assignment2_air_bridg.Safety.{in_air, Inv-capacity}
use Moves.{
  SameCounters, Flown, neither, took_off, landed, Boards, Joins, Leaves, main_view, pilot_view,
  hostess_view, passenger_view,
}

-- Passengers waiting in the queue, aboard, and landed, and whether the plane is in the air.
pub record Lift : Type 0 where
  pub waiting : ℕ
  pub aboard : ℕ
  pub landed : ℕ
  pub air : Bool

-- What may happen. The plane takes off only with somebody and with the minimal number aboard,
-- unless they are the last; passengers board and leave only on the ground.
pub data LiftStep (s t : Lift) : Type 0 where
  stays : t ≡ s → LiftStep s t
  joins :
      s.waiting + s.aboard + s.landed < n_pass
      → t ≡ record s { waiting = s.waiting + 1 }
      → LiftStep s t
  boards :
      s.air ≡ false
      → 1 ≤ s.waiting
      → s.aboard < max_fc
      → t ≡ record s { waiting = s.waiting - 1; aboard = s.aboard + 1 }
      → LiftStep s t
  takes_off :
      s.air ≡ false
      → MayFly s.aboard (s.aboard + s.landed)
      → t ≡ record s { air = true }
      → LiftStep s t
  lands : s.air ≡ true → t ≡ record s { air = false } → LiftStep s t
  leaves :
      s.air ≡ false
      → 1 ≤ s.aboard
      → t ≡ record s { aboard = s.aboard - 1; landed = s.landed + 1 }
      → LiftStep s t

-- The simulation from outside.
abbrev pub lift : System → Lift
lift s = record {
  waiting = s.shared.f_st.n_pass_in_queue;
  aboard = s.shared.f_st.n_pass_in_flight;
  landed = s.shared.f_st.total_pass_boarded - s.shared.f_st.n_pass_in_flight;
  air = in_air s.pilot;
}

grounded : (p : PilotPlace) → pilot_awaiting p ≡ 1 → in_air p ≡ false
unfolding pilot_awaiting
grounded p e = ground arith

takes_off-MayFly :
    (p : PilotPlace) (a b : ℕ) → PilotPlane p a b → p ≡ PilotPlace.flight_enter true → MayFly a b
unfolding PilotPlane
takes_off-MayFly p a b h e = rw e at h

boarding_lem :
    {m : MainPlace} {p : PilotPlace} {h : HostessPlace} {n : ℕ} {c : Counts} {s : Shared}
    → Inv m p h n c s
    → h ≡ HostessPlace.board_body
    → (in_air p ≡ false) × (s.f_st.n_pass_in_flight < max_fc)
unfolding HostessPlane hostess_boarding
boarding_lem {m} {p} {h} {n} {c} {s} i e =
    let at_board : Inv m p HostessPlace.board_body n c s = rw e at i in
    (
      grounded p (omega (arith, at_board.turn, pilot_awaiting-le p)),
      omega (arith, at_board.hostess_plane),
    )

-- A step between two states of the invariant.
module _ (s t : System) (i : SystemInv s) (j : SystemInv t) where
  -- The same counters, and the plane where it was.
  view_stays :
      SameCounters s.shared t.shared → in_air t.pilot ≡ in_air s.pilot → LiftStep (lift s) (lift t)
  view_stays c a = stays (rw (c.queue, c.aboard, c.boarded, a) refl)

  pilot_lift : SameCounters s.shared t.shared → Flown s.pilot t.pilot → LiftStep (lift s) (lift t)
  pilot_lift c (neither e) = view_stays c e
  pilot_lift c (took_off p q) =
      let a = s.shared.f_st.n_pass_in_flight in
      let b = s.shared.f_st.total_pass_boarded in
      let may : MayFly t.shared.f_st.n_pass_in_flight t.shared.f_st.total_pass_boarded =
        takes_off-MayFly t.pilot _ _ j.pilot_plane q in
      let may_here : MayFly a b = rw (c.aboard, c.boarded) at may in
      let split : a + (b - a) ≡ b = omega (arith, i.aboard) in
      takes_off (rw p refl) (rw split may_here) (rw (c.queue, c.aboard, c.boarded, q) refl)
  pilot_lift c (landed p q) = lands p (rw (c.queue, c.aboard, c.boarded, q) refl)

  hostess_lift :
      in_air t.pilot ≡ in_air s.pilot
      → s.hostess ≡ HostessPlace.board_body
      → Boards s.shared t.shared
      → LiftStep (lift s) (lift t)
  hostess_lift same e b =
      let here = boarding_lem i e in
      let left : t.shared.f_st.total_pass_boarded - t.shared.f_st.n_pass_in_flight
          ≡ s.shared.f_st.total_pass_boarded - s.shared.f_st.n_pass_in_flight =
        omega (arith, b.aboard, b.boarded, i.aboard, i.queued, i.ordered, here.1) in
      let queue : t.shared.f_st.n_pass_in_queue ≡ s.shared.f_st.n_pass_in_queue - 1 =
        omega (arith, b.queue, j.queued, j.ordered, i.queued, i.ordered) in
      let aboard : t.shared.f_st.n_pass_in_flight ≡ s.shared.f_st.n_pass_in_flight + 1 =
        omega (arith, b.aboard, here.1) in
      boards (here.0) (omega (arith, b.queue, j.queued, j.ordered)) (here.1)
        (rw (left, queue, aboard, same) refl)

  queue_grows :
      in_air t.pilot ≡ in_air s.pilot → Joins s.shared t.shared → LiftStep (lift s) (lift t)
  queue_grows same b =
      let queue : t.shared.f_st.n_pass_in_queue ≡ s.shared.f_st.n_pass_in_queue + 1 =
        omega (arith, b.queue, i.queued, i.ordered) in
      joins (omega (arith, b.queue, b.boarded, i.aboard, i.queued, i.ordered, j.queued, j.ordered))
        (rw (queue, b.aboard, b.boarded, same) refl)

  plane_empties :
      in_air t.pilot ≡ in_air s.pilot
      → s.pilot ≡ PilotPlace.drop_down
      → Leaves s.shared t.shared
      → LiftStep (lift s) (lift t)
  plane_empties same e b =
      let some_aboard : 1 ≤ s.shared.f_st.n_pass_in_flight =
        omega (arith, b.aboard, Inv-capacity j) in
      let aboard : t.shared.f_st.n_pass_in_flight ≡ s.shared.f_st.n_pass_in_flight - 1 =
        omega (arith, b.aboard, Inv-capacity i) in
      let left : t.shared.f_st.total_pass_boarded - t.shared.f_st.n_pass_in_flight
          ≡ s.shared.f_st.total_pass_boarded - s.shared.f_st.n_pass_in_flight + 1 =
        omega (arith, b.boarded, i.aboard) in
      leaves (rw e refl) some_aboard (rw (left, b.queue, aboard, same) refl)

ideal_refines :
    {s t : System} → Step ideal s t → SystemInv s → SystemInv t → LiftStep (lift s) (lift t)
ideal_refines {s} {t} (main_moves e) i j =
    view_stays s t i j (After-some _ _ (main_view ideal (exits s) s.main s.shared) e) refl
ideal_refines {s} {t} (pilot_moves e) i j =
    let v = After-some _ _ (pilot_view ideal s.pilot s.shared) e in pilot_lift s t i j (v.0) (v.1)
ideal_refines {s} {t} (hostess_moves e) i j =
    elim (After-some _ _ (hostess_view ideal s.hostess s.n_checked s.shared) e) [
      | inl c ↦ view_stays s t i j c refl
      | inr (h, b) ↦ hostess_lift s t i j refl h b
    ]
ideal_refines {s} {t} (passenger_moves id lt e) i j =
    elim (After-some _ _ (passenger_view ideal id (s.passenger id) s.shared) e) [
      | inl c ↦ view_stays s t i j c refl
      | inr (inl (_, b)) ↦ queue_grows s t i j refl b
      | inr (inr (a, b)) ↦ plane_empties s t i j refl (arriving-drop_down s id lt i a) b
    ]

-- If `semop` behaves as documented, every step of the simulation from a reachable state is a step
-- of the air lift seen from outside, or changes nothing there: a passenger joins the queue, boards
-- on the ground while there is room, or leaves on the ground; the plane takes off with a permitted
-- number of passengers, or lands.
pub refines_lift :
    (k : SemOp) (f : FullStat) (s t : System)
    → IsSemOp k
    → Reach k f s
    → Step k s t
    → LiftStep (lift s) (lift t)
refines_lift k f s t law r st =
    let i : SystemInv s = Reach-Inv law r in
    ideal_refines (Step-ideal law st i) i (Step-Inv law st i)
