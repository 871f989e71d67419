-- ===== src/Invariant/Steps.antt =====
-- Every step of the system keeps the invariant, whatever system call is used, as long as it behaves
-- as documented.
use so_assignment2_air_bridg.Base.{
  ℕ, ◌≡◌, ◌≤◌, ◌<◌, refl, sym, ◌∙◌, arith, update, total-update, total-le, total-own, total_bounded,
}
use so_assignment2_air_bridg.Data.{FullStat, n_pass}
use so_assignment2_air_bridg.Semaphore.{SemOp, Values, IsSemOp}
use so_assignment2_air_bridg.Semaphore.Ideal.{ideal, down_agrees, up_agrees, gate_agrees}
use so_assignment2_air_bridg.Shared.{Shared}
use so_assignment2_air_bridg.Pilot.{PilotPlace, pilot_step}
use so_assignment2_air_bridg.Hostess.{HostessPlace, hostess_step}
use so_assignment2_air_bridg.Passenger.{PassengerPlace, passenger_step}
use so_assignment2_air_bridg.Main.{MainPlace, main_step}
use so_assignment2_air_bridg.System.{
  System, Step, main_moves, pilot_moves, hostess_moves, passenger_moves, exits, Reach, begin, later,
}
use so_assignment2_air_bridg.Invariant.Places.{
  Counts, counts, IsOrdered, reached, is_pending, is_broken, passenger_inside, mutex_raised-le,
  gate_opened-le, emptied-le, pilot_awaiting-le, hostess_called-le, let_out-le,
}
use so_assignment2_air_bridg.Invariant.Defs.{Inv, SystemInv}
use so_assignment2_air_bridg.Invariant.Turns.{After-some}
use so_assignment2_air_bridg.Invariant.Passengers.{Moved, passenger-Inv}
use so_assignment2_air_bridg.Invariant.Pilots.{pilot-Inv}
use so_assignment2_air_bridg.Invariant.Hostesses.{hostess-Inv}
use so_assignment2_air_bridg.Invariant.Mains.{main-Inv, initial-Inv}

pub reached-le : (r : ℕ) (a : PassengerPlace) → reached r a ≤ 1
reached-le r a = ground arith

pub reached_mono : (q r : ℕ) → q ≤ r → (a : PassengerPlace) → reached r a ≤ reached q a
reached_mono q r h a = ground arith

pub counts-IsOrdered : (f : ℕ → PassengerPlace) → IsOrdered (counts f)
counts-IsOrdered f = record {
  joined_le = total_bounded (reached 3) (reached-le 3) n_pass f;
  posted_le = total-le (reached 5) (reached 3) (reached_mono 3 5 (omega arith)) n_pass f;
  called_le = total-le (reached 6) (reached 5) (reached_mono 5 6 (omega arith)) n_pass f;
  shown_le = total-le (reached 10) (reached 6) (reached_mono 6 10 (omega arith)) n_pass f;
  freed_le = total-le (reached 11) (reached 10) (reached_mono 10 11 (omega arith)) n_pass f;
  left_le = total-le (reached 13) (reached 11) (reached_mono 11 13 (omega arith)) n_pass f;
}

module _ (f : ℕ → PassengerPlace) (i : ℕ) (lt : i < n_pass) (b : PassengerPlace) where
  pub move_counts : Moved (f i) b (counts f) (counts (update f i b))
  move_counts = record {
    joined = total-update (reached 3) f b n_pass i lt;
    posted = total-update (reached 5) f b n_pass i lt;
    called = total-update (reached 6) f b n_pass i lt;
    shown = total-update (reached 10) f b n_pass i lt;
    freed = total-update (reached 11) f b n_pass i lt;
    left = total-update (reached 13) f b n_pass i lt;
    pending = total-update is_pending f b n_pass i lt;
    inside = total-update passenger_inside f b n_pass i lt;
    broken = total-update is_broken f b n_pass i lt;
    ordered = counts-IsOrdered (update f i b);
    own_inside = total-own passenger_inside n_pass f i lt;
  }

-- Over the model of `semop`.
pub ideal-Step-Inv : {s t : System} → Step ideal s t → SystemInv s → SystemInv t
ideal-Step-Inv {s} (main_moves e) i =
    After-some _ _ (main-Inv s.pilot s.hostess s.n_checked _ s.shared _ s.main i) e
ideal-Step-Inv {s} (pilot_moves e) i =
    After-some _ _ (pilot-Inv s.main s.hostess s.n_checked _ s.shared s.pilot i) e
ideal-Step-Inv {s} (hostess_moves e) i =
    After-some _ _ (hostess-Inv s.main s.pilot _ s.n_checked s.shared s.hostess i) e
ideal-Step-Inv {s} (passenger_moves {p} j lt e) i =
    After-some _ _ (passenger-Inv s.main s.pilot s.hostess s.n_checked _ s.shared _ j i) e _
      (move_counts s.passenger j lt p)

-- No semaphore comes near its largest value.
pub record IsLow (v : Values) : Type 0 where
  pub low_0 : v 0 ≤ 22
  pub low_1 : v 1 ≤ 22
  pub low_2 : v 2 ≤ 22
  pub low_3 : v 3 ≤ 22
  pub low_4 : v 4 ≤ 22
  pub low_5 : v 5 ≤ 22
  pub low_6 : v 6 ≤ 22
  pub low_7 : v 7 ≤ 22
  pub low_8 : v 8 ≤ 22

pub Inv-IsLow :
    {m : MainPlace} {p : PilotPlace} {h : HostessPlace} {n : ℕ} {c : Counts} {s : Shared}
    → Inv m p h n c s
    → IsLow s.sems
Inv-IsLow {m} {p} {h} {c} {s} i = omega (
  arith,
  mutex_raised-le m,
  gate_opened-le m,
  emptied-le p s.f_st.n_pass_in_flight,
  pilot_awaiting-le p,
  hostess_called-le h,
  let_out-le p c.left s.f_st.n_pass_in_flight s.f_st.total_pass_boarded,
)

-- In such a state a documented system call does what the model does.
module _ {k : SemOp} (law : IsSemOp k) (s : Shared) (low : IsLow s.sems) where
  main_agrees : (e : ℕ) (m : MainPlace) → main_step k e m s ≡ main_step ideal e m s
  unfolding main_step
  main_agrees e MainPlace.enable = rw (up_agrees law s.sems 1 (omega arith) (omega arith))
  main_agrees e MainPlace.signal = rw (up_agrees law s.sems 0 (omega arith) (omega arith))
  main_agrees e _ = refl

  pilot_agrees : (p : PilotPlace) → pilot_step k p s ≡ pilot_step ideal p s
  unfolding pilot_step
  pilot_agrees PilotPlace.connect = rw (gate_agrees law s.sems (omega arith))
  pilot_agrees PilotPlace.test = refl
  pilot_agrees (PilotPlace.drop_loop j) = rw (up_agrees law s.sems 4 (omega arith) (omega arith))
  pilot_agrees _ = ground (
    arith,
    down_agrees law s.sems 1 (omega arith),
    down_agrees law s.sems 6 (omega arith),
    down_agrees law s.sems 8 (omega arith),
    up_agrees law s.sems 1 (omega arith) (omega arith),
    up_agrees law s.sems 5 (omega arith) (omega arith),
  )

  hostess_agrees : (h : HostessPlace) (n : ℕ) → hostess_step k h n s ≡ hostess_step ideal h n s
  unfolding hostess_step
  hostess_agrees HostessPlace.connect n = rw (gate_agrees law s.sems (omega arith))
  hostess_agrees _ n = ground (
    arith,
    down_agrees law s.sems 1 (omega arith),
    down_agrees law s.sems 5 (omega arith),
    down_agrees law s.sems 2 (omega arith),
    down_agrees law s.sems 7 (omega arith),
    up_agrees law s.sems 1 (omega arith) (omega arith),
    up_agrees law s.sems 3 (omega arith) (omega arith),
    up_agrees law s.sems 6 (omega arith) (omega arith),
  )

  passenger_agrees :
      (i : ℕ) (a : PassengerPlace) → passenger_step k i a s ≡ passenger_step ideal i a s
  unfolding passenger_step
  passenger_agrees i PassengerPlace.connect = rw (gate_agrees law s.sems (omega arith))
  passenger_agrees i _ = ground (
    arith,
    down_agrees law s.sems 1 (omega arith),
    down_agrees law s.sems 3 (omega arith),
    down_agrees law s.sems 4 (omega arith),
    up_agrees law s.sems 1 (omega arith) (omega arith),
    up_agrees law s.sems 2 (omega arith) (omega arith),
    up_agrees law s.sems 7 (omega arith) (omega arith),
    up_agrees law s.sems 8 (omega arith) (omega arith),
  )

-- Over any system call that behaves as documented.
module _ {k : SemOp} (law : IsSemOp k) where
  -- Where the invariant holds, a step over the system call is a step over the model.
  pub Step-ideal : {s t : System} → Step k s t → SystemInv s → Step ideal s t
  Step-ideal {s} (main_moves e) i =
      main_moves (sym (main_agrees law s.shared (Inv-IsLow i) (exits s) s.main) ∙ e)
  Step-ideal {s} (pilot_moves e) i =
      pilot_moves (sym (pilot_agrees law s.shared (Inv-IsLow i) s.pilot) ∙ e)
  Step-ideal {s} (hostess_moves e) i =
      hostess_moves (sym (hostess_agrees law s.shared (Inv-IsLow i) s.hostess s.n_checked) ∙ e)
  Step-ideal {s} (passenger_moves j lt e) i =
      passenger_moves j lt (sym (passenger_agrees law s.shared (Inv-IsLow i) j (s.passenger j)) ∙ e)

  -- And a step over the model is one over the system call.
  pub Step-of_ideal : {s t : System} → Step ideal s t → SystemInv s → Step k s t
  Step-of_ideal {s} (main_moves e) i =
      main_moves (main_agrees law s.shared (Inv-IsLow i) (exits s) s.main ∙ e)
  Step-of_ideal {s} (pilot_moves e) i =
      pilot_moves (pilot_agrees law s.shared (Inv-IsLow i) s.pilot ∙ e)
  Step-of_ideal {s} (hostess_moves e) i =
      hostess_moves (hostess_agrees law s.shared (Inv-IsLow i) s.hostess s.n_checked ∙ e)
  Step-of_ideal {s} (passenger_moves j lt e) i =
      passenger_moves j lt (passenger_agrees law s.shared (Inv-IsLow i) j (s.passenger j) ∙ e)

  pub Step-Inv : {s t : System} → Step k s t → SystemInv s → SystemInv t
  Step-Inv st i = ideal-Step-Inv (Step-ideal st i) i

  pub Reach-Inv : {f : FullStat} {s : System} → Reach k f s → SystemInv s
  Reach-Inv {f} begin = initial-Inv f
  Reach-Inv (later r st) = Step-Inv st (Reach-Inv r)
