-- ===== src/Result.antt =====
-- What the simulation leaves behind when all its processes have ended.
use so_assignment2_air_bridg.Base.{ℕ, ◌≡◌, ◌<◌, true, arith, total_ones, total_zeros}
use so_assignment2_air_bridg.Data.{FullStat, n_pass}
use so_assignment2_air_bridg.Semaphore.{SemOp, IsSemOp}
use so_assignment2_air_bridg.Shared.{Shared}
use so_assignment2_air_bridg.Pilot.{PilotPlace}
use so_assignment2_air_bridg.Hostess.{HostessPlace}
use so_assignment2_air_bridg.Passenger.{PassengerPlace}
use so_assignment2_air_bridg.Main.{MainPlace}
use so_assignment2_air_bridg.System.{System, Reach}
use so_assignment2_air_bridg.Invariant.{
  Inv, SystemInv, Counts, counts, reached, is_pending, passenger_inside, pilot_inside,
  hostess_inside, pilot_awaiting, hostess_boarding, hostess_counted, hostess_called,
  hostess_accepted, hostess_seen, HostessCount, HostessFlag, PilotPlane, let_out, emptied,
  mutex_raised, gate_opened, Reach-Inv,
}
use so_assignment2_air_bridg.Progress.{AllDone}

-- The whole air lift is done and every semaphore is at rest.
pub record Complete (s : Shared) : Type 0 where
  pub all_boarded : s.f_st.total_pass_boarded ≡ n_pass
  pub queue_empty : s.f_st.n_pass_in_queue ≡ 0
  pub plane_empty : s.f_st.n_pass_in_flight ≡ 0
  pub flag : s.f_st.finished ≡ true
  pub gate_open : s.sems 0 ≡ 1
  pub mutex_free : s.sems 1 ≡ 1
  pub arrivals_used : s.sems 2 ≡ 0
  pub calls_used : s.sems 3 ≡ 0
  pub exits_used : s.sems 4 ≡ 0
  pub boarding_used : s.sems 5 ≡ 0
  pub flight_used : s.sems 6 ≡ 0
  pub passports_used : s.sems 7 ≡ 0
  pub empty_used : s.sems 8 ≡ 0

record Gone (c : Counts) : Type 0 where
  joined : c.joined ≡ n_pass
  posted : c.posted ≡ n_pass
  called : c.called ≡ n_pass
  shown : c.shown ≡ n_pass
  freed : c.freed ≡ n_pass
  left : c.left ≡ n_pass
  pending : c.pending ≡ 0
  inside : c.inside ≡ 0

counts-Gone :
    (f : ℕ → PassengerPlace)
    → ((j : ℕ) → j < n_pass → f j ≡ PassengerPlace.exited)
    → Gone (counts f)
unfolding is_pending passenger_inside
counts-Gone f done = record {
  joined = total_ones (reached 3) n_pass f (λ j lt. rw (done j lt));
  posted = total_ones (reached 5) n_pass f (λ j lt. rw (done j lt));
  called = total_ones (reached 6) n_pass f (λ j lt. rw (done j lt));
  shown = total_ones (reached 10) n_pass f (λ j lt. rw (done j lt));
  freed = total_ones (reached 11) n_pass f (λ j lt. rw (done j lt));
  left = total_ones (reached 13) n_pass f (λ j lt. rw (done j lt));
  pending = total_zeros is_pending n_pass f (λ j lt. rw (done j lt));
  inside = total_zeros passenger_inside n_pass f (λ j lt. rw (done j lt));
}

Inv-Complete :
    {n : ℕ} {c : Counts} {s : Shared}
    → Inv MainPlace.exited PilotPlace.exited HostessPlace.exited n c s
    → Gone c
    → Complete s
unfolding pilot_inside hostess_inside pilot_awaiting hostess_boarding hostess_counted hostess_called
    hostess_accepted hostess_seen HostessCount HostessFlag PilotPlane let_out emptied mutex_raised
    gate_opened
Inv-Complete i g = ground arith

-- If `semop` behaves as documented and all processes have ended, all passengers have boarded and
-- left the plane, the queue is empty, the flag says that the air lift is finished, the mutex is
-- free, the start gate is open, and no signal of any other semaphore is left over.
pub result-Complete :
    (k : SemOp) (f : FullStat) (s : System)
    → IsSemOp k
    → Reach k f s
    → AllDone s
    → Complete s.shared
result-Complete k f s law r d =
    let i : SystemInv s = Reach-Inv law r in
    Inv-Complete (rw (d.main_done, d.children.pilot_done, d.children.hostess_done) at i)
      (counts-Gone s.passenger d.children.passengers_done)
