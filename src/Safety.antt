-- ===== src/Safety.antt =====
-- What holds in every reachable state of the simulation: mutual exclusion, the rules of a flight,
-- exact counters, and the result.
use so_assignment2_air_bridg.Base.{
  ℕ, ◌+◌, ◌≡◌, ◌≤◌, ◌⊎◌, Bool, true, false, arith, total, ◌≢◌, ◌<◌, total-own, refl,
}
use so_assignment2_air_bridg.Data.{FullStat, n_pass, min_fc, max_fc}
use so_assignment2_air_bridg.Semaphore
use so_assignment2_air_bridg.Semaphore.{SemOp, IsSemOp}
use so_assignment2_air_bridg.Shared.{Shared}
use so_assignment2_air_bridg.Pilot.{PilotPlace}
use so_assignment2_air_bridg.Hostess.{HostessPlace}
use so_assignment2_air_bridg.Main.{MainPlace}
use so_assignment2_air_bridg.System.{System, Reach}
use so_assignment2_air_bridg.Passenger.{PassengerPlace}
use so_assignment2_air_bridg.Invariant.{
  SystemInv, Inv, Counts, counts, pilot_inside, hostess_inside, passenger_inside, mutex_raised-le,
  PilotPlane, HostessPlane, MayFly, pilot_awaiting, hostess_boarding, Reach-Inv, is_broken,
  MainRuns, gate_opened-le, emptied-le, pilot_awaiting-le, hostess_called-le, let_out-le,
}

-- The number of processes inside a critical section.
abbrev pub processes_inside : System → ℕ
processes_inside s =
    pilot_inside s.pilot + hostess_inside s.hostess + total passenger_inside n_pass s.passenger

-- In every reachable state at most one process is between a `semDown` and the next `semUp` of the
-- mutex, if `semop` behaves as documented.
pub mutual_exclusion :
    (k : SemOp) (f : FullStat) (s : System) → IsSemOp k → Reach k f s → processes_inside s ≤ 1
mutual_exclusion k f s law r = omega (arith, (Reach-Inv law r).exclusive, mutex_raised-le s.main)

-- The plane is on its way to the destination, up to the pilot's opening of the doors.
abbrev pub in_air : PilotPlace → Bool
in_air (PilotPlace.flight_enter go) = go
in_air (PilotPlace.flight_body go) = go
in_air (PilotPlace.flight_leave go) = go
in_air PilotPlace.drop_enter = true
in_air PilotPlace.drop_stat = true
in_air _ = false

PilotPlane-bound :
    (p : PilotPlace) (a b : ℕ) → PilotPlane p a b → (pilot_awaiting p ≡ 1) ⊎ (a ≤ max_fc)
unfolding PilotPlane pilot_awaiting MayFly
PilotPlane-bound PilotPlace.wait_enter a b h = ground arith
PilotPlane-bound p a b h = ground arith

HostessPlane-bound :
    (h : HostessPlace) (a b : ℕ) → HostessPlane h a b → (hostess_boarding h ≡ 0) ⊎ (a ≤ max_fc)
unfolding HostessPlane hostess_boarding MayFly
HostessPlane-bound HostessPlace.connect a b h = ground arith
HostessPlane-bound p a b h = ground arith

pub Inv-capacity :
    {m : MainPlace} {p : PilotPlace} {h : HostessPlace} {n : ℕ} {c : Counts} {s : Shared}
    → Inv m p h n c s
    → s.f_st.n_pass_in_flight ≤ max_fc
unfolding MayFly
Inv-capacity {p} {h} {s} i = ground (
  arith,
  PilotPlane-bound p s.f_st.n_pass_in_flight s.f_st.total_pass_boarded i.pilot_plane,
  HostessPlane-bound h s.f_st.n_pass_in_flight s.f_st.total_pass_boarded i.hostess_plane,
  i.turn,
  i.plane_called,
  i.plane_ready,
)

in_air-MayFly : (p : PilotPlace) (a b : ℕ) → in_air p ≡ true → PilotPlane p a b → MayFly a b
unfolding PilotPlane
in_air-MayFly (PilotPlace.flight_enter true) a b e h = h
in_air-MayFly (PilotPlace.flight_body true) a b e h = h
in_air-MayFly (PilotPlace.flight_leave true) a b e h = h
in_air-MayFly PilotPlace.drop_enter a b e h = h
in_air-MayFly PilotPlace.drop_stat a b e h = h
in_air-MayFly _ a b e h = ground arith

-- If `semop` behaves as documented, the plane never holds more passengers than its capacity, and in
-- the air it holds at least one, and at least the minimal capacity unless every passenger has
-- boarded.
pub flight_rules :
    (k : SemOp) (f : FullStat) (s : System)
    → IsSemOp k
    → Reach k f s
    → let a = s.shared.f_st.n_pass_in_flight in
      (a ≤ max_fc)
      × (in_air s.pilot ≡ true
          → (1 ≤ a) × ((min_fc ≤ a) ⊎ (s.shared.f_st.total_pass_boarded ≡ n_pass)))
unfolding MayFly
flight_rules k f s law r =
    let i : SystemInv s = Reach-Inv law r in
    (Inv-capacity i, λ e. let m = in_air-MayFly s.pilot _ _ e i.pilot_plane in (m.0, m.2))

-- If `semop` behaves as documented, the counters of the shared record agree with where the
-- passengers are in every reachable state: those who have joined the queue are waiting or have
-- boarded, and those who have boarded are aboard or have left the plane.
pub counters_exact :
    (k : SemOp) (f : FullStat) (s : System)
    → IsSemOp k
    → Reach k f s
    → let g = s.shared.f_st in
      (g.n_pass_in_queue + g.total_pass_boarded ≡ (counts s.passenger).joined)
      × (g.n_pass_in_flight + (counts s.passenger).left ≡ g.total_pass_boarded)
      × (g.total_pass_boarded ≤ n_pass)
counters_exact k f s law r =
    let i : SystemInv s = Reach-Inv law r in (i.queued, i.aboard, omega arith)

-- No passenger of a reachable state has failed.
pub not_failed :
    (s : System) (j : ℕ) → j < n_pass → SystemInv s → s.passenger j ≢ PassengerPlace.failed
unfolding is_broken
not_failed s j lt i e =
    let broken : is_broken (s.passenger j) ≡ 1 = rw e refl in
    absurd (omega (arith, i.unbroken, total-own is_broken n_pass s.passenger j lt))

-- If `semop` behaves as documented, no process ever ends with a failure: no call of `semConnect`,
-- `semSignal`, `semDown`, `semUp` or `wait` whose result is tested returns -1.
pub nobody_fails :
    (k : SemOp) (f : FullStat) (s : System) (j : ℕ)
    → IsSemOp k
    → Reach k f s
    → j < n_pass
    → (s.main ≢ MainPlace.failed)
      × (s.pilot ≢ PilotPlace.failed)
      × (s.hostess ≢ HostessPlace.failed)
      × (s.passenger j ≢ PassengerPlace.failed)
unfolding MainRuns PilotPlane HostessPlane
nobody_fails k f s j law r lt =
    let i : SystemInv s = Reach-Inv law r in
    (
      λ e. rw e at i.main_runs,
      λ e. rw e at i.pilot_plane,
      λ e. rw e at i.hostess_plane,
      not_failed s j lt i,
    )

-- If `semop` behaves as documented, in every reachable state each semaphore that stands for one event
-- is 0 or 1, no more than 21 passengers are announced to the hostess, and at most as many may leave the
-- plane as are aboard.
pub semaphores_bounded :
    (k : SemOp) (f : FullStat) (s : System)
    → IsSemOp k
    → Reach k f s
    → let v = s.shared.sems in
      (v Semaphore.start_gate ≤ 1)
      × (v Semaphore.mutex ≤ 1)
      × (v Semaphore.passengers_in_queue ≤ n_pass)
      × (v Semaphore.passengers_wait_in_queue ≤ 1)
      × (v Semaphore.passengers_wait_in_flight ≤ s.shared.f_st.n_pass_in_flight)
      × (v Semaphore.ready_for_boarding + v Semaphore.ready_to_flight ≤ 1)
      × (v Semaphore.id_shown ≤ 1)
      × (v Semaphore.plane_empty ≤ 1)
semaphores_bounded k f s law r =
    let i : SystemInv s = Reach-Inv law r in
    omega (
      arith,
      mutex_raised-le s.main,
      gate_opened-le s.main,
      emptied-le s.pilot s.shared.f_st.n_pass_in_flight,
      pilot_awaiting-le s.pilot,
      hostess_called-le s.hostess,
      let_out-le s.pilot (counts s.passenger).left s.shared.f_st.n_pass_in_flight
          s.shared.f_st.total_pass_boarded i.pilot_plane i.aboard,
      i.ordered,
      i.gate,
      i.exclusive,
      i.arrivals,
      i.calls,
      i.exits_allowed,
      i.turn,
      i.passports,
      i.empty_plane,
      i.aboard,
    )
