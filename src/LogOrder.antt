-- ===== src/LogOrder.antt =====
-- The order of the entries in the log.
mod Phases
mod Kept
mod Steps
pub use Phases.{Phase, phase_of}
use so_assignment2_air_bridg.Base.{◌+◌, ◌≡◌, some}
use so_assignment2_air_bridg.Data.{FullStat}
use so_assignment2_air_bridg.Semaphore.{SemOp, IsSemOp}
use so_assignment2_air_bridg.Main.{start}
use so_assignment2_air_bridg.System.{System, Reach, begin, later}
use so_assignment2_air_bridg.Invariant.{Reach-Inv, Step-ideal}
use so_assignment2_air_bridg.Frame.{pilot_opened, hostess_filling}
use so_assignment2_air_bridg.ResultLast.{result_waits}
use Phases.{stage, phase_of-create_log}
use Kept.{expected, InOrder, open_flights}
use Steps.{ended-home, Step-InOrder}

-- Where the plane is, as the processes show: boarded from the pilot's record of a new flight until the
-- hostess has recorded the departure, with the passengers aboard; then flying out until the pilot has
-- recorded the arrival, then unloading until he has recorded the start of the return.
pub plane_phase : System → Phase
plane_phase s =
    expected (stage s.pilot) (open_flights s + s.shared.sems 5) s.shared.f_st.n_pass_in_flight

Reach-InOrder :
    {k : SemOp} {f : FullStat} {s : System}
    → IsSemOp k
    → Reach k f s
    → InOrder (stage s.pilot) (open_flights s) s.shared
unfolding stage expected start pilot_opened hostess_filling
Reach-InOrder law begin = phase_of-create_log
Reach-InOrder law (later r st) =
    let i = Reach-Inv law r in
    Step-InOrder (Step-ideal law st i) i (Reach-Inv law (later r st))
      (λ e. ended-home _ (result_waits r e)) (Reach-InOrder law r)

-- If `semop` behaves as documented, in every reachable state the entries of the log are in order: each
-- flight is the start of boarding, then from one to ten checks, and fewer than five only if all
-- passengers have boarded by then, then the departure, the arrival and the start of the return, one
-- flight after the other, and the result stands only where the plane is on the ground. The log ends in
-- the phase in which the plane is, and shows as many checks for an open flight as passengers are
-- aboard.
pub log_in_order :
    (k : SemOp) (f : FullStat) (s : System)
    → IsSemOp k
    → Reach k f s
    → phase_of s.shared.log ≡ some (plane_phase s)
unfolding plane_phase
log_in_order k f s law r = Reach-InOrder law r
